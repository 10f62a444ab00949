-- ===== src/Orders/Members/Procedure.antt =====
-- The part of an operations procedure: its destinations, its display and its printer.
use operations_procedure_sup.Common.{
  false, ◌≡◌, refl, sym, ap, ◌∙◌, ◌⊎◌, inl, inr, List, [], ◌∷◌, Option, none, some, Text, text_eq,
  text_eq_iff, codes, Bool-cases, if◌then◌else◌, ℤ, pos, eqb_ℤ,
}
use mathlib.Core.Bool.{false≢true}
use operations_procedure_sup.Orders.{AmOrderData, decrypt, has_hash_mark}
use operations_procedure_sup.Orders.Write.{text_piece, member_piece, tested_piece, blank_piece}
use operations_procedure_sup.Orders.Read.{element_of, ops_setters, text_of}
use operations_procedure_sup.Orders.Pieces.{
  IsPiece, IsPlain, IsPiece-text_piece, decrypt-text_piece,
}
use operations_procedure_sup.Orders.Members.{Reads, IsStored, text-Reads, Passes, kept_header}

-- A text that is tested for NULL comes back as a text.
abbrev pub IsTested : Option Text → Type 0
IsTested none = Unit
IsTested (some s) = IsPlain s

abbrev pub shown : Option Text → Option Text
shown none = some []
shown (some s) = some s

tested-Reads : (o : Option Text) → IsTested o → Reads (tested_piece o) text_of (shown o)
unfolding has_hash_mark decrypt
tested-Reads none h = (blank_piece, refl, refl, refl)
tested-Reads (some s) h = text-Reads (some s) h

-- No network element is called 0.
abbrev pub IsElement : Option Text → Type 0
IsElement none = ⊥
IsElement (some s) = IsPlain s × (text_eq s (codes "0") ≡ false)

element-Reads : (o : Option Text) → IsElement o → Reads (member_piece o) element_of o
element-Reads none h = absurd h
element-Reads (some s) h = (
  text_piece s,
  refl,
  IsPiece-text_piece s,
  ap (λ t. some (if text_eq t (codes "0") then [] else t)) (decrypt-text_piece s h.0) ∙ rw h.1 refl,
)

-- No printer is called `;`.
abbrev pub IsPrinter : Option Text → Type 0
IsPrinter none = Unit
IsPrinter (some s) = IsPlain s × (text_eq s (codes ";") ≡ false)

not_the_end :
    (s : Text)
    → IsPlain s
    → text_eq s (codes ";") ≡ false
    → text_eq (text_piece s) (codes ";") ≡ false
unfolding decrypt
not_the_end s plain h = elim (Bool-cases (text_eq (text_piece s) (codes ";"))) [
  | inr e ↦ e
  | inl e ↦
      let back : s ≡ codes ";" =
        sym (decrypt-text_piece s plain)
        ∙ ap decrypt ((text_eq_iff (text_piece s) (codes ";")).0 e) in
      absurd (false≢true (sym h ∙ (text_eq_iff s (codes ";")).1 back))
]

pub printer_reads :
    (o : Option Text)
    → IsPrinter o
    → (p : Text) × (tested_piece o ≡ some p)
      × IsPiece p
      × (text_of p ≡ shown o)
      × (text_eq p (codes ";") ≡ false)
unfolding has_hash_mark decrypt
printer_reads none h = (blank_piece, refl, refl, refl, refl)
printer_reads (some s) h = (
  text_piece s,
  refl,
  IsPiece-text_piece s,
  ap some (decrypt-text_piece s h.0),
  not_the_end s h.0 h.1,
)

-- The display is off, or on and named.
abbrev pub IsNamed : Option Text → Type 0
IsNamed none = ⊥
IsNamed (some []) = ⊥
IsNamed (some (c ∷ cs)) = IsPlain (c ∷ cs)

abbrev pub IsDisplay : Option Text → ℤ → Type 0
IsDisplay o on = (on ≡ pos 0) ⊎ ((on ≡ pos 1) × IsNamed o)

abbrev display_piece : Option Text → ℤ → Option Text
display_piece o on = if eqb_ℤ on (pos 0) then some blank_piece else member_piece o

abbrev pub kept_display : Option Text → ℤ → Option Text
kept_display o on = if eqb_ℤ on (pos 0) then some [] else o

abbrev display_of : Text → Option Text × ℤ
display_of aux = (text_of aux, if text_eq (decrypt aux) [] then pos 0 else pos 1)

display-Reads :
    (o : Option Text) (on : ℤ)
    → IsDisplay o on
    → Reads (display_piece o on) display_of (kept_display o on, on)
unfolding has_hash_mark decrypt
display-Reads o on (inl off) = rw off (blank_piece, refl, refl, refl)
display-Reads none on (inr (e, h)) = absurd h
display-Reads (some []) on (inr (e, h)) = absurd h
display-Reads (some (c ∷ cs)) on (inr (e, h)) = rw e (
  text_piece (c ∷ cs),
  refl,
  IsPiece-text_piece (c ∷ cs),
  ap (λ t. (some t, if text_eq t [] then pos 0 else pos 1)) (decrypt-text_piece (c ∷ cs) h),
)

pub record IsOps (d : AmOrderData) : Type 0 where
  pub element_fits : IsElement d.network_element
  pub address_fits : IsStored d.mail_address
  pub label_fits : IsStored d.ozt_label
  pub display_fits : IsDisplay d.ozt_display d.ozt_display_on
  pub mail_dest_fits : IsTested d.mail_output_dest
  pub file_dest_fits : IsTested d.file_output_dest
  pub printer_fits : IsPrinter d.print_output_dest

-- All but the printer.
abbrev pub ops_part : AmOrderData → AmOrderData
ops_part d = record (kept_header d) {
  network_element = d.network_element;
  mail_address = d.mail_address;
  ozt_label = d.ozt_label;
  ozt_display = kept_display d.ozt_display d.ozt_display_on;
  ozt_display_on = d.ozt_display_on;
  mail_output_dest = shown d.mail_output_dest;
  file_output_dest = shown d.file_output_dest;
}

abbrev pub kept_ops : AmOrderData → AmOrderData
kept_ops d = record (ops_part d) { print_output_dest = shown d.print_output_dest }

-- The pieces in front of the printer's.
abbrev pub ops_front : AmOrderData → List (Option Text)
ops_front d =
    some blank_piece
    ∷ (member_piece d.network_element
        ∷ (member_piece d.mail_address
            ∷ (member_piece d.ozt_label
                ∷ (display_piece d.ozt_display d.ozt_display_on
                    ∷ (tested_piece d.mail_output_dest ∷ (tested_piece d.file_output_dest ∷ []))))))

pub ops-Passes :
    (d : AmOrderData) → IsOps d → Passes (ops_front d) ops_setters (kept_header d) (ops_part d)
unfolding has_hash_mark
ops-Passes d s =
    let (p2, w2, i2, v2) = element-Reads d.network_element s.element_fits in
    let (p3, w3, i3, v3) = text-Reads d.mail_address s.address_fits in
    let (p4, w4, i4, v4) = text-Reads d.ozt_label s.label_fits in
    let (p5, w5, i5, v5) = display-Reads d.ozt_display d.ozt_display_on s.display_fits in
    let (p6, w6, i6, v6) = tested-Reads d.mail_output_dest s.mail_dest_fits in
    let (p7, w7, i7, v7) = tested-Reads d.file_output_dest s.file_dest_fits in
    let named = ap (λ (r : Option Text × ℤ). r.0) v5 in
    let turned_on = ap (λ (r : Option Text × ℤ). r.1) v5 in
    (
      blank_piece,
      refl,
      refl,
      (
        p2,
        w2,
        i2,
        (
          p3,
          w3,
          i3,
          (
            p4,
            w4,
            i4,
            (
              p5,
              w5,
              i5,
              (p6, w6, i6, (p7, w7, i7, rw (v2, v3, v4, named, turned_on, v6, v7) refl)),
            ),
          ),
        ),
      ),
    )
