-- ===== src/Orders/RoundTrip.antt =====
-- An order that is written and read back.
use operations_procedure_sup.Common.{
  true, false, ◌||◌, ◌≡◌, refl, sym, ap, ◌∙◌, ◌⊎◌, inl, inr, List, [], ◌∷◌, ◌++◌, Option, none,
  some, Option-cases, Text, text_eq, codes, if◌then◌else◌, pos, eqb_ℤ,
}
use mathlib.Core.List.{append_assoc}
use operations_procedure_sup.Orders.{AmOrderData, cleared, am_ok}
use operations_procedure_sup.Orders.Write.{
  collect, joined, struct_to_string, header_pieces, script_pieces, cfi_pieces, ops_pieces,
  type_pieces, tested_piece,
}
use operations_procedure_sup.Orders.Read.{
  header_setters, script_setters, cfi_setters, ops_setters, read_members, read_type, last_of_header,
  close, close_ops, tokens, string_to_struct,
}
use operations_procedure_sup.Orders.Pieces.{AllPieces, tokens-joined}
use operations_procedure_sup.Orders.Members.{
  passes, header-Passes, script-Passes, cfi-Passes, IsHeader, IsCfi, IsScript, kept_header,
  kept_cfi, kept_script,
}
use operations_procedure_sup.Orders.Members.Procedure.{
  ops-Passes, printer_reads, ops_front, ops_part, IsOps, kept_ops,
}

-- One list of pieces behind the other.
abbrev both : Option (List Text) → Option (List Text) → Option (List Text)
both none b = none
both (some ps) none = none
both (some ps) (some qs) = some (ps ++ qs)

-- A piece in front.
abbrev front_of : Text → Option (List Text) → Option (List Text)
front_of p none = none
front_of p (some ps) = some (p ∷ ps)

collect_cons :
    (p : Text) (os : List (Option Text)) → collect (some p ∷ os) ≡ front_of p (collect os)
unfolding collect
collect_cons p os = elim (Option-cases (collect os)) [
  | inl e ↦ rw (e, collect) refl
  | inr (ps, e) ↦ rw (e, collect) refl
]

both_front : (p : Text) (a b : Option (List Text)) → both (front_of p a) b ≡ front_of p (both a b)
both_front p none b = refl
both_front p (some ps) none = refl
both_front p (some ps) (some qs) = refl

collect-append : (os qs : List (Option Text)) → collect (os ++ qs) ≡ both (collect os) (collect qs)
unfolding collect
collect-append [] qs = elim (Option-cases (collect qs)) [
  | inl e ↦ rw e refl
  | inr (ps, e) ↦ rw e refl
]
collect-append (none ∷ os) qs = refl
collect-append (some p ∷ os) qs =
    collect_cons p (os ++ qs)
    ∙ ap (front_of p) (collect-append os qs)
    ∙ sym (both_front p (collect os) (collect qs))
    ∙ ap (λ a. both a (collect qs)) (sym (collect_cons p os))

AllPieces-append : (ps qs : List Text) → AllPieces ps → AllPieces qs → AllPieces (ps ++ qs)
AllPieces-append [] qs h k = k
AllPieces-append (p ∷ ps) qs h k = (h.0, AllPieces-append ps qs h.1 k)

abbrev RoundTrip : AmOrderData → AmOrderData → AmOrderData → Type 0
RoundTrip d kept old =
    (text : Text) × (struct_to_string d ≡ some text)
    × (string_to_struct text (some old) ≡ (am_ok, some kept))

-- The `;` that ends a line.
abbrev the_end : List Text
the_end = codes ";" ∷ []

-- The pieces of the type, with what the reading makes of them behind any header.
abbrev Ends : AmOrderData → AmOrderData → Type 0
Ends d kept =
    (ps : List Text) × (collect (type_pieces d) ≡ some ps)
    × AllPieces ps
    × ((aux : Text) → read_type aux (kept_header d) (ps ++ the_end) ≡ (am_ok, kept))

behind_header : (d old kept : AmOrderData) → IsHeader d → Ends d kept → RoundTrip d kept old
unfolding struct_to_string string_to_struct
behind_header d old kept header (qs, collected, pieces, reads) =
    let (ps, front, head_pieces, sets) =
      passes (header_pieces d) header_setters cleared (kept_header d) (header-Passes d header) in
    let ts = tokens (joined (ps ++ qs)) in
    let all : ts ≡ ps ++ (qs ++ the_end) =
      tokens-joined (ps ++ qs) (AllPieces-append ps qs head_pieces pieces)
      ∙ append_assoc ps qs the_end in
    let answer : read_members header_setters (read_type (last_of_header ts)) cleared ts
        ≡ (am_ok, kept) =
      ap (read_members header_setters (read_type (last_of_header ts)) cleared) all
      ∙ sets (read_type (last_of_header ts)) (qs ++ the_end)
      ∙ reads (last_of_header ts) in
    (
      joined (ps ++ qs),
      rw (collect-append (header_pieces d) (type_pieces d), front, collected, struct_to_string)
          refl,
      ap (λ r. (r.0, some r.1)) answer,
    )

cfi-Ends : (d : AmOrderData) → eqb_ℤ d.order_type (pos 0) ≡ true → IsCfi d → Ends d (kept_cfi d)
unfolding text_eq
cfi-Ends d t0 members =
    let (qs, collected, pieces, sets) =
      passes (cfi_pieces d) cfi_setters (kept_header d) (kept_cfi d) (cfi-Passes d members) in
    (qs, rw t0 collected, pieces, λ aux. rw t0 (sets close the_end))

script-Ends :
    (d : AmOrderData)
    → eqb_ℤ d.order_type (pos 0) ≡ false
    → (eqb_ℤ d.order_type (pos 1) || eqb_ℤ d.order_type (pos 3)) ≡ true
    → IsScript d
    → Ends d (kept_script d)
unfolding text_eq
script-Ends d t0 t13 members =
    let (qs, collected, pieces, sets) =
      passes (script_pieces d) script_setters (kept_header d) (kept_script d)
        (script-Passes d members) in
    (qs, rw (t0, t13) collected, pieces, λ aux. rw (t0, t13) (sets close the_end))

ops-Ends :
    (d : AmOrderData)
    → eqb_ℤ d.order_type (pos 0) ≡ false
    → (eqb_ℤ d.order_type (pos 1) || eqb_ℤ d.order_type (pos 3)) ≡ false
    → eqb_ℤ d.order_type (pos 2) ≡ true
    → IsOps d
    → Ends d (kept_ops d)
unfolding text_eq
ops-Ends d t0 t13 t2 members =
    let (qs, collected, pieces, sets) =
      passes (ops_front d) ops_setters (kept_header d) (ops_part d) (ops-Passes d members) in
    let (p, written, piece, value, inside) =
      printer_reads d.print_output_dest members.printer_fits in
    let last : collect (tested_piece d.print_output_dest ∷ []) ≡ some (p ∷ []) =
      ap (λ o. collect (o ∷ [])) written ∙ unfold collect in refl in
    let line : collect (ops_pieces d) ≡ some (qs ++ p ∷ []) =
      collect-append (ops_front d) (tested_piece d.print_output_dest ∷ [])
      ∙ rw (collected, last) refl in
    let printed : close_ops (ops_part d) (p ∷ the_end) ≡ (am_ok, kept_ops d) =
      rw inside (ap (λ o. (am_ok, record (ops_part d) { print_output_dest = o })) value) in
    (
      qs ++ p ∷ [],
      rw (t0, t13, t2) line,
      AllPieces-append qs (p ∷ []) pieces (piece, tt),
      λ aux.
          rw (t0, t13, t2)
            (ap (read_members ops_setters close_ops (kept_header d))
                (append_assoc qs (p ∷ []) the_end)
              ∙ sets close_ops (p ∷ the_end)
              ∙ printed),
    )

-- What an order of a known type keeps, and what lets it keep that.
abbrev pub kept : AmOrderData → AmOrderData
kept d =
    if eqb_ℤ d.order_type (pos 0)
    then kept_cfi d
    else if eqb_ℤ d.order_type (pos 1) || eqb_ℤ d.order_type (pos 3)
    then kept_script d
    else kept_ops d

abbrev pub IsStorable : AmOrderData → Type 0
IsStorable d =
    IsHeader d
    × (((d.order_type ≡ pos 0) × IsCfi d)
        ⊎ (((d.order_type ≡ pos 1) × IsScript d)
            ⊎ (((d.order_type ≡ pos 3) × IsScript d) ⊎ ((d.order_type ≡ pos 2) × IsOps d))))

-- An order of one of the types 0 to 3 that is written by `structToString` is read by
-- `stringToStruct` as AM_OK and the members of its type, whatever stood there before. Conditions:
-- the numbers are not negative and fit an `int`, or 14 digits for the three `long`; the texts are
-- not NULL, hold no `%` and are not one blank, and for type 2 the network element is not 0, no
-- printer is called `;`, and the display is off, or on and named. For type 2 the destinations that
-- are NULL come back as empty texts, and so does the display that is off.
pub string_to_struct-struct_to_string :
    (d old : AmOrderData)
    → IsStorable d
    → (text : Text) × (struct_to_string d ≡ some text)
      × (string_to_struct text (some old) ≡ (am_ok, some (kept d)))
string_to_struct-struct_to_string d old (header, inl (t, members)) =
    let t0 = ap (λ z. eqb_ℤ z (pos 0)) t in
    rw t0 (behind_header d old (kept_cfi d) header (cfi-Ends d t0 members))
string_to_struct-struct_to_string d old (header, inr (inl (t, members))) =
    let t0 = ap (λ z. eqb_ℤ z (pos 0)) t in
    let t13 = ap (λ z. eqb_ℤ z (pos 1) || eqb_ℤ z (pos 3)) t in
    rw (t0, t13) (behind_header d old (kept_script d) header (script-Ends d t0 t13 members))
string_to_struct-struct_to_string d old (header, inr (inr (inl (t, members)))) =
    let t0 = ap (λ z. eqb_ℤ z (pos 0)) t in
    let t13 = ap (λ z. eqb_ℤ z (pos 1) || eqb_ℤ z (pos 3)) t in
    rw (t0, t13) (behind_header d old (kept_script d) header (script-Ends d t0 t13 members))
string_to_struct-struct_to_string d old (header, inr (inr (inr (t, members)))) =
    let t0 = ap (λ z. eqb_ℤ z (pos 0)) t in
    let t13 = ap (λ z. eqb_ℤ z (pos 1) || eqb_ℤ z (pos 3)) t in
    let t2 = ap (λ z. eqb_ℤ z (pos 2)) t in
    rw (t0, t13) (behind_header d old (kept_ops d) header (ops-Ends d t0 t13 t2 members))
