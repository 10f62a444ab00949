-- ===== src/Orders/Members.antt =====
-- The parts of an order: what is written of each, and what the setters make of it.
pub mod Procedure
use operations_procedure_sup.Common.{
  ℕ, ◌<◌, ◌≡◌, refl, ap, ◌∙◌, arith, List, [], ◌∷◌, ◌++◌, Option, none, some, Text, ℤ, pos, negsuc,
}
use operations_procedure_sup.Value.Words.{residue}
use operations_procedure_sup.Value.Convert.{atol, atoi}
use operations_procedure_sup.Orders.{AmOrderData, cleared, ltoa}
use operations_procedure_sup.Orders.Write.{
  member_piece, collect, header_pieces, script_pieces, cfi_pieces,
}
use operations_procedure_sup.Orders.Read.{
  Setter, header_setters, script_setters, cfi_setters, read_members, text_of,
}
use operations_procedure_sup.Orders.Pieces.{
  IsPiece, IsPlain, AllPieces, ltoa-atol, ltoa-atoi, IsPiece-text_piece, decrypt-text_piece,
}

-- A member is written as a piece, from which `read` gives the value back.
abbrev pub Reads : {A : Type 0} → Option Text → (Text → A) → A → Type 0
Reads o read a = (p : Text) × (o ≡ some p) × IsPiece p × (read p ≡ a)

-- The numbers and texts that can be stored.
abbrev pub IsBelow : ℕ → ℤ → Type 0
IsBelow b (pos n) = n < b
IsBelow b (negsuc n) = ⊥

abbrev pub IsStored : Option Text → Type 0
IsStored none = ⊥
IsStored (some s) = IsPlain s

long-Reads : (z : ℤ) → IsBelow 100000000000000 z → Reads (ltoa z) atol z
long-Reads (pos n) h = ltoa-atol n h
long-Reads (negsuc n) h = absurd h

int-Reads : (z : ℤ) → IsBelow 2147483648 z → Reads (ltoa z) atoi z
int-Reads (pos n) h = ltoa-atoi n h
int-Reads (negsuc n) h = absurd h

abbrev unsigned : Text → ℤ
unsigned aux = pos (residue 4294967296 (atoi aux))

unsigned-Reads : (z : ℤ) → IsBelow 2147483648 z → Reads (ltoa z) unsigned z
unfolding residue
unsigned-Reads (pos n) h =
    let (p, written, piece, value) = ltoa-atoi n h in
    (p, written, piece, ap (λ (z : ℤ). pos (residue 4294967296 z)) value ∙ ap pos (omega arith))
unsigned-Reads (negsuc n) h = absurd h

pub text-Reads : (o : Option Text) → IsStored o → Reads (member_piece o) text_of o
text-Reads none h = absurd h
text-Reads (some s) h = (_, refl, IsPiece-text_piece s, ap some (decrypt-text_piece s h))

pub record IsHeader (d : AmOrderData) : Type 0 where
  pub key_fits : IsBelow 100000000000000 d.order_key
  pub type_fits : IsBelow 2147483648 d.order_type
  pub filename_fits : IsStored d.filename
  pub user_fits : IsStored d.user_id
  pub status_fits : IsBelow 2147483648 d.status
  pub start_fits : IsBelow 100000000000000 d.start_time
  pub base_fits : IsBelow 2147483648 d.interval_base
  pub split_fits : IsBelow 2147483648 d.interval_split
  pub host_fits : IsStored d.host
  pub tas_fits : IsBelow 2147483648 d.tas_id
  pub timestamp_fits : IsBelow 100000000000000 d.timestamp

pub record IsCfi (d : AmOrderData) : Type 0 where
  pub element_fits : IsStored d.network_element
  pub output_fits : IsStored d.output_dest
  pub address_fits : IsStored d.mail_address
  pub busy_fits : IsBelow 2147483648 d.func_busy_interval
  pub na_fits : IsBelow 2147483648 d.stop_cont_na
  pub pe_fits : IsBelow 2147483648 d.stop_cont_pe
  pub error_fits : IsBelow 2147483648 d.mail_error
  pub result_fits : IsBelow 2147483648 d.mail_result
  pub synchro_fits : IsBelow 2147483648 d.synchro

pub record IsScript (d : AmOrderData) : Type 0 where
  pub mail_fits : IsBelow 2147483648 d.out_msg_mail
  pub parameters_fit : IsStored d.parameters

abbrev pub kept_header : AmOrderData → AmOrderData
kept_header d = record cleared {
  order_key = d.order_key;
  order_type = d.order_type;
  filename = d.filename;
  user_id = d.user_id;
  status = d.status;
  start_time = d.start_time;
  interval_base = d.interval_base;
  interval_split = d.interval_split;
  host = d.host;
  tas_id = d.tas_id;
  timestamp = d.timestamp;
}

abbrev pub kept_script : AmOrderData → AmOrderData
kept_script d = record (kept_header d) { out_msg_mail = d.out_msg_mail; parameters = d.parameters }

abbrev pub kept_cfi : AmOrderData → AmOrderData
kept_cfi d = record (kept_header d) {
  network_element = d.network_element;
  output_dest = d.output_dest;
  mail_address = d.mail_address;
  func_busy_interval = d.func_busy_interval;
  stop_cont_na = d.stop_cont_na;
  stop_cont_pe = d.stop_cont_pe;
  mail_error = d.mail_error;
  mail_result = d.mail_result;
  synchro = d.synchro;
}

-- The pieces `os` are written, and the setters put their tokens into `d0` and give `d1`.
abbrev pub Passes : List (Option Text) → List Setter → AmOrderData → AmOrderData → Type 0
Passes [] [] d0 d1 = d0 ≡ d1
Passes [] (f ∷ fs) d0 d1 = ⊥
Passes (o ∷ os) [] d0 d1 = ⊥
Passes (o ∷ os) (f ∷ fs) d0 d1 = (p : Text) × (o ≡ some p) × IsPiece p × Passes os fs (f p d0) d1

-- What becomes of them.
abbrev pub Passed : List (Option Text) → List Setter → AmOrderData → AmOrderData → Type 0
Passed os fs d0 d1 =
    (ps : List Text) × (collect os ≡ some ps)
    × AllPieces ps
    × ((rest : AmOrderData → List Text → ℤ × AmOrderData) (ts : List Text)
        → read_members fs rest d0 (ps ++ ts) ≡ rest d1 ts)

pub passes :
    (os : List (Option Text)) (fs : List Setter) (d0 d1 : AmOrderData)
    → Passes os fs d0 d1
    → Passed os fs d0 d1
unfolding collect read_members
passes [] [] d0 d1 e = ([], refl, tt, λ rest ts. ap (λ d. rest d ts) e)
passes [] (f ∷ fs) d0 d1 h = absurd h
passes (o ∷ os) [] d0 d1 h = absurd h
passes (o ∷ os) (f ∷ fs) d0 d1 (p, written, piece, more) =
    let (ps, collected, pieces, reads) = passes os fs (f p d0) d1 more in
    (p ∷ ps, rw (written, collect, collected) refl, (piece, pieces), reads)

pub header-Passes :
    (d : AmOrderData) → IsHeader d → Passes (header_pieces d) header_setters cleared (kept_header d)
header-Passes d h =
    let (p1, w1, i1, v1) = long-Reads d.order_key h.key_fits in
    let (p2, w2, i2, v2) = int-Reads d.order_type h.type_fits in
    let (p3, w3, i3, v3) = text-Reads d.filename h.filename_fits in
    let (p4, w4, i4, v4) = text-Reads d.user_id h.user_fits in
    let (p5, w5, i5, v5) = int-Reads d.status h.status_fits in
    let (p6, w6, i6, v6) = long-Reads d.start_time h.start_fits in
    let (p7, w7, i7, v7) = int-Reads d.interval_base h.base_fits in
    let (p8, w8, i8, v8) = int-Reads d.interval_split h.split_fits in
    let (p9, w9, i9, v9) = text-Reads d.host h.host_fits in
    let (p10, w10, i10, v10) = int-Reads d.tas_id h.tas_fits in
    let (p11, w11, i11, v11) = long-Reads d.timestamp h.timestamp_fits in
    (
      p1,
      w1,
      i1,
      (
        p2,
        w2,
        i2,
        (
          p3,
          w3,
          i3,
          (
            p4,
            w4,
            i4,
            (
              p5,
              w5,
              i5,
              (
                p6,
                w6,
                i6,
                (
                  p7,
                  w7,
                  i7,
                  (
                    p8,
                    w8,
                    i8,
                    (
                      p9,
                      w9,
                      i9,
                      (
                        p10,
                        w10,
                        i10,
                        (p11, w11, i11, rw (v1, v2, v3, v4, v5, v6, v7, v8, v9, v10, v11) refl),
                      ),
                    ),
                  ),
                ),
              ),
            ),
          ),
        ),
      ),
    )

pub script-Passes :
    (d : AmOrderData)
    → IsScript d
    → Passes (script_pieces d) script_setters (kept_header d) (kept_script d)
script-Passes d s =
    let (p1, w1, i1, v1) = int-Reads d.out_msg_mail s.mail_fits in
    let (p2, w2, i2, v2) = text-Reads d.parameters s.parameters_fit in
    (p1, w1, i1, (p2, w2, i2, rw (v1, v2) refl))

pub cfi-Passes :
    (d : AmOrderData) → IsCfi d → Passes (cfi_pieces d) cfi_setters (kept_header d) (kept_cfi d)
cfi-Passes d s =
    let (p1, w1, i1, v1) = text-Reads d.network_element s.element_fits in
    let (p2, w2, i2, v2) = text-Reads d.output_dest s.output_fits in
    let (p3, w3, i3, v3) = text-Reads d.mail_address s.address_fits in
    let (p4, w4, i4, v4) = unsigned-Reads d.func_busy_interval s.busy_fits in
    let (p5, w5, i5, v5) = int-Reads d.stop_cont_na s.na_fits in
    let (p6, w6, i6, v6) = int-Reads d.stop_cont_pe s.pe_fits in
    let (p7, w7, i7, v7) = int-Reads d.mail_error s.error_fits in
    let (p8, w8, i8, v8) = int-Reads d.mail_result s.result_fits in
    let (p9, w9, i9, v9) = int-Reads d.synchro s.synchro_fits in
    (
      p1,
      w1,
      i1,
      (
        p2,
        w2,
        i2,
        (
          p3,
          w3,
          i3,
          (
            p4,
            w4,
            i4,
            (
              p5,
              w5,
              i5,
              (
                p6,
                w6,
                i6,
                (
                  p7,
                  w7,
                  i7,
                  (p8, w8, i8, (p9, w9, i9, rw (v1, v2, v3, v4, v5, v6, v7, v8, v9) refl)),
                ),
              ),
            ),
          ),
        ),
      ),
    )
