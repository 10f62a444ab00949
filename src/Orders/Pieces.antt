-- ===== src/Orders/Pieces.antt =====
-- The pieces between the `#` of an order, and the tokens that are read from them.
use operations_procedure_sup.Common.{
  ℕ, zero, suc, ◌+◌, ◌/◌, ◌%◌, ◌<◌, true, false, ◌≡◌, refl, ap, ◌∙◌, inl, inr, arith, List, [], ◌∷◌,
  ◌++◌, some, Text, text_eq, ltb, ◌==◌, Bool-cases, lt→ltb, ℤ, pos, is_digit,
}
use operations_procedure_sup.Value.Digits.{all_digits, some_digits, show_digits}
use operations_procedure_sup.Value.Digits.RoundTrip.{
  all_digits-show_digits, some_digits-show_digits, digits_value-show_digits,
}
use operations_procedure_sup.Value.Words.{wrap32, wrap32_id}
use operations_procedure_sup.Value.Convert.{atol, atoi}
use operations_procedure_sup.Value.Convert.Laws.{atol-some_digits}
use operations_procedure_sup.Orders.{low_digits, turned, ltoa, has_hash_mark, crypted, decrypt}
use operations_procedure_sup.Orders.Escapes.{Lacks, crypt-crypted, decrypt-crypt}
use operations_procedure_sup.Orders.Write.{text_piece, joined}
use operations_procedure_sup.Orders.Read.{on_token, tokens}

-- Texts that are not empty and hold no `#`.
abbrev pub IsPiece : Text → Type 0
IsPiece [] = ⊥
IsPiece (c ∷ cs) = has_hash_mark (c ∷ cs) ≡ false

crypted-has_hash_mark : (s : Text) → has_hash_mark (crypted s) ≡ false
unfolding has_hash_mark crypted
crypted-has_hash_mark [] = refl
crypted-has_hash_mark (c ∷ cs) = ground (arith, crypted-has_hash_mark cs)

IsPiece-crypted : (c : ℕ) (cs : Text) → IsPiece (crypted (c ∷ cs))
unfolding crypted has_hash_mark
IsPiece-crypted c cs = elim (Bool-cases (c == b'#')) [
  | inl e ↦ rw e (crypted-has_hash_mark cs)
  | inr e ↦ rw e (rw e (crypted-has_hash_mark cs))
]

pub IsPiece-text_piece : (s : Text) → IsPiece (text_piece s)
unfolding text_piece
IsPiece-text_piece [] = unfold has_hash_mark in refl
IsPiece-text_piece (c ∷ cs) = rw (crypt-crypted (c ∷ cs)) (IsPiece-crypted c cs)

-- A text that is read back as it was: no `%`, and not one blank.
abbrev pub IsPlain : Text → Type 0
IsPlain s = Lacks b'%' s × (text_eq s (b' ' ∷ []) ≡ false)

pub decrypt-text_piece : (s : Text) → IsPlain s → decrypt (text_piece s) ≡ s
unfolding text_piece
decrypt-text_piece [] h = unfold decrypt in refl
decrypt-text_piece (c ∷ cs) h = decrypt-crypt (c ∷ cs) h.0 h.1

turned-low_digits : (f n : ℕ) → turned (low_digits f n) ≡ show_digits f n
unfolding turned low_digits show_digits
turned-low_digits zero n = refl
turned-low_digits (suc f) n = elim (Bool-cases (ltb n 10)) [
  | inl e ↦ rw e (ap (λ d. d ∷ []) (omega arith))
  | inr e ↦ rw e (
      ap (λ t. t ++ (n % 10 + 48) ∷ []) (turned-low_digits f (n / 10))
      ∙ ap (λ d. show_digits f (n / 10) ++ d ∷ []) (omega arith))
]

digits_no_hash_mark : (s : Text) → all_digits s ≡ true → has_hash_mark s ≡ false
unfolding all_digits has_hash_mark is_digit
digits_no_hash_mark [] h = refl
digits_no_hash_mark (c ∷ cs) h = ground (arith, digits_no_hash_mark cs)

IsPiece-digits : (s : Text) → some_digits s ≡ true → all_digits s ≡ true → IsPiece s
unfolding some_digits
IsPiece-digits [] h k = cc
IsPiece-digits (c ∷ cs) h k = digits_no_hash_mark (c ∷ cs) k

-- A number of at most 14 digits is a piece from which it is read back.
abbrev pub Numeral : ℤ → (Text → ℤ) → Type 0
Numeral z read = (p : Text) × (ltoa z ≡ some p) × IsPiece p × (read p ≡ z)

pub ltoa-atol : (n : ℕ) → n < 100000000000000 → Numeral (pos n) atol
unfolding ltoa
ltoa-atol n h =
    let value = digits_value-show_digits 14 n (omega arith) in
    (
      show_digits 14 n,
      rw (lt→ltb n 100000000000000 h) (ap some (turned-low_digits 14 n)),
      IsPiece-digits (show_digits 14 n) (some_digits-show_digits 13 n)
          (all_digits-show_digits 14 n),
      atol-some_digits (show_digits 14 n) (some_digits-show_digits 13 n) (omega arith)
          ∙ ap pos value,
    )

pub ltoa-atoi : (n : ℕ) → n < 2147483648 → Numeral (pos n) atoi
unfolding atoi
ltoa-atoi n h =
    let (p, written, piece, value) = ltoa-atol n (omega arith) in
    (p, written, piece, ap wrap32 value ∙ wrap32_id (pos n) h)

on_token_mark : (c : Text) (ts : List Text) (ds : Text) → on_token c ts (b'#' ∷ ds) ≡ c ∷ ts
on_token_mark c [] ds = refl
on_token_mark c (t ∷ ts) ds = refl

tokens-piece :
    (c : ℕ) (cs rest : Text)
    → has_hash_mark (c ∷ cs) ≡ false
    → tokens ((c ∷ cs) ++ b'#' ∷ rest) ≡ (c ∷ cs) ∷ tokens rest
unfolding tokens has_hash_mark
tokens-piece c [] rest h =
    let no_mark : (c == b'#') ≡ false = ground arith in
    rw no_mark (on_token_mark (c ∷ []) (tokens rest) rest)
tokens-piece c (d ∷ ds) rest h =
    let no_mark : (c == b'#') ≡ false = ground arith in
    let more : has_hash_mark (d ∷ ds) ≡ false = ground arith in
    let next : (d == b'#') ≡ false = ground arith in
    rw no_mark (
      ap (λ ts. on_token (c ∷ []) ts (d ∷ (ds ++ b'#' ∷ rest))) (tokens-piece d ds rest more)
      ∙ rw next refl)

-- All texts are pieces.
abbrev pub AllPieces : List Text → Type 0
AllPieces [] = Unit
AllPieces (p ∷ ps) = IsPiece p × AllPieces ps

-- The tokens of the joined pieces are the pieces, and the `;`.
pub tokens-joined : (ps : List Text) → AllPieces ps → tokens (joined ps) ≡ ps ++ (b';' ∷ []) ∷ []
unfolding joined
tokens-joined [] h = unfold tokens in refl
tokens-joined ([] ∷ ps) h = absurd h.0
tokens-joined ((c ∷ cs) ∷ ps) h =
    tokens-piece c cs (joined ps) h.0 ∙ ap (λ ts. (c ∷ cs) ∷ ts) (tokens-joined ps h.1)
