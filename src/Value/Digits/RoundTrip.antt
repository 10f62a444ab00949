-- ===== src/Value/Digits/RoundTrip.antt =====
-- A number is read back from its decimal digits.
use native.Mathlib.Nat.{pow-suc}
use operations_procedure_sup.Common.{
  ℕ, zero, suc, ◌+◌, ◌-◌, ◌*◌, ◌/◌, ◌%◌, ◌^◌, ◌<◌, true, [], ◌∷◌, ◌++◌, ◌≡◌, refl, ◌∙◌, inl, inr,
  arith, Text, ltb, is_digit, Bool-cases,
}
use operations_procedure_sup.Value.Digits.{
  all_digits, some_digits, is_numeral, digits_value, show_digits,
}

digits_value-append :
    (acc : ℕ) (s : Text) (d : ℕ)
    → all_digits s ≡ true
    → d < 10
    → digits_value acc (s ++ (48 + d) ∷ []) ≡ digits_value acc s * 10 + d
unfolding digits_value all_digits is_digit
digits_value-append acc [] d h k = ground arith
digits_value-append acc (c ∷ cs) d h k =
    ground (arith, digits_value-append (acc * 10 + (c - 48)) cs d)

all_digits-append :
    (s : Text) (d : ℕ) → all_digits s ≡ true → d < 10 → all_digits (s ++ (48 + d) ∷ []) ≡ true
unfolding all_digits is_digit
all_digits-append [] d h k = ground arith
all_digits-append (c ∷ cs) d h k = ground (arith, all_digits-append cs d)

pub all_digits-show_digits : (f n : ℕ) → all_digits (show_digits f n) ≡ true
unfolding show_digits all_digits is_digit
all_digits-show_digits zero n = refl
all_digits-show_digits (suc f) n = elim (Bool-cases (ltb n 10)) [
  | inl small ↦ rw small (ground arith)
  | inr large ↦ rw large (
      all_digits-append (show_digits f (n / 10)) (n % 10) (all_digits-show_digits f (n / 10))
        (omega arith))
]

pub digits_value-show_digits : (f n : ℕ) → n < 10 ^ f → digits_value 0 (show_digits f n) ≡ n
unfolding show_digits digits_value is_digit
digits_value-show_digits zero n h = omega arith
digits_value-show_digits (suc f) n h = elim (Bool-cases (ltb n 10)) [
  | inl small ↦ rw small (ground arith)
  | inr large ↦ rw large (
      digits_value-append 0 (show_digits f (n / 10)) (n % 10) (all_digits-show_digits f (n / 10))
        (omega arith)
      ∙ omega (arith, digits_value-show_digits f (n / 10) (below f n h)))
]
  where
    below : (f n : ℕ) → n < 10 ^ suc f → n / 10 < 10 ^ f
    below f n h = let e = pow-suc 10 f in omega arith

some_digits-append :
    (s : Text) (d : ℕ) → all_digits s ≡ true → d < 10 → some_digits (s ++ (48 + d) ∷ []) ≡ true
unfolding some_digits all_digits is_digit
some_digits-append [] d h k = ground arith
some_digits-append (c ∷ cs) d h k = ground (arith, all_digits-append cs d)

pub some_digits-show_digits : (f n : ℕ) → some_digits (show_digits (suc f) n) ≡ true
unfolding show_digits some_digits all_digits is_digit
some_digits-show_digits f n = elim (Bool-cases (ltb n 10)) [
  | inl small ↦ rw small (ground arith)
  | inr large ↦ rw large (
      some_digits-append (show_digits f (n / 10)) (n % 10) (all_digits-show_digits f (n / 10))
        (omega arith))
]

-- A text of digits is a numeral, and so is one behind a sign.
pub is_numeral-some_digits : (s : Text) → some_digits s ≡ true → is_numeral s ≡ true
unfolding is_numeral some_digits is_digit
is_numeral-some_digits [] h = cc
is_numeral-some_digits (c ∷ cs) h = ground arith
