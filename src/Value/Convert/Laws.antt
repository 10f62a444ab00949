-- ===== src/Value/Convert/Laws.antt =====
-- Reading back the numbers that the program writes.
use operations_procedure_sup.Common.{
  ℕ, suc, ◌^◌, ◌<◌, true, false, ◌≡◌, refl, arith, [], ◌∷◌, Text, is_digit, is_space, ℤ, pos,
  negsuc,
}
use operations_procedure_sup.Tools.{Tools, found}
use operations_procedure_sup.ErrHandling.{OztResult, no_problem, invalid_value}
use operations_procedure_sup.Value.Digits.{some_digits, is_numeral, digits_value, show_digits}
use operations_procedure_sup.Value.Digits.RoundTrip.{
  digits_value-show_digits, some_digits-show_digits, is_numeral-some_digits,
}
use operations_procedure_sup.Value.Words.{IsLong, IsInt, clamp64_id, wrap32_id}
use operations_procedure_sup.Value.Convert.{
  Value, number_pattern, skip_spaces, signed_digits, negated_value, atol, atoi, show_decimal,
  of_long, to_long, to_int,
}

-- What the program relies on of the regular expressions: `^[+-]?[0-9]+$` is found in the numerals.
abbrev pub ReadsNumerals : Tools → Type 0
ReadsNumerals t = (s : Text) → found (t.index number_pattern s 0) ≡ is_numeral s

-- A text that starts with a digit has no sign and no space in front.
signed_digits-some_digits :
    (s : Text) → some_digits s ≡ true → signed_digits (skip_spaces s) ≡ pos (digits_value 0 s)
unfolding some_digits signed_digits skip_spaces is_digit is_space
signed_digits-some_digits [] h = cc
signed_digits-some_digits (c ∷ cs) h = ground arith

-- `atol` of a text of digits that stands for a `long`.
pub atol-some_digits :
    (s : Text)
    → some_digits s ≡ true
    → digits_value 0 s < 9223372036854775808
    → atol s ≡ pos (digits_value 0 s)
unfolding atol
atol-some_digits s h small =
    rw (signed_digits-some_digits s h) (clamp64_id (pos (digits_value 0 s)) small)

signed_digits-minus :
    (s : Text) → signed_digits (skip_spaces (b'-' ∷ s)) ≡ negated_value (digits_value 0 s)
unfolding signed_digits skip_spaces is_space
signed_digits-minus s = refl

long_digits : (n : ℕ) → n < 9223372036854775809 → n < 10 ^ 20
long_digits n h = omega arith

atol-show_decimal : (v : ℤ) → IsLong v → atol (show_decimal v) ≡ v
unfolding atol show_decimal
atol-show_decimal (pos n) h =
    rw (signed_digits-some_digits (show_digits 20 n) (some_digits-show_digits 19 n))
      (rw (digits_value-show_digits 20 n (long_digits n (omega arith))) (clamp64_id (pos n) h))
atol-show_decimal (negsuc n) h = rw (signed_digits-minus (show_digits 20 (suc n))) (
    rw (digits_value-show_digits 20 (suc n) (long_digits (suc n) (omega arith)))
      (unfold negated_value in clamp64_id (negsuc n) h))

is_numeral-show_decimal : (v : ℤ) → is_numeral (show_decimal v) ≡ true
unfolding show_decimal
is_numeral-show_decimal (pos n) =
    is_numeral-some_digits (show_digits 20 n) (some_digits-show_digits 19 n)
is_numeral-show_decimal (negsuc n) = unfold is_numeral in some_digits-show_digits 19 (suc n)

module _ (t : Tools) (reads : ReadsNumerals t) where
  found-of_long : (v : ℤ) → found (t.index number_pattern (of_long v).chars 0) ≡ true
  unfolding of_long
  found-of_long v = rw (reads (show_decimal v)) (is_numeral-show_decimal v)

  -- A `long` that is written as a value is read back by `toLong`, with the code NO_PROBLEM.
  pub to_long-of_long :
      (v : ℤ) (res : OztResult)
      → IsLong v
      → to_long t (of_long v) res ≡ (v, record res { code = no_problem })
  unfolding to_long
  to_long-of_long v res h = rw (found-of_long v) (unfold of_long in rw (atol-show_decimal v h))

  -- An `int` that is written as a value is read back by `toInt`.
  pub to_int-of_long :
      (v : ℤ) (res : OztResult)
      → IsInt v
      → to_int t (of_long v) res ≡ (v, record res { code = no_problem })
  unfolding to_int atoi
  to_int-of_long v res h =
      rw (found-of_long v)
        (unfold of_long in rw (atol-show_decimal v (int_long v h)) (rw (wrap32_id v h)))
    where
      int_long : (v : ℤ) → IsInt v → IsLong v
      int_long (pos n) h = omega arith
      int_long (negsuc n) h = omega arith

  -- What is no numeral is refused: 0 and INVALID_VALUE.
  pub to_long_refuses :
      (v : Value) (res : OztResult)
      → is_numeral v.chars ≡ false
      → to_long t v res ≡ (pos 0, record res { code = invalid_value })
  unfolding to_long
  to_long_refuses v res h = rw (reads v.chars) (rw h)
