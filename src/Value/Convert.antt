-- ===== src/Value/Convert.antt =====
-- The value itself, and its readings as a number, a truth value and a hexadecimal text.
pub mod Laws
pub mod Numerals
use operations_procedure_sup.Common.{
  ℕ, zero, suc, ◌+◌, ◌-◌, ◌%◌, Bool, true, false, not, ◌||◌, ◌&&◌, List, [], ◌∷◌, ◌++◌, Text, ltb,
  leb, ◌==◌, if◌then◌else◌, is_digit, is_space, ℤ, pos, negsuc, eqb_ℤ, leb_ℤ, ltb_ℤ, length, drop,
  replicate, pos_part,
}
use operations_procedure_sup.Tools.{CharClass, optional, plus, Pattern, Tools, found}
use operations_procedure_sup.ErrHandling.{OztResult, of_code, no_problem, invalid_value, is_ok}
use operations_procedure_sup.Value.Digits.{
  digits_value, show_digits, show_hex_digits, hex_digits_value,
}
use operations_procedure_sup.Value.Words.{clamp64, wrap32, residue}

-- `OZT_Value`: a text, with the number of its bytes that a window does not show.
pub record Value : Type 0 where
  pub chars : Text
  pub unvisible_chars : ℕ

-- `OZT_Value(const RWCString&)`, `OZT_Value(const char*)`
abbrev pub of_text : Text → Value
of_text s = record { chars = s; unvisible_chars = 0 }

-- `OZT_Value()`
abbrev pub empty_value : Value
empty_value = of_text []

-- `^[+-]?[0-9]+$`
abbrev pub number_pattern : Pattern
number_pattern = record {
  from_start = true;
  pieces =
      optional (record { ranges = (b'+', b'+') ∷ (b'-', b'-') ∷ []; negated = false })
      ∷ plus (record { ranges = (b'0', b'9') ∷ []; negated = false })
      ∷ [];
  to_end = true;
}

-- `^[0-9aAbBcCdDeEfF]+$`
abbrev pub hex_pattern : Pattern
hex_pattern = record {
  from_start = true;
  pieces =
      plus (record { ranges = (b'0', b'9') ∷ (b'a', b'f') ∷ (b'A', b'F') ∷ []; negated = false })
      ∷ [];
  to_end = true;
}

-- The leading white space that `strtol` skips.
skip_spaces : Text → Text
skip_spaces [] = []
skip_spaces (c ∷ cs) = let rest = skip_spaces cs in if is_space c then rest else c ∷ cs

negated_value : ℕ → ℤ
negated_value zero = pos 0
negated_value (suc n) = negsuc n

signed_digits : Text → ℤ
unfolding negated_value digits_value
signed_digits [] = pos 0
signed_digits (c ∷ cs) =
    if c == b'-'
    then negated_value (digits_value 0 cs)
    else if c == b'+'
    then pos (digits_value 0 cs)
    else pos (digits_value 0 (c ∷ cs))

-- `atol` of the C library.
unfoldable pub atol : Text → ℤ
unfolding skip_spaces signed_digits clamp64 is_space
atol s = clamp64 (signed_digits (skip_spaces s))

-- `atoi`: the `long` cut to an `int`.
unfoldable pub atoi : Text → ℤ
unfolding atol wrap32
atoi s = wrap32 (atol s)

-- The decimal text of a number, as `%ld` and the streams write it.
unfoldable pub show_decimal : ℤ → Text
unfolding show_digits
show_decimal (pos n) = show_digits 20 n
show_decimal (negsuc n) = b'-' ∷ show_digits 20 (suc n)

-- `OZT_Value(long)`
unfoldable pub of_long : ℤ → Value
unfolding show_decimal
of_long i = of_text (show_decimal i)

-- The digits filled up on the left to the width, or cut to the last ones.
unfoldable pub fit_width : ℕ → ℕ → Text → Text
fit_width fill len s =
    if ltb len (length s) then drop (length s - len) s else replicate (len - length s) fill ++ s

-- The sign fills the field.
fill_byte : ℤ → ℕ
fill_byte n = if ltb_ℤ n (pos 0) then b'f' else b'0'

module _ (t : Tools) where
  -- `OZT_Value::toLong`; only the code of the result is written.
  unfoldable pub to_long : Value → OztResult → ℤ × OztResult
  unfolding atol
  to_long v res =
      if not (found (t.index number_pattern v.chars 0))
      then (pos 0, record res { code = invalid_value })
      else (atol v.chars, record res { code = no_problem })

  -- `OZT_Value::toInt`
  unfoldable pub to_int : Value → OztResult → ℤ × OztResult
  unfolding atoi
  to_int v res =
      if not (found (t.index number_pattern v.chars 0))
      then (pos 0, record res { code = invalid_value })
      else (atoi v.chars, record res { code = no_problem })

  -- `OZT_Value::toBoolean`
  unfoldable pub to_boolean : Value → OztResult → Bool × OztResult
  unfolding to_long is_ok
  to_boolean v res =
      let (n, res') = to_long v res in
      if not (is_ok res'.code)
      then (false, res')
      else if eqb_ℤ n (pos 1)
      then (true, res')
      else if eqb_ℤ n (pos 0)
      then (false, res')
      else (false, of_code invalid_value)

  -- `OZT_Value::toHex(res)`; the stream writes the 64 bits of the `long`.
  unfoldable pub to_hex : Value → OztResult → Value × OztResult
  unfolding to_long is_ok show_hex_digits residue
  to_hex v res =
      let (n, res') = to_long v res in
      if not (is_ok res'.code) then (empty_value, res') else (
        of_text (t.to_upper (show_hex_digits 16 (residue 18446744073709551616 n))),
        of_code no_problem,
      )

  -- `OZT_Value::toHex(res, width)`
  unfoldable pub to_hex_width : Value → OztResult → Value → Value × OztResult
  unfolding to_long is_ok show_hex_digits residue fit_width fill_byte
  to_hex_width v res width =
      let (n, res1) = to_long v res in
      if not (is_ok res1.code)
      then (empty_value, res1)
      else let (len, res2) = to_long width res1 in
        if not (is_ok res2.code) || leb_ℤ len (pos 0) || ltb_ℤ (pos 8) len
        then (empty_value, of_code invalid_value)
        else (
          of_text (
              t.to_upper (
                fit_width (fill_byte n) (pos_part len)
                  (show_hex_digits 16 (residue 18446744073709551616 n)))),
          of_code no_problem,
        )

  -- `OZT_Value::isHex`
  unfoldable pub is_hex : Value → Bool
  is_hex v = not (ltb 8 (length v.chars) || not (found (t.index hex_pattern v.chars 0)))

  -- `OZT_Value::toDec`; eight digits fill an `unsigned int`, which is read as an `int32_t`.
  unfoldable pub to_dec : Value → OztResult → Value × OztResult
  unfolding hex_digits_value wrap32 of_long
  to_dec v res =
      if ltb 8 (length v.chars) || not (found (t.index hex_pattern v.chars 0))
      then (empty_value, of_code invalid_value)
      else (of_long (wrap32 (pos (hex_digits_value 0 v.chars))), of_code no_problem)
