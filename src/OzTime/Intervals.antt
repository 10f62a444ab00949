-- ===== src/OzTime/Intervals.antt =====
-- `OZT_Time::convertInterval`: one or two digits and a letter of either case.
use operations_procedure_sup.Common.{
  ℕ, ◌-◌, true, false, not, ◌&&◌, [], ◌∷◌, Option, none, some, Text, ◌==◌, leb, if◌then◌else◌,
  length, get_or, map, ℤ, pos, ◌+ℤ◌, ◌-ℤ◌, ◌*ℤ◌,
}
use operations_procedure_sup.Tools.{Tools, Pattern, CharClass, one, optional, found}
use operations_procedure_sup.Value.Words.{wrap32}

digit_class : CharClass
digit_class = record { ranges = (b'0', b'9') ∷ []; negated = false }

letter_class : CharClass
letter_class = record {
  ranges = map (λ c. (c, c)) (b'm' ∷ b'M' ∷ b'h' ∷ b'H' ∷ b'd' ∷ b'D' ∷ b'w' ∷ b'W' ∷ []);
  negated = false;
}

-- `^[0-9][0-9]?[mMhHdDwW]$`
unfoldable pub interval_pattern : Pattern
unfolding digit_class letter_class
interval_pattern = record {
  from_start = true;
  pieces = one digit_class ∷ optional digit_class ∷ one letter_class ∷ [];
  to_end = true;
}

-- `toupper`
unfoldable pub to_upper_byte : ℕ → ℕ
to_upper_byte c = if leb b'a' c && leb c b'z' then c - 32 else c

-- `exp[i] - '0'`
unfoldable pub digit_at : Text → ℕ → ℤ
digit_at exp i = pos (get_or exp i 0) -ℤ pos 48

module _ (t : Tools) where
  -- `convertInterval`: the number, and the letter in upper case.
  unfoldable pub convert_interval : Text → Option (ℤ × ℕ)
  unfolding digit_at to_upper_byte
  convert_interval exp =
      if not (found (t.index interval_pattern exp 0))
      then none
      else some (
        (if length exp == 3
            then wrap32 (digit_at exp 0 *ℤ pos 10 +ℤ digit_at exp 1)
            else digit_at exp 0),
        to_upper_byte (get_or exp (length exp - 1) 0),
      )
