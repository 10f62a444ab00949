-- ===== src/Value/Digits.antt =====
-- Numerals: the digit loops of `strtol` and of the decimal and hexadecimal output.
pub mod RoundTrip
use operations_procedure_sup.Common.{
  ℕ, zero, suc, ◌+◌, ◌-◌, ◌*◌, ◌/◌, ◌%◌, ◌≤◌, ◌<◌, Bool, true, false, ◌&&◌, ◌||◌, List, [], ◌∷◌,
  ◌++◌, ◌≡◌, Text, ltb, leb, ◌==◌, if◌then◌else◌, is_digit,
}

-- `[0-9]*$`
unfoldable pub all_digits : Text → Bool
all_digits [] = true
all_digits (c ∷ cs) = is_digit c && all_digits cs

-- `[0-9]+$`
unfoldable pub some_digits : Text → Bool
unfolding all_digits
some_digits [] = false
some_digits (c ∷ cs) = is_digit c && all_digits cs

-- What `^[+-]?[0-9]+$` accepts.
unfoldable pub is_numeral : Text → Bool
unfolding some_digits
is_numeral [] = false
is_numeral (c ∷ cs) = if c == b'+' || c == b'-' then some_digits cs else some_digits (c ∷ cs)

-- The digit loop of `strtol`: it stops at the first byte that is no digit.
unfoldable pub digits_value : ℕ → Text → ℕ
unfolding is_digit
digits_value acc [] = acc
digits_value acc (c ∷ cs) =
    let rest = digits_value (acc * 10 + (c - 48)) cs in if is_digit c then rest else acc

-- The decimal digits of a number below 10 ^ fuel.
unfoldable pub show_digits : ℕ → ℕ → Text
show_digits zero n = []
show_digits (suc f) n =
    let front = show_digits f (n / 10) in
    if ltb n 10 then (48 + n) ∷ [] else front ++ (48 + n % 10) ∷ []

-- One hexadecimal digit, in lower case as the streams write it.
unfoldable pub hex_digit : ℕ → ℕ
hex_digit d = if ltb d 10 then 48 + d else 87 + d

-- The hexadecimal digits of a number below 16 ^ fuel.
unfoldable pub show_hex_digits : ℕ → ℕ → Text
unfolding hex_digit
show_hex_digits zero n = []
show_hex_digits (suc f) n =
    let front = show_hex_digits f (n / 16) in
    if ltb n 16 then hex_digit n ∷ [] else front ++ hex_digit (n % 16) ∷ []

-- The value of a hexadecimal digit of either case.
unfoldable pub hex_value : ℕ → ℕ
hex_value c = if leb c b'9' then c - 48 else if leb c b'F' then c - 55 else c - 87

-- The digit loop of `sscanf("%x")` over digits that were checked before.
unfoldable pub hex_digits_value : ℕ → Text → ℕ
unfolding hex_value
hex_digits_value acc [] = acc
hex_digits_value acc (c ∷ cs) = hex_digits_value (acc * 16 + hex_value c) cs
