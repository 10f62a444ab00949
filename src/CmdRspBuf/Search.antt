-- ===== src/CmdRspBuf/Search.antt =====
-- `OZT_CmdRspBuf::scan`: the first line that holds a key, counted from the mark.
pub mod Laws
use operations_procedure_sup.Common.{
  ℕ, zero, suc, ◌+◌, ◌-◌, ◌%◌, Bool, not, ◌&&◌, List, [], ◌∷◌, Option, none, some, Text, text_eq,
  codes, starts_with, ltb, ◌==◌, if◌then◌else◌, drop, ℤ, pos, ltb_ℤ,
}

-- `size_t`
abbrev pub word_size : ℕ
word_size = 18446744073709551616

-- The text in front of the first zero byte, which is what a `const char*` holds.
unfoldable pub c_str : Text → Text
c_str [] = []
c_str (c ∷ cs) = if c == 0 then [] else c ∷ c_str cs

-- `std::string::find`
unfoldable pub find_text : Text → Text → Option ℕ
find_text key [] = if starts_with key [] then some 0 else none
find_text key (c ∷ cs) =
    if starts_with key (c ∷ cs)
    then some 0
    else elim (find_text key cs) [ none ↦ none | some n ↦ some (suc n) ]

-- The loop: the line and the position of the first match; the lines start at number `i`.
unfoldable pub first_match : Text → ℕ → List Text → Option (ℕ × ℕ)
first_match key i [] = none
first_match key i (l ∷ ls) = elim (find_text key l) [
  | none ↦ first_match key (suc i) ls
  | some p ↦ some (i, p)
]

-- `i - mark + 1`
unfoldable pub from_mark : ℕ → ℕ → ℕ
from_mark mark i = (i + word_size - mark + 1) % word_size

-- The result of `scan` and its `pos`, for a key that is not NOT ACCEPTED.
unfoldable pub scan_plain : Text → ℕ → ℕ → List Text → ℕ × ℕ
unfolding from_mark c_str
scan_plain key mark start lines = elim (first_match (c_str key) start (drop start lines)) [
  | none ↦ (0, 0)
  | some (i, p) ↦ (from_mark mark i, p + 1)
]

abbrev pub not_accepted : Text
not_accepted = codes "NOT ACCEPTED"

abbrev pub function_busy : Text
function_busy = codes "FUNCTION BUSY"

-- `scan(key, startLine, pos)`; the `FUNCTION BUSY` behind a `NOT ACCEPTED` is the recursive call.
unfoldable pub scan_lines : ℤ → Text → ℕ → ℕ → List Text → ℕ × ℕ
unfolding from_mark c_str text_eq
scan_lines retry key mark start lines = elim (first_match (c_str key) start (drop start lines)) [
  | none ↦ (0, 0)
  | some (i, p) ↦
      if text_eq key not_accepted && not ((scan_plain function_busy mark i lines).0 == 0)
      then (if ltb_ℤ (pos 0) retry then 0 else word_size - 1, 0)
      else (from_mark mark i, p + 1)
]
