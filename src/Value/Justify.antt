-- ===== src/Value/Justify.antt =====
-- Parts of a value, and values padded or cut to a length.
pub mod Laws
use operations_procedure_sup.Common.{
  ℕ, ◌+◌, ◌-◌, ◌/◌, Bool, true, false, not, ◌||◌, [], ◌++◌, if◌then◌else◌, ltb, leb, ◌==◌, ℤ, pos,
  negsuc, leb_ℤ, ltb_ℤ, pos_part, length, take, drop, replicate, Text,
}
use operations_procedure_sup.Tools.{Tools}
use operations_procedure_sup.ErrHandling.{OztResult, of_code, no_problem, invalid_value, is_ok}
use operations_procedure_sup.Value.Convert.{Value, of_text, empty_value, to_long}

-- The part of `y` bytes from position `x`, which counts from 0.
unfoldable pub copy_part : Text → ℕ → ℕ → Value × OztResult
copy_part s x y = if length s == 0 || leb (length s) x then (empty_value, of_code no_problem) else (
  of_text (take (if ltb (length s) (x + y) then length s - x else y) (drop x s)),
  of_code no_problem,
)

-- `text.length() >= l` compares as unsigned numbers: no length reaches a negative `l`.
unfoldable pub long_enough : ℕ → ℤ → Bool
long_enough n (pos l) = leb l n
long_enough n (negsuc _) = false

-- The spaces that are missing; none for a negative `l`.
unfoldable pub missing : ℕ → ℤ → ℕ
missing n l = pos_part l - n

module _ (t : Tools) where
  -- `OZT_Value::copy`
  unfoldable pub copy : Value → Value → Value → OztResult → Value × OztResult
  unfolding is_ok copy_part
  copy v start len res =
      let (x, res1) = to_long t start res in
      if not (is_ok res1.code) || leb_ℤ x (pos 0)
      then (empty_value, of_code invalid_value)
      else let (y, res2) = to_long t len res1 in
        if not (is_ok res2.code) || ltb_ℤ y (pos 0)
        then (empty_value, of_code invalid_value)
        else copy_part v.chars (pos_part x - 1) (pos_part y)

  -- `leftJustify`
  unfoldable pub left_justify : Value → Value → OztResult → Value × OztResult
  unfolding is_ok long_enough missing
  left_justify text len res =
      let (l, res1) = to_long t len (of_code no_problem) in
      if not (is_ok res1.code)
      then (empty_value, res1)
      else if long_enough (length text.chars) l
      then (record text { chars = take (pos_part l) text.chars }, res1)
      else (
        record text { chars = text.chars ++ replicate (missing (length text.chars) l) b' ' },
        res1,
      )

  -- `rightJustify`
  unfoldable pub right_justify : Value → Value → OztResult → Value × OztResult
  unfolding is_ok long_enough missing
  right_justify text len res =
      let (l, res1) = to_long t len (of_code no_problem) in
      if not (is_ok res1.code)
      then (empty_value, res1)
      else if long_enough (length text.chars) l
      then (record text { chars = take (pos_part l) text.chars }, res1)
      else (
        record text { chars = replicate (missing (length text.chars) l) b' ' ++ text.chars },
        res1,
      )

  -- `center`
  unfoldable pub center : Value → Value → OztResult → Value × OztResult
  unfolding is_ok long_enough missing
  center text len res =
      let (l, res1) = to_long t len (of_code no_problem) in
      if not (is_ok res1.code)
      then (empty_value, res1)
      else if long_enough (length text.chars) l
      then (record text { chars = take (pos_part l) text.chars }, res1)
      else let empty = missing (length text.chars) l in
        let empty_begin = empty / 2 in
        (
          record text {
            chars =
                replicate empty_begin b' ' ++ text.chars ++ replicate (empty - empty_begin) b' ';
          },
          res1,
        )
