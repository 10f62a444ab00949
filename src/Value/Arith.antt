-- ===== src/Value/Arith.antt =====
-- Arithmetic on values. Sums and differences are taken in `int`, products and quotients in `long`.
pub mod Laws
use operations_procedure_sup.Common.{
  ℕ, zero, suc, ◌+◌, ◌*◌, ◌/◌, Bool, true, false, not, if◌then◌else◌, ℤ, pos, negsuc, pos_part,
  neg_part, sub_ℕ, eqb_ℤ, ◌+ℤ◌, ◌-ℤ◌, ◌*ℤ◌, ◌++◌, Text,
}
use operations_procedure_sup.Tools.{Tools}
use operations_procedure_sup.ErrHandling.{OztResult, of_code, no_problem, division_by_zero, is_ok}
use operations_procedure_sup.Value.Words.{wrap32, wrap64}
use operations_procedure_sup.Value.Convert.{Value, of_text, empty_value, of_long, to_long, to_int}

-- `/` of C: the quotient of the magnitudes, with the sign of the product.
unfoldable pub quotient : ℤ → ℤ → ℤ
quotient (pos a) (pos b) = pos (a / b)
quotient (pos a) (negsuc b) = sub_ℕ 0 (a / suc b)
quotient (negsuc a) (pos b) = sub_ℕ 0 (suc a / b)
quotient (negsuc a) (negsuc b) = pos (suc a / suc b)

-- `operator+(const OZT_Value&, const OZT_Value&)`
unfoldable pub concat : Value → Value → Value
concat a b = record {
  chars = a.chars ++ b.chars;
  unvisible_chars = a.unvisible_chars + b.unvisible_chars;
}

-- `operator+(const char*, const OZT_Value&)`
unfoldable pub concat_left : Text → Value → Value
concat_left a b = record { chars = a ++ b.chars; unvisible_chars = b.unvisible_chars }

-- `operator+(const OZT_Value&, const char*)`
unfoldable pub concat_right : Value → Text → Value
concat_right a b = record { chars = a.chars ++ b; unvisible_chars = a.unvisible_chars }

module _ (t : Tools) where
  -- `unaryPlus`
  unfoldable pub unary_plus : Value → OztResult → Value × OztResult
  unfolding is_ok
  unary_plus a res =
      let (v, res1) = to_long t a res in
      if not (is_ok res1.code) then (empty_value, res1) else (a, record res1 { code = no_problem })

  -- `unaryMinus`
  unfoldable pub unary_minus : Value → OztResult → Value × OztResult
  unfolding is_ok of_long wrap64 ◌-ℤ◌
  unary_minus a res =
      let (v, res1) = to_long t a res in
      if not (is_ok res1.code)
      then (empty_value, res1)
      else (of_long (wrap64 (pos 0 -ℤ v)), of_code no_problem)

  -- `add`
  unfoldable pub add : Value → Value → OztResult → Value × OztResult
  unfolding is_ok of_long wrap32 ◌+ℤ◌
  add a b res =
      let (v1, res1) = to_int t a res in
      if not (is_ok res1.code)
      then (empty_value, res1)
      else let (v2, res2) = to_int t b res1 in
        if not (is_ok res2.code)
        then (empty_value, res2)
        else (of_long (wrap32 (v1 +ℤ v2)), of_code no_problem)

  -- `sub`
  unfoldable pub sub : Value → Value → OztResult → Value × OztResult
  unfolding is_ok of_long wrap32 ◌-ℤ◌
  sub a b res =
      let (v1, res1) = to_int t a res in
      if not (is_ok res1.code)
      then (empty_value, res1)
      else let (v2, res2) = to_int t b res1 in
        if not (is_ok res2.code)
        then (empty_value, res2)
        else (of_long (wrap32 (v1 -ℤ v2)), of_code no_problem)

  -- `mul`
  unfoldable pub mul : Value → Value → OztResult → Value × OztResult
  unfolding is_ok of_long wrap64 ◌*ℤ◌
  mul a b res =
      let (v1, res1) = to_long t a res in
      if not (is_ok res1.code)
      then (empty_value, res1)
      else let (v2, res2) = to_long t b res1 in
        if not (is_ok res2.code)
        then (empty_value, res2)
        else (of_long (wrap64 (v1 *ℤ v2)), of_code no_problem)

  -- `div`
  unfoldable pub div : Value → Value → OztResult → Value × OztResult
  unfolding is_ok of_long wrap64 quotient
  div a b res =
      let (v1, res1) = to_long t a res in
      if not (is_ok res1.code)
      then (empty_value, res1)
      else let (v2, res2) = to_long t b res1 in
        if not (is_ok res2.code)
        then (empty_value, res2)
        else if eqb_ℤ v2 (pos 0)
        then (empty_value, record res2 { code = division_by_zero })
        else (of_long (wrap64 (quotient v1 v2)), of_code no_problem)
