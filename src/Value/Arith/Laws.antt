-- ===== src/Value/Arith/Laws.antt =====
-- What the arithmetic computes, and how it fails.
use operations_procedure_sup.Common.{◌≡◌, ℤ, pos, ◌+ℤ◌, ◌-ℤ◌, eqb_ℤ, if◌then◌else◌}
use operations_procedure_sup.Tools.{Tools}
use operations_procedure_sup.ErrHandling.{OztResult, of_code, no_problem, division_by_zero, is_ok}
use operations_procedure_sup.Value.Words.{IsInt, IsLong, wrap32, wrap64}
use operations_procedure_sup.Value.Convert.{empty_value, of_long}
use operations_procedure_sup.Value.Convert.Laws.{ReadsNumerals, to_long-of_long, to_int-of_long}
use operations_procedure_sup.Value.Arith.{add, sub, div, quotient}

module _ (t : Tools) (reads : ReadsNumerals t) where
  -- The sum of two `int` values, wrapped around at 32 bits.
  pub add-of_long :
      (a b : ℤ) (res : OztResult)
      → IsInt a
      → IsInt b
      → add t (of_long a) (of_long b) res ≡ (of_long (wrap32 (a +ℤ b)), of_code no_problem)
  unfolding add is_ok
  add-of_long a b res ha hb = rw (to_int-of_long t reads a res ha, to_int-of_long t reads b _ hb)

  pub sub-of_long :
      (a b : ℤ) (res : OztResult)
      → IsInt a
      → IsInt b
      → sub t (of_long a) (of_long b) res ≡ (of_long (wrap32 (a -ℤ b)), of_code no_problem)
  unfolding sub is_ok
  sub-of_long a b res ha hb = rw (to_int-of_long t reads a res ha, to_int-of_long t reads b _ hb)

  -- A quotient of `long` values: DIVISION_BY_ZERO and no value for the divisor 0, and otherwise the
  -- quotient wrapped around at 64 bits.
  div-of_long :
      (a b : ℤ) (res : OztResult)
      → IsLong a
      → IsLong b
      → div t (of_long a) (of_long b) res ≡ (
          if eqb_ℤ b (pos 0)
          then (empty_value, record res { code = division_by_zero })
          else (of_long (wrap64 (quotient a b)), of_code no_problem))
  unfolding div is_ok
  div-of_long a b res ha hb = rw (to_long-of_long t reads a res ha, to_long-of_long t reads b _ hb)
