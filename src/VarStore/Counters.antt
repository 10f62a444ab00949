-- ===== src/VarStore/Counters.antt =====
-- `inc` and `dec` on variables that hold an `int`.
use operations_procedure_sup.Common.{
  ◌≡◌, refl, ap, ◌∙◌, arith, some, Text, text_eq_refl, ℤ, pos, negsuc, ◌+ℤ◌, ◌-ℤ◌,
}
use operations_procedure_sup.Tools.{Tools}
use operations_procedure_sup.ErrHandling.{fresh, of_code, no_problem, is_ok}
use operations_procedure_sup.Value.Words.{IsInt, wrap32, residue, signed, wrap32-IsInt}
use operations_procedure_sup.Value.Convert.{Value, of_long}
use operations_procedure_sup.Value.Convert.Laws.{ReadsNumerals}
use operations_procedure_sup.Value.Arith.Laws.{add-of_long, sub-of_long}
use operations_procedure_sup.VarStore.{VarStore, put, get, store_result, inc, dec}
use operations_procedure_sup.VarStore.Laws.{get-put}

one_less : (k : ℤ) → IsInt k → wrap32 (wrap32 (k +ℤ pos 1) -ℤ pos 1) ≡ k
unfolding wrap32 residue signed ◌+ℤ◌ ◌-ℤ◌
one_less (pos n) h = ground arith
one_less (negsuc n) h = ground arith

module _ (t : Tools) (reads : ReadsNumerals t) where
  inc-of_long :
      (name : Text) (k : ℤ) (vs : VarStore)
      → get t (t.to_upper name) vs ≡ some (of_long k)
      → IsInt k
      → inc t name vs
        ≡ (of_code no_problem, put t (t.to_upper name) (of_long (wrap32 (k +ℤ pos 1))) vs)
  unfolding inc store_result is_ok
  inc-of_long name k vs g h = rw (g, add-of_long t reads k (pos 1) fresh h (omega arith), inc) refl

  dec-of_long :
      (name : Text) (k : ℤ) (vs : VarStore)
      → get t (t.to_upper name) vs ≡ some (of_long k)
      → IsInt k
      → dec t name vs
        ≡ (of_code no_problem, put t (t.to_upper name) (of_long (wrap32 (k -ℤ pos 1))) vs)
  unfolding dec store_result is_ok
  dec-of_long name k vs g h = rw (g, sub-of_long t reads k (pos 1) fresh h (omega arith), dec) refl

  get-put_same : (name : Text) (v : Value) (vs : VarStore) → get t name (put t name v vs) ≡ some v
  get-put_same name v vs = get-put t name name v vs ∙ rw (text_eq_refl (t.to_upper name)) refl

  -- `inc` and then `dec` of a variable that holds an `int` succeed and give its value back, at the
  -- bounds of `int` too, where both wrap around.
  pub get-dec-inc :
      (name : Text) (k : ℤ) (vs : VarStore)
      → get t (t.to_upper name) vs ≡ some (of_long k)
      → IsInt k
      → ((inc t name vs).0 ≡ of_code no_problem)
        × ((dec t name (inc t name vs).1).0 ≡ of_code no_problem)
        × (get t (t.to_upper name) (dec t name (inc t name vs).1).1 ≡ some (of_long k))
  get-dec-inc name k vs g h =
      let temp = t.to_upper name in
      let k1 = wrap32 (k +ℤ pos 1) in
      let vs1 = put t temp (of_long k1) vs in
      rw
        (
          inc-of_long name k vs g h,
          dec-of_long name k1 vs1 (get-put_same temp (of_long k1) vs) (wrap32-IsInt (k +ℤ pos 1)),
        )
        (
          refl,
          refl,
          get-put_same temp (of_long (wrap32 (k1 -ℤ pos 1))) vs1
              ∙ ap (λ z. some (of_long z)) (one_less k h),
        )
