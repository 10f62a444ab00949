-- ===== src/Value/Compare.antt =====
-- The comparisons of values: as numbers if both are numerals, and as texts otherwise.
pub mod Laws
use Prim.Native.Nat.{Ordering}
use operations_procedure_sup.Common.{Bool, true, false, not, if◌then◌else◌, ltb_ℤ, leb_ℤ}
use operations_procedure_sup.Tools.{Tools}
use operations_procedure_sup.ErrHandling.{fresh, is_ok}
use operations_procedure_sup.Value.Convert.{Value, to_long}

is_gt : Ordering → Bool
is_gt Ordering.gt = true
is_gt _ = false

is_lt : Ordering → Bool
is_lt Ordering.lt = true
is_lt _ = false

module _ (t : Tools) where
  -- `operator>`
  unfoldable pub gt_value : Value → Value → Bool
  unfolding is_ok is_gt
  gt_value a b =
      let (v1, res1) = to_long t a fresh in
      if not (is_ok res1.code)
      then is_gt (t.collate a.chars b.chars)
      else let (v2, res2) = to_long t b res1 in
        if not (is_ok res2.code) then is_gt (t.collate a.chars b.chars) else ltb_ℤ v2 v1

  -- `operator>=`
  unfoldable pub ge_value : Value → Value → Bool
  unfolding is_ok is_lt
  ge_value a b =
      let (v1, res1) = to_long t a fresh in
      if not (is_ok res1.code)
      then not (is_lt (t.collate a.chars b.chars))
      else let (v2, res2) = to_long t b res1 in
        if not (is_ok res2.code) then not (is_lt (t.collate a.chars b.chars)) else leb_ℤ v2 v1

  -- `operator<=`
  unfoldable pub le_value : Value → Value → Bool
  unfolding is_ok is_gt
  le_value a b =
      let (v1, res1) = to_long t a fresh in
      if not (is_ok res1.code)
      then not (is_gt (t.collate a.chars b.chars))
      else let (v2, res2) = to_long t b res1 in
        if not (is_ok res2.code) then not (is_gt (t.collate a.chars b.chars)) else leb_ℤ v1 v2

  -- `operator<`
  unfoldable pub lt_value : Value → Value → Bool
  unfolding is_ok is_lt
  lt_value a b =
      let (v1, res1) = to_long t a fresh in
      if not (is_ok res1.code)
      then is_lt (t.collate a.chars b.chars)
      else let (v2, res2) = to_long t b res1 in
        if not (is_ok res2.code) then is_lt (t.collate a.chars b.chars) else ltb_ℤ v1 v2
