-- ===== src/Interval.antt =====
-- ops-parser-lib/src/main/cpp/common/CHA_Interval.C: closed intervals of `int`. The empty interval is
-- 1-0. The constructor from a text reads the text by `istrstream` and is not modelled.
pub mod Laws
pub mod Difference
pub mod Union
use operations_procedure_sup.Common.{
  Bool, true, false, not, ◌&&◌, ◌||◌, if◌then◌else◌, ℤ, pos, ◌+ℤ◌, ◌-ℤ◌, ltb_ℤ, leb_ℤ, eqb_ℤ,
}
use operations_procedure_sup.Value.Words.{wrap32}

-- `CHA_Interval`
pub record Interval : Type 0 where
  pub lb : ℤ
  pub ub : ℤ

-- `CHA_Interval()`
abbrev pub empty_interval : Interval
empty_interval = record { lb = pos 1; ub = pos 0 }

-- `CHA_Interval(lower, upper)`
unfoldable pub of_bounds : ℤ → ℤ → Interval
of_bounds lower upper =
    if ltb_ℤ upper lower then empty_interval else record { lb = lower; ub = upper }

-- `length`
unfoldable pub interval_length : Interval → ℤ
interval_length iv = wrap32 (wrap32 (iv.ub -ℤ iv.lb) +ℤ pos 1)

-- `isEmpty`
unfoldable pub is_empty : Interval → Bool
is_empty iv = ltb_ℤ iv.ub iv.lb

-- `contains`
unfoldable pub contains : Interval → ℤ → Bool
unfolding is_empty
contains iv i = not (is_empty iv) && (leb_ℤ iv.lb i && leb_ℤ i iv.ub)

-- `isSubsetTo`
unfoldable pub is_subset_to : Interval → Interval → Bool
unfolding is_empty
is_subset_to this iv =
    is_empty this || (not (is_empty iv) && (leb_ℤ iv.lb this.lb && leb_ℤ this.ub iv.ub))

-- `isSupersetTo`
unfoldable pub is_superset_to : Interval → Interval → Bool
unfolding is_empty
is_superset_to this iv =
    is_empty iv || (not (is_empty this) && (leb_ℤ this.lb iv.lb && leb_ℤ iv.ub this.ub))

-- `isAdjacentTo`
unfoldable pub is_adjacent_to : Interval → Interval → Bool
unfolding is_empty
is_adjacent_to this iv =
    is_empty this
    || (is_empty iv
        || (eqb_ℤ this.ub (wrap32 (iv.lb -ℤ pos 1)) || eqb_ℤ this.lb (wrap32 (iv.ub +ℤ pos 1))))

-- `isIntersecting`
unfoldable pub is_intersecting : Interval → Interval → Bool
unfolding is_empty is_subset_to is_superset_to
is_intersecting this iv =
    not (is_empty this)
    && (not (is_empty iv)
        && (is_subset_to this iv
            || (is_superset_to this iv
                || ((ltb_ℤ this.lb iv.lb && (leb_ℤ iv.lb this.ub && ltb_ℤ this.ub iv.ub))
                    || (ltb_ℤ iv.ub this.ub && (leb_ℤ this.lb iv.ub && ltb_ℤ iv.lb this.lb))))))

-- `concatenate`: the interval behind the call, and the result.
unfoldable pub concatenate : Interval → Interval → Interval × Bool
unfolding is_empty is_adjacent_to is_intersecting
concatenate this iv =
    if is_adjacent_to this iv || is_intersecting this iv
    then (
      if is_empty this
          then record { lb = iv.lb; ub = iv.ub }
          else if not (is_empty iv)
          then record {
            lb = if ltb_ℤ iv.lb this.lb then iv.lb else this.lb;
            ub = if ltb_ℤ this.ub iv.ub then iv.ub else this.ub;
          }
          else this,
      true,
    )
    else (this, false)

-- `operator ==`
unfoldable pub same_interval : Interval → Interval → Bool
same_interval iv1 iv2 = eqb_ℤ iv1.lb iv2.lb && eqb_ℤ iv1.ub iv2.ub

-- `operator !=`
unfoldable pub other_interval : Interval → Interval → Bool
unfolding same_interval
other_interval iv1 iv2 = not (same_interval iv1 iv2)

-- `removeInterval`: `res1` and `res2` behind the call, and the result.
unfoldable pub remove_interval :
    Interval → Interval → Interval → Interval → Interval × Interval × Bool
unfolding is_intersecting is_subset_to of_bounds
remove_interval op1 op2 res1 res2 =
    if not (is_intersecting op1 op2)
    then (op1, res2, false)
    else if is_subset_to op1 op2
    then (empty_interval, res2, false)
    else if ltb_ℤ op1.lb op2.lb && ltb_ℤ op2.ub op1.ub
    then (
      of_bounds op1.lb (wrap32 (op2.lb -ℤ pos 1)),
      of_bounds (wrap32 (op2.ub +ℤ pos 1)) op1.ub,
      true,
    )
    else if ltb_ℤ op2.lb op1.lb
    then (of_bounds (wrap32 (op2.ub +ℤ pos 1)) op1.ub, res2, false)
    else (of_bounds op1.lb (wrap32 (op2.lb -ℤ pos 1)), res2, false)
