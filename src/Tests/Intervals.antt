-- ===== src/Tests/Intervals.antt =====
-- The theorems on intervals at concrete ones.
use operations_procedure_sup.Common.{◌≡◌, arith, not, ◌&&◌, ◌||◌, pos, inl}
use operations_procedure_sup.Interval.{
  Interval, empty_interval, contains, concatenate, remove_interval,
}
use operations_procedure_sup.Interval.Difference.{left_over, contains-remove_interval}
use operations_procedure_sup.Interval.Union.{is_joined, contains-concatenate}

abbrev one_to_nine : Interval
one_to_nine = record { lb = pos 1; ub = pos 9 }

abbrev four_to_six : Interval
four_to_six = record { lb = pos 4; ub = pos 6 }

abbrev ten_to_twelve : Interval
ten_to_twelve = record { lb = pos 10; ub = pos 12 }

contains-remove_interval_example :
    left_over (remove_interval one_to_nine four_to_six empty_interval empty_interval) (pos 7)
    ≡ (contains one_to_nine (pos 7) && not (contains four_to_six (pos 7)))
contains-remove_interval_example =
    contains-remove_interval one_to_nine four_to_six empty_interval empty_interval (pos 7)
      (omega arith) (omega arith) (inl (omega arith))

contains-concatenate_example :
    ((concatenate one_to_nine ten_to_twelve).1 ≡ is_joined one_to_nine ten_to_twelve)
    × (contains (concatenate one_to_nine ten_to_twelve).0 (pos 11) ≡ (
        contains one_to_nine (pos 11)
        || (is_joined one_to_nine ten_to_twelve && contains ten_to_twelve (pos 11))))
contains-concatenate_example =
    contains-concatenate one_to_nine ten_to_twelve (pos 11) (omega arith) (omega arith)
