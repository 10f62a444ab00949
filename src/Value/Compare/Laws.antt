-- ===== src/Value/Compare/Laws.antt =====
-- The four comparisons fit together.
use operations_procedure_sup.Common.{
  Bool, true, false, not, ◌≡◌, refl, arith, inl, inr, Bool-cases, ℤ, ltb_ℤ, leb_ℤ,
}
use operations_procedure_sup.Tools.{Tools, found}
use operations_procedure_sup.ErrHandling.{fresh, of_code, is_ok, no_problem}
use operations_procedure_sup.Value.Words.{IsLong}
use operations_procedure_sup.Value.Convert.{Value, of_long, to_long, number_pattern, atol}
use operations_procedure_sup.Value.Convert.Laws.{ReadsNumerals, to_long-of_long}
use operations_procedure_sup.Value.Compare.{gt_value, ge_value, le_value, lt_value, is_gt, is_lt}

lt-not-le : (x y : ℤ) → ltb_ℤ y x ≡ not (leb_ℤ x y)
lt-not-le x y = ground arith

not-not : (b : Bool) → b ≡ not (not b)
not-not true = refl
not-not false = refl

module _ (t : Tools) where
  -- For any two values, numerals or not, `>` is the opposite of `<=` and `<` the opposite of `>=`.
  pub comparisons_opposite :
      (a b : Value)
      → (gt_value t a b ≡ not (le_value t a b)) × (lt_value t a b ≡ not (ge_value t a b))
  unfolding gt_value le_value lt_value ge_value to_long is_ok
  comparisons_opposite a b = elim (Bool-cases (found (t.index number_pattern a.chars 0))) [
    | inr text ↦
        rw text
          (not-not (is_gt (t.collate a.chars b.chars)), not-not (is_lt (t.collate a.chars b.chars)))
    | inl number ↦ elim (Bool-cases (found (t.index number_pattern b.chars 0))) [
      | inr text ↦
          rw (number, text)
            (
              not-not (is_gt (t.collate a.chars b.chars)),
              not-not (is_lt (t.collate a.chars b.chars)),
            )
      | inl number' ↦
          rw (number, number')
            (lt-not-le (atol a.chars) (atol b.chars), lt-not-le (atol b.chars) (atol a.chars))
    ]
  ]

  -- Numbers are compared as numbers.
  pub gt_value-of_long :
      ReadsNumerals t
      → (a b : ℤ) → IsLong a
      → IsLong b
      → gt_value t (of_long a) (of_long b) ≡ ltb_ℤ b a
  unfolding gt_value is_ok
  gt_value-of_long reads a b ha hb =
      rw (to_long-of_long t reads a fresh ha)
        (rw (to_long-of_long t reads b (of_code no_problem) hb))
