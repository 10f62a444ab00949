-- ===== src/Interval/Difference.antt =====
-- `removeInterval` as a difference of sets.
use operations_procedure_sup.Common.{
  Bool, true, false, not, ◌&&◌, ◌||◌, ◌≡◌, refl, ◌∙◌, ◌⊎◌, inl, inr, arith, ℤ, pos, negsuc, ◌+ℤ◌,
  ◌-ℤ◌, ◌≤ℤ◌, ◌<ℤ◌, leb_ℤ,
}
use operations_procedure_sup.Value.Words.{wrap32, IsInt}
use operations_procedure_sup.Interval.{
  Interval, empty_interval, contains, is_subset_to, is_intersecting, remove_interval,
}
use operations_procedure_sup.Interval.Laws.{
  HasInts, leb_true, leb_false, ltb_true, ltb_false, le_or_lt, is_intersecting_filled,
  contains-of_bounds, contains_empty, contains_filled, is_intersecting_empty, before_bound,
  behind_bound,
}

is_subset_to_filled :
    (a b : Interval)
    → a.lb ≤ℤ a.ub
    → b.lb ≤ℤ b.ub
    → is_subset_to a b ≡ (leb_ℤ b.lb a.lb && leb_ℤ a.ub b.ub)
unfolding is_subset_to
is_subset_to_filled a b fa fb = rw (ltb_false a.ub a.lb fa, ltb_false b.ub b.lb fb) refl

-- What `removeInterval` leaves of op1: res1, and res2 if the result is true.
abbrev pub left_over : Interval × Interval × Bool → ℤ → Bool
left_over (res1, res2, two) i = contains res1 i || (two && contains res2 i)

abbrev pub Differs : Interval → Interval → Type 0
Differs a b = (a.lb <ℤ b.lb) ⊎ (b.lb <ℤ a.lb) ⊎ (a.ub ≤ℤ b.ub)

starts_before : (a b : Interval) → Differs a b → b.lb ≤ℤ a.lb → b.ub <ℤ a.ub → b.lb <ℤ a.lb
starts_before a b (inl h) p q = absurd (omega arith)
starts_before a b (inr (inl h)) p q = h
starts_before a b (inr (inr h)) p q = absurd (omega arith)

difference_filled :
    (a b r1 r2 : Interval) (i : ℤ)
    → HasInts a
    → HasInts b
    → Differs a b
    → a.lb ≤ℤ a.ub
    → b.lb ≤ℤ b.ub
    → a.lb ≤ℤ b.ub
    → b.lb ≤ℤ a.ub
    → left_over (remove_interval a b r1 r2) i ≡ (contains a i && not (contains b i))
unfolding remove_interval
difference_filled a b r1 r2 i ha hb differs fa fb p q =
    rw
      (
        is_intersecting_filled a b fa fb,
        leb_true a.lb b.ub p,
        leb_true b.lb a.ub q,
        is_subset_to_filled a b fa fb,
        contains_filled a i,
        contains_filled b i,
      )
      (elim (le_or_lt b.lb a.lb) [
        | inl h ↦ elim (le_or_lt a.ub b.ub) [
          | inl k ↦
              rw (leb_true b.lb a.lb h, leb_true a.ub b.ub k)
                (rw (contains_empty empty_interval i (omega arith)) (ground arith))
          | inr k ↦
              rw
                (
                  leb_true b.lb a.lb h,
                  leb_false a.ub b.ub k,
                  ltb_false a.lb b.lb h,
                  ltb_true b.lb a.lb (starts_before a b differs h k),
                  contains-of_bounds (wrap32 (b.ub +ℤ pos 1)) a.ub i,
                  behind_bound b.ub a.ub i hb.1 ha.1 k,
                )
                (ground arith)
        ]
        | inr h ↦ elim (le_or_lt a.ub b.ub) [
          | inl k ↦
              rw
                (
                  leb_false b.lb a.lb h,
                  ltb_true a.lb b.lb h,
                  ltb_false b.ub a.ub k,
                  ltb_false b.lb a.lb (omega arith),
                  contains-of_bounds a.lb (wrap32 (b.lb -ℤ pos 1)) i,
                  before_bound b.lb a.lb i hb.0 ha.0 h,
                )
                (ground arith)
          | inr k ↦
              rw
                (
                  leb_false b.lb a.lb h,
                  ltb_true a.lb b.lb h,
                  ltb_true b.ub a.ub k,
                  contains-of_bounds a.lb (wrap32 (b.lb -ℤ pos 1)) i,
                  before_bound b.lb a.lb i hb.0 ha.0 h,
                  contains-of_bounds (wrap32 (b.ub +ℤ pos 1)) a.ub i,
                  behind_bound b.ub a.ub i hb.1 ha.1 k,
                )
                (ground arith)
        ]
      ])

apart :
    (a b r1 r2 : Interval) (i : ℤ)
    → is_intersecting a b ≡ false
    → left_over (remove_interval a b r1 r2) i ≡ contains a i
unfolding remove_interval
apart a b r1 r2 i h = rw h (ground arith)

-- `removeInterval` is the difference of sets: of `int` bounds, where op1 and op2 start at different
-- numbers or op1 ends no later than op2, a number is in what the call leaves exactly when op1 contains
-- it and op2 does not.
pub contains-remove_interval :
    (a b r1 r2 : Interval) (i : ℤ)
    → HasInts a
    → HasInts b
    → Differs a b
    → left_over (remove_interval a b r1 r2) i ≡ (contains a i && not (contains b i))
contains-remove_interval a b r1 r2 i ha hb differs = elim (le_or_lt a.lb a.ub) [
  | inr ea ↦ rw (apart a b r1 r2 i (is_intersecting_empty a b (inl ea)), contains_empty a i ea) refl
  | inl fa ↦ elim (le_or_lt b.lb b.ub) [
    | inr eb ↦
        rw (apart a b r1 r2 i (is_intersecting_empty a b (inr eb)), contains_empty b i eb)
          (ground arith)
    | inl fb ↦ elim (le_or_lt a.lb b.ub) [
      | inr p ↦
          rw
            (
              apart a b r1 r2 i
                  (is_intersecting_filled a b fa fb ∙ rw (leb_false a.lb b.ub p) refl),
              contains_filled a i,
              contains_filled b i,
            )
            (ground arith)
      | inl p ↦ elim (le_or_lt b.lb a.ub) [
        | inr q ↦
            rw
              (
                apart a b r1 r2 i
                    (is_intersecting_filled a b fa fb ∙ rw (leb_false b.lb a.ub q) (ground arith)),
                contains_filled a i,
                contains_filled b i,
              )
              (ground arith)
        | inl q ↦ difference_filled a b r1 r2 i ha hb differs fa fb p q
      ]
    ]
  ]
]

-- When op1 and op2 are not empty and start at the same number, not the least `int`, and op1 ends later than op2,
-- `removeInterval` leaves nothing, though op1 contains its last number and op2 does not.
pub remove_interval_same_start :
    (lower m n : ℤ) (r1 r2 : Interval) (i : ℤ)
    → IsInt lower
    → IsInt n
    → negsuc 2147483647 <ℤ lower
    → lower ≤ℤ m
    → m <ℤ n
    → let a : Interval = record { lb = lower; ub = n } in
      let b : Interval = record { lb = lower; ub = m } in
      (left_over (remove_interval a b r1 r2) i ≡ false)
      × (contains a n ≡ true)
      × (contains b n ≡ false)
unfolding remove_interval
remove_interval_same_start lower m n r1 r2 i hl hn above p q =
    let a : Interval = record { lb = lower; ub = n } in
    let b : Interval = record { lb = lower; ub = m } in
    let same : lower ≤ℤ lower = omega arith in
    let longer : lower ≤ℤ n = omega arith in
    (
      rw
          (
            is_intersecting_filled a b longer p,
            leb_true lower m p,
            leb_true lower n longer,
            is_subset_to_filled a b longer p,
            leb_true lower lower same,
            leb_false n m q,
            ltb_false lower lower same,
            contains-of_bounds lower (wrap32 (lower -ℤ pos 1)) i,
            before_bound lower (negsuc 2147483647) i hl (omega arith) above,
          )
          (ground arith),
      rw (contains_filled a n, leb_true lower n longer) (ground arith),
      rw (contains_filled b n, leb_false n m q) (ground arith),
    )
