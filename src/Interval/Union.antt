-- ===== src/Interval/Union.antt =====
-- `concatenate` as a union of sets.
use operations_procedure_sup.Common.{
  ◌+◌, ◌≤◌, Bool, true, false, ◌&&◌, ◌||◌, ◌≡◌, refl, sym, ap, ◌∙◌, ◌⊎◌, inl, inr, arith,
  Bool-cases, if◌then◌else◌, ℤ, pos, negsuc, pos_part, neg_part, ◌+ℤ◌, ◌-ℤ◌, ◌≤ℤ◌, ◌<ℤ◌, ltb_ℤ,
  leb_ℤ, eqb_ℤ,
}
use operations_procedure_sup.Value.Words.{wrap32, wrap32_id, IsInt}
use operations_procedure_sup.Interval.{
  Interval, contains, is_adjacent_to, is_intersecting, concatenate,
}
use operations_procedure_sup.Interval.Laws.{
  HasInts, +ℤ_parts, leb_true, leb_false, ltb_true, ltb_false, le_or_lt, is_intersecting_filled,
  -ℤ_parts, contains_empty, contains_filled, IsInt-between,
}

same_int : (a b : ℤ) → eqb_ℤ a b ≡ true → (a ≤ℤ b) × (b ≤ℤ a)
same_int (pos a) (pos b) h = (ground arith, ground arith)
same_int (pos a) (negsuc b) h = cc
same_int (negsuc a) (pos b) h = cc
same_int (negsuc a) (negsuc b) h = (ground arith, ground arith)

-- Neither bound is the least or the greatest `int`.
abbrev pub IsInner : Interval → Type 0
IsInner iv = (negsuc 2147483647 <ℤ iv.lb) × (iv.ub <ℤ pos 2147483647)

-- What makes the union of two filled intervals an interval: neither starts behind the number that
-- follows the other.
abbrev Touch : Interval → Interval → Type 0
Touch a b =
    (pos_part b.lb + neg_part a.ub ≤ pos_part a.ub + neg_part b.lb + 1)
    × (pos_part a.lb + neg_part b.ub ≤ pos_part b.ub + neg_part a.lb + 1)

follows :
    (x y : ℤ)
    → IsInt y
    → negsuc 2147483647 <ℤ y
    → eqb_ℤ x (wrap32 (y -ℤ pos 1)) ≡ true
    → pos_part y + neg_part x ≡ pos_part x + neg_part y + 1
follows x y hy inner h =
    let parts = -ℤ_parts y (pos 1) in
    let e = wrap32_id (y -ℤ pos 1) (
      IsInt-between (negsuc 2147483647) (y -ℤ pos 1) y (omega arith) hy (omega arith)
        (omega arith)) in
    let (p, q) = same_int x (y -ℤ pos 1) (ap (eqb_ℤ x) (sym e) ∙ h) in omega arith

precedes :
    (x y : ℤ)
    → IsInt y
    → y <ℤ pos 2147483647
    → eqb_ℤ x (wrap32 (y +ℤ pos 1)) ≡ true
    → pos_part x + neg_part y ≡ pos_part y + neg_part x + 1
precedes x y hy inner h =
    let parts = +ℤ_parts y (pos 1) in
    let e = wrap32_id (y +ℤ pos 1) (
      IsInt-between y (y +ℤ pos 1) (pos 2147483647) hy (omega arith) (omega arith) (omega arith)) in
    let (p, q) = same_int x (y +ℤ pos 1) (ap (eqb_ℤ x) (sym e) ∙ h) in omega arith

or_cases : (x y : Bool) → (x || y) ≡ true → (x ≡ true) ⊎ (y ≡ true)
or_cases true y h = inl refl
or_cases false y h = inr h

is_adjacent_to_filled :
    (a b : Interval)
    → a.lb ≤ℤ a.ub
    → b.lb ≤ℤ b.ub
    → is_adjacent_to a b
      ≡ (eqb_ℤ a.ub (wrap32 (b.lb -ℤ pos 1)) || eqb_ℤ a.lb (wrap32 (b.ub +ℤ pos 1)))
unfolding is_adjacent_to
is_adjacent_to_filled a b fa fb = rw (ltb_false a.ub a.lb fa, ltb_false b.ub b.lb fb) refl

touches :
    (a b : Interval)
    → a.lb ≤ℤ a.ub
    → b.lb ≤ℤ b.ub
    → HasInts b
    → IsInner b
    → (is_adjacent_to a b || is_intersecting a b) ≡ true
    → Touch a b
touches a b fa fb hb inner h = elim (or_cases (is_adjacent_to a b) (is_intersecting a b) h) [
  | inr meet ↦
      let both : (leb_ℤ a.lb b.ub && leb_ℤ b.lb a.ub) ≡ true =
        sym (is_intersecting_filled a b fa fb) ∙ meet in
      ground arith
  | inl next ↦
      let one : (eqb_ℤ a.ub (wrap32 (b.lb -ℤ pos 1)) || eqb_ℤ a.lb (wrap32 (b.ub +ℤ pos 1)))
          ≡ true =
        sym (is_adjacent_to_filled a b fa fb) ∙ next in
      elim (or_cases _ _ one) [
        | inl left ↦ let e = follows a.ub b.lb hb.0 inner.0 left in (omega arith, omega arith)
        | inr right ↦ let e = precedes a.lb b.ub hb.1 inner.1 right in (omega arith, omega arith)
      ]
]

union_filled :
    (a b : Interval) (i : ℤ)
    → a.lb ≤ℤ a.ub
    → b.lb ≤ℤ b.ub
    → Touch a b
    → contains
        (record {
          lb = if ltb_ℤ b.lb a.lb then b.lb else a.lb;
          ub = if ltb_ℤ a.ub b.ub then b.ub else a.ub;
        })
        i
      ≡ (contains a i || contains b i)
union_filled a b i fa fb touch =
    rw (contains_filled a i, contains_filled b i)
      (contains_filled _ i ∙ elim (le_or_lt a.lb b.lb) [
        | inl h ↦ elim (le_or_lt b.ub a.ub) [
          | inl k ↦ rw (ltb_false b.lb a.lb h, ltb_false a.ub b.ub k) (ground arith)
          | inr k ↦ rw (ltb_false b.lb a.lb h, ltb_true a.ub b.ub k) (ground arith)
        ]
        | inr h ↦ elim (le_or_lt b.ub a.ub) [
          | inl k ↦ rw (ltb_true b.lb a.lb h, ltb_false a.ub b.ub k) (ground arith)
          | inr k ↦ rw (ltb_true b.lb a.lb h, ltb_true a.ub b.ub k) (ground arith)
        ]
      ])

-- Whether the union is an interval: one of them is empty, or neither starts behind the number that
-- follows the other.
unfoldable pub is_joined : Interval → Interval → Bool
is_joined a b =
    ltb_ℤ a.ub a.lb
    || (ltb_ℤ b.ub b.lb || (leb_ℤ b.lb (a.ub +ℤ pos 1) && leb_ℤ a.lb (b.ub +ℤ pos 1)))

differs : (x y : ℤ) → eqb_ℤ x y ≡ false → (x <ℤ y) ⊎ (y <ℤ x)
differs (pos a) (pos b) h = ground arith
differs (pos a) (negsuc b) h = inr (omega arith)
differs (negsuc a) (pos b) h = inl (omega arith)
differs (negsuc a) (negsuc b) h = ground arith

or_false : (x y : Bool) → (x || y) ≡ false → (x ≡ false) × (y ≡ false)
or_false true y h = cc
or_false false y h = (refl, h)

before_id : (y : ℤ) → IsInt y → negsuc 2147483647 <ℤ y → wrap32 (y -ℤ pos 1) ≡ y -ℤ pos 1
before_id y hy inner =
    let parts = -ℤ_parts y (pos 1) in
    wrap32_id (y -ℤ pos 1) (
      IsInt-between (negsuc 2147483647) (y -ℤ pos 1) y (omega arith) hy (omega arith) (omega arith))

behind_id : (y : ℤ) → IsInt y → y <ℤ pos 2147483647 → wrap32 (y +ℤ pos 1) ≡ y +ℤ pos 1
behind_id y hy inner =
    let parts = +ℤ_parts y (pos 1) in
    wrap32_id (y +ℤ pos 1)
      (IsInt-between y (y +ℤ pos 1) (pos 2147483647) hy (omega arith) (omega arith) (omega arith))

not_joined :
    (a b : Interval)
    → (a.ub <ℤ (b.lb -ℤ pos 1)) ⊎ ((b.lb -ℤ pos 1) <ℤ a.ub)
    → (a.lb <ℤ (b.ub +ℤ pos 1)) ⊎ ((b.ub +ℤ pos 1) <ℤ a.lb)
    → (leb_ℤ a.lb b.ub && leb_ℤ b.lb a.ub) ≡ false
    → (leb_ℤ b.lb (a.ub +ℤ pos 1) && leb_ℤ a.lb (b.ub +ℤ pos 1)) ≡ false
not_joined a b l r h =
    let p = -ℤ_parts b.lb (pos 1) in
    let q = +ℤ_parts b.ub (pos 1) in
    let p1 = +ℤ_parts a.ub (pos 1) in
    elim l [
      | inl l1 ↦ rw (leb_false b.lb (a.ub +ℤ pos 1) (omega arith)) refl
      | inr l2 ↦ elim r [
        | inr r2 ↦ rw (leb_false a.lb (b.ub +ℤ pos 1) (omega arith)) (ground arith)
        | inl r1 ↦ ground (arith, h, l2, r1, p, q)
      ]
    ]

apart_filled :
    (a b : Interval)
    → a.lb ≤ℤ a.ub
    → b.lb ≤ℤ b.ub
    → HasInts b
    → IsInner b
    → (is_adjacent_to a b || is_intersecting a b) ≡ false
    → (leb_ℤ b.lb (a.ub +ℤ pos 1) && leb_ℤ a.lb (b.ub +ℤ pos 1)) ≡ false
apart_filled a b fa fb hb inner h =
    let (far, no_meet) = or_false (is_adjacent_to a b) (is_intersecting a b) h in
    let (left, right) =
      or_false (eqb_ℤ a.ub (wrap32 (b.lb -ℤ pos 1))) (eqb_ℤ a.lb (wrap32 (b.ub +ℤ pos 1)))
        (sym (is_adjacent_to_filled a b fa fb) ∙ far) in
    let none_shared : (leb_ℤ a.lb b.ub && leb_ℤ b.lb a.ub) ≡ false =
      sym (is_intersecting_filled a b fa fb) ∙ no_meet in
    let l =
      differs a.ub (b.lb -ℤ pos 1) (ap (eqb_ℤ a.ub) (sym (before_id b.lb hb.0 inner.0)) ∙ left) in
    let r =
      differs a.lb (b.ub +ℤ pos 1) (ap (eqb_ℤ a.lb) (sym (behind_id b.ub hb.1 inner.1)) ∙ right) in
    not_joined a b l r none_shared

close_enough :
    (a b : Interval) → Touch a b → (leb_ℤ b.lb (a.ub +ℤ pos 1) && leb_ℤ a.lb (b.ub +ℤ pos 1)) ≡ true
close_enough a b h =
    let p = +ℤ_parts a.ub (pos 1) in
    let q = +ℤ_parts b.ub (pos 1) in
    rw (leb_true b.lb (a.ub +ℤ pos 1) (omega arith), leb_true a.lb (b.ub +ℤ pos 1) (omega arith))
      refl

-- The numbers of the result, by its own flag.
contains-concatenated :
    (a b : Interval) (i : ℤ)
    → HasInts b
    → IsInner b
    → contains (concatenate a b).0 i ≡ (contains a i || ((concatenate a b).1 && contains b i))
unfolding concatenate
contains-concatenated a b i hb inner =
    elim (Bool-cases (is_adjacent_to a b || is_intersecting a b)) [
      | inr apart ↦ rw apart (ground arith)
      | inl together ↦ rw together (elim (le_or_lt a.lb a.ub) [
        | inr ea ↦ rw (ltb_true a.ub a.lb ea, contains_empty a i ea) refl
        | inl fa ↦ elim (le_or_lt b.lb b.ub) [
          | inr eb ↦
              rw (ltb_false a.ub a.lb fa, ltb_true b.ub b.lb eb, contains_empty b i eb)
                (ground arith)
          | inl fb ↦
              rw (ltb_false a.ub a.lb fa, ltb_false b.ub b.lb fb)
                (union_filled a b i fa fb (touches a b fa fb hb inner together))
        ]
      ])
    ]

concatenated : (a b : Interval) → HasInts b → IsInner b → (concatenate a b).1 ≡ is_joined a b
unfolding concatenate is_joined
concatenated a b hb inner = elim (le_or_lt a.lb a.ub) [
  | inr ea ↦ rw (ltb_true a.ub a.lb ea) refl
  | inl fa ↦ elim (le_or_lt b.lb b.ub) [
    | inr eb ↦ rw (ltb_true b.ub b.lb eb) (ground arith)
    | inl fb ↦ elim (Bool-cases (is_adjacent_to a b || is_intersecting a b)) [
      | inl h ↦ rw h (
          rw
            (
              ltb_false a.ub a.lb fa,
              ltb_false b.ub b.lb fb,
              close_enough a b (touches a b fa fb hb inner h),
            )
            refl)
      | inr h ↦ rw h (
          rw (ltb_false a.ub a.lb fa, ltb_false b.ub b.lb fb, apart_filled a b fa fb hb inner h)
            refl)
    ]
  ]
]

-- `concatenate` with an interval of `int` bounds none of which is the least or the greatest `int`
-- succeeds exactly if one of the intervals is empty or neither starts behind the number that follows
-- the other, and the interval then contains the numbers that either contained; else it contains what
-- it did.
pub contains-concatenate :
    (a b : Interval) (i : ℤ)
    → HasInts b
    → IsInner b
    → ((concatenate a b).1 ≡ is_joined a b)
      × (contains (concatenate a b).0 i ≡ (contains a i || (is_joined a b && contains b i)))
unfolding concatenate
contains-concatenate a b i hb inner =
    let flag = concatenated a b hb inner in
    (
      flag,
      contains-concatenated a b i hb inner ∙ ap (λ c. contains a i || (c && contains b i)) flag,
    )
