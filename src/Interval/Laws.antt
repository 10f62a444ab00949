-- ===== src/Interval/Laws.antt =====
-- Intervals as sets: what the tests of intervals come down to.
use operations_procedure_sup.Common.{
  ◌+◌, true, false, ◌&&◌, ◌≡◌, refl, ◌⊎◌, inl, inr, arith, Bool-cases, ℤ, pos, negsuc, pos_part,
  neg_part, ◌+ℤ◌, ◌-ℤ◌, ◌≤ℤ◌, ◌<ℤ◌, ltb_ℤ, leb_ℤ,
}
use operations_procedure_sup.Value.Words.{wrap32, wrap32_id, IsInt}
use operations_procedure_sup.Interval.{Interval, of_bounds, contains, is_intersecting}

-- Both bounds are values of an `int`.
abbrev pub HasInts : Interval → Type 0
HasInts iv = IsInt iv.lb × IsInt iv.ub

pub +ℤ_parts :
    (a b : ℤ)
    → pos_part (a +ℤ b) + neg_part a + neg_part b ≡ neg_part (a +ℤ b) + pos_part a + pos_part b
unfolding ◌+ℤ◌
+ℤ_parts a b = ground arith

-- Orders between integers, and the tests for them.
pub leb_true : (a b : ℤ) → a ≤ℤ b → leb_ℤ a b ≡ true
leb_true a b h = ground arith

pub leb_false : (a b : ℤ) → b <ℤ a → leb_ℤ a b ≡ false
leb_false a b h = ground arith

pub ltb_true : (a b : ℤ) → a <ℤ b → ltb_ℤ a b ≡ true
ltb_true a b h = ground arith

pub ltb_false : (a b : ℤ) → b ≤ℤ a → ltb_ℤ a b ≡ false
ltb_false a b h = ground arith

pub le_or_lt : (a b : ℤ) → (a ≤ℤ b) ⊎ (b <ℤ a)
le_or_lt a b = elim (Bool-cases (leb_ℤ a b)) [
  | inl h ↦ inl (ground arith)
  | inr h ↦ inr (ground arith)
]

-- What the tests of a pair of intervals that are not empty come down to.
pub is_intersecting_filled :
    (a b : Interval)
    → a.lb ≤ℤ a.ub
    → b.lb ≤ℤ b.ub
    → is_intersecting a b ≡ (leb_ℤ a.lb b.ub && leb_ℤ b.lb a.ub)
unfolding is_intersecting
is_intersecting_filled a b fa fb =
    rw (ltb_false a.ub a.lb fa, ltb_false b.ub b.lb fb)
      (elim (le_or_lt b.lb a.lb) [
        | inl h ↦ elim (le_or_lt a.ub b.ub) [
          | inl k ↦ rw (leb_true b.lb a.lb h, leb_true a.ub b.ub k) (ground arith)
          | inr k ↦ rw (leb_true b.lb a.lb h, leb_false a.ub b.ub k) (ground arith)
        ]
        | inr h ↦ rw (leb_false b.lb a.lb h) (ground arith)
      ])

pub -ℤ_parts :
    (a b : ℤ)
    → pos_part (a -ℤ b) + neg_part a + pos_part b ≡ neg_part (a -ℤ b) + pos_part a + neg_part b
unfolding ◌-ℤ◌
-ℤ_parts a b = ground arith

-- The numbers from `lower` to `upper`.
pub contains-of_bounds :
    (lower upper i : ℤ) → contains (of_bounds lower upper) i ≡ (leb_ℤ lower i && leb_ℤ i upper)
unfolding contains of_bounds
contains-of_bounds lower upper i = ground arith

pub contains_empty : (iv : Interval) (i : ℤ) → iv.ub <ℤ iv.lb → contains iv i ≡ false
unfolding contains
contains_empty iv i h = ground arith

pub contains_filled : (iv : Interval) (i : ℤ) → contains iv i ≡ (leb_ℤ iv.lb i && leb_ℤ i iv.ub)
unfolding contains
contains_filled iv i = ground arith

pub is_intersecting_empty :
    (a b : Interval) → (a.ub <ℤ a.lb) ⊎ (b.ub <ℤ b.lb) → is_intersecting a b ≡ false
unfolding is_intersecting
is_intersecting_empty a b (inl h) = rw (ltb_true a.ub a.lb h) refl
is_intersecting_empty a b (inr h) = rw (ltb_true b.ub b.lb h) (ground arith)

pub IsInt-between : (x y z : ℤ) → IsInt x → IsInt z → x ≤ℤ y → y ≤ℤ z → IsInt y
IsInt-between (pos x) (pos y) (pos z) hx hz p q = omega arith
IsInt-between (pos x) (pos y) (negsuc z) hx hz p q = omega arith
IsInt-between (negsuc x) (pos y) (pos z) hx hz p q = omega arith
IsInt-between (negsuc x) (pos y) (negsuc z) hx hz p q = omega arith
IsInt-between (pos x) (negsuc y) (pos z) hx hz p q = omega arith
IsInt-between (pos x) (negsuc y) (negsuc z) hx hz p q = omega arith
IsInt-between (negsuc x) (negsuc y) (pos z) hx hz p q = omega arith
IsInt-between (negsuc x) (negsuc y) (negsuc z) hx hz p q = omega arith

-- The number in front of a bound that is not the least `int`, and the one behind a bound.
pub before_bound :
    (x y i : ℤ) → IsInt x → IsInt y → y <ℤ x → leb_ℤ i (wrap32 (x -ℤ pos 1)) ≡ ltb_ℤ i x
before_bound x y i hx hy h =
    let parts = -ℤ_parts x (pos 1) in
    rw (wrap32_id (x -ℤ pos 1) (IsInt-between y (x -ℤ pos 1) x hy hx (omega arith) (omega arith)))
      (ground arith)

pub behind_bound :
    (x y i : ℤ) → IsInt x → IsInt y → x <ℤ y → leb_ℤ (wrap32 (x +ℤ pos 1)) i ≡ ltb_ℤ x i
behind_bound x y i hx hy h =
    let parts = +ℤ_parts x (pos 1) in
    rw (wrap32_id (x +ℤ pos 1) (IsInt-between x (x +ℤ pos 1) y hx hy (omega arith) (omega arith)))
      (ground arith)
