-- ===== src/Value/Words.antt =====
-- Machine integers: `long` has 64 bits and `int` 32; a result out of range wraps around.
use operations_procedure_sup.Common.{
  ℕ, ◌+◌, ◌-◌, ◌%◌, ◌<◌, ◌≡◌, arith, ltb, if◌then◌else◌, ℤ, pos, negsuc, inl, inr, Bool-cases,
}

-- The residue of an integer modulo a power of two.
unfoldable pub residue : ℕ → ℤ → ℕ
residue m (pos n) = n % m
residue m (negsuc n) = m - 1 - n % m

-- The signed reading of a residue modulo 2 * half.
unfoldable pub signed : ℕ → ℕ → ℤ
signed half u = if ltb u half then pos u else negsuc (half + half - 1 - u)

unfoldable pub wrap32 : ℤ → ℤ
unfolding residue signed
wrap32 z = signed 2147483648 (residue 4294967296 z)

unfoldable pub wrap64 : ℤ → ℤ
unfolding residue signed
wrap64 z = signed 9223372036854775808 (residue 18446744073709551616 z)

-- The range test of `strtol`, which answers the nearest `long`.
unfoldable pub clamp64 : ℤ → ℤ
clamp64 (pos n) = if ltb n 9223372036854775808 then pos n else pos 9223372036854775807
clamp64 (negsuc n) = if ltb n 9223372036854775808 then negsuc n else negsuc 9223372036854775807

-- The values of an `int` and of a `long`.
abbrev pub IsInt : ℤ → Type 0
IsInt (pos n) = n < 2147483648
IsInt (negsuc n) = n < 2147483648

abbrev pub IsLong : ℤ → Type 0
IsLong (pos n) = n < 9223372036854775808
IsLong (negsuc n) = n < 9223372036854775808

pub wrap32_id : (z : ℤ) → IsInt z → wrap32 z ≡ z
unfolding wrap32
wrap32_id (pos n) h = ground arith
wrap32_id (negsuc n) h = ground arith

pub wrap64_id : (z : ℤ) → IsLong z → wrap64 z ≡ z
unfolding wrap64
wrap64_id (pos n) h = ground arith
wrap64_id (negsuc n) h = ground arith

pub clamp64_id : (z : ℤ) → IsLong z → clamp64 z ≡ z
unfolding clamp64
clamp64_id (pos n) h = ground arith
clamp64_id (negsuc n) h = ground arith

pub clamp64-IsLong : (z : ℤ) → IsLong (clamp64 z)
unfolding clamp64
clamp64-IsLong (pos n) = elim (Bool-cases (ltb n 9223372036854775808)) [
  | inl h ↦ rw h (ground arith)
  | inr h ↦ rw h (omega arith)
]
clamp64-IsLong (negsuc n) = elim (Bool-cases (ltb n 9223372036854775808)) [
  | inl h ↦ rw h (ground arith)
  | inr h ↦ rw h (omega arith)
]

residue-lt : (m : ℕ) (z : ℤ) → 0 < m → residue m z < m
unfolding residue
residue-lt m (pos n) h = omega arith
residue-lt m (negsuc n) h = omega arith

pub wrap32-IsInt : (z : ℤ) → IsInt (wrap32 z)
unfolding wrap32
wrap32-IsInt z =
    let r = residue-lt 4294967296 z (omega arith) in
    elim (Bool-cases (ltb (residue 4294967296 z) 2147483648)) [
      | inl h ↦ rw h (ground arith)
      | inr h ↦ rw h (ground arith)
    ]
