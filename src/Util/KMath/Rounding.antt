-- ===== src/Util/KMath/Rounding.antt =====
-- What the division helpers of src/util/kmath.c return.
use lios.Prelude.{
  ℕ, ◌+◌, ◌-◌, ◌*◌, ◌/◌, ◌%◌, ◌^◌, ◌≤◌, ◌<◌, ◌≡◌, ◌≢◌, arith, u32, sub_u32, ℕ_discrete,
}
use lios.Util.KMath.{absolute, round_u32_div, ceil_u64_div, floor_u64_div}
use native.Mathlib.Nat.{div-add-mod, mod-lt}

-- Quotient and remainder with the product written out.
pub div_facts :
    (a d : ℕ) → 0 < d → (a ≡ a / d * d + a % d) × (a % d < d) × (a / d * d ≤ a) × (a / d ≤ a)
div_facts a d h = grind (arith, div-add-mod, mod-lt)

pub ceil_u64_div-exact : (a d : ℕ) → 0 < d → a < 2 ^ 64 → a % d ≡ 0 → ceil_u64_div a d ≡ a / d
unfolding ceil_u64_div
ceil_u64_div-exact a d h w e = ground (arith, div_facts a d h)

pub ceil_u64_div-inexact : (a d : ℕ) → 0 < d → a < 2 ^ 64 → a % d ≢ 0 → ceil_u64_div a d ≡ a / d + 1
unfolding ceil_u64_div
ceil_u64_div-inexact a d h w e = ground (arith, div_facts a d h)

-- `ceil_u64_div` of a 64-bit dividend by a positive divisor is the least number of whole divisors
-- that covers the dividend.
pub ceil_u64_div_least :
    (a d : ℕ) → 0 < d → a < 2 ^ 64 → (a ≤ ceil_u64_div a d * d) × (ceil_u64_div a d * d < a + d)
ceil_u64_div_least a d h w = elim (ℕ_discrete (a % d) 0) [
  | yes e ↦ grind (arith, ceil_u64_div-exact a d h w e, div_facts a d h)
  | no e ↦ grind (arith, ceil_u64_div-inexact a d h w e, div_facts a d h)
]

div-eq-zero : (a d : ℕ) → a < d → a / d ≡ 0
div-eq-zero a d k = grind (arith, div_facts a d (omega arith))

-- `floor_u64_div` is the quotient when the division is exact; otherwise it is one below the
-- quotient, and wraps to 2 ^ 64 - 1 when the dividend is below the divisor.
pub floor_u64_div_cases :
    (a d : ℕ)
    → 0 < d
    → a < 2 ^ 64
    → (a % d ≡ 0 → floor_u64_div a d ≡ a / d)
      × (a % d ≢ 0 → d ≤ a → floor_u64_div a d ≡ a / d - 1)
      × (a % d ≢ 0 → a < d → floor_u64_div a d ≡ 2 ^ 64 - 1)
unfolding floor_u64_div
floor_u64_div_cases a d h w = (
  λ e. ground (arith, div_facts a d h),
  λ e k. ground (arith, div_facts a d h),
  λ e k. ground (arith, div_facts a d h, div-eq-zero a d k),
)

absolute_below :
    (a p r : ℕ) → a ≡ p + r → r < 2 ^ 31 + 1 → a < 2 ^ 32 → absolute (sub_u32 (u32 p) a) ≡ r
unfolding absolute
absolute_below a p r e h w = ground arith

absolute_above :
    (a p r : ℕ) → p ≡ a + r → r ≤ 2 ^ 31 → a < 2 ^ 32 → absolute (sub_u32 (u32 p) a) ≡ r
unfolding absolute
absolute_above a p r e h w = ground arith

quotient_small : (a d : ℕ) → 2 ≤ d → a < 2 ^ 32 → a / d + 1 < 2 ^ 32
quotient_small a d h w = grind (arith, div_facts a d (omega arith))

-- For a divisor from 2 to 2 ^ 31, `round_u32_div` is the quotient rounded to the nearest, and a
-- half is rounded up.
pub round_u32_div_nearest :
    (a d : ℕ)
    → 2 ≤ d
    → d ≤ 2 ^ 31
    → a < 2 ^ 32
    → (a % d + a % d < d → round_u32_div a d ≡ a / d)
      × (d ≤ a % d + a % d → round_u32_div a d ≡ a / d + 1)
unfolding round_u32_div
round_u32_div_nearest a d h k w =
    (λ r. ground (arith, low, high, whole, facts), λ r. ground (arith, low, high, whole, facts))
  where
    facts : (a ≡ a / d * d + a % d) × (a % d < d) × (a / d * d ≤ a) × (a / d ≤ a)
    facts = div_facts a d (omega arith)

    whole : u32 (a / d + 1) ≡ a / d + 1
    whole = omega (arith, quotient_small a d h w)

    low : absolute (sub_u32 (u32 (a / d * d)) a) ≡ a % d
    low = absolute_below a (a / d * d) (a % d) (omega (arith, facts)) (omega (arith, facts)) w

    high : absolute (sub_u32 (u32 (u32 (a / d + 1) * d)) a) ≡ d - a % d
    high = rw whole (
        absolute_above a ((a / d + 1) * d) (d - a % d) (omega (arith, facts)) (omega (arith, facts))
          w)
