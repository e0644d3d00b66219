-- ===== src/Util/KMath.antt =====
-- The division helpers of src/util/kmath.c. Words are natural numbers below 2 ^ 32 or 2 ^ 64; an
-- `i32` is its bit pattern. Division by zero is undefined in C and excluded by hypotheses.
pub mod Rounding
use lios.Prelude.{
  ℕ, ◌+◌, ◌-◌, ◌*◌, ◌/◌, ◌^◌, Bool, ◌&&◌, ltb, ◌==◌, if◌then◌else◌, u32, u64, sub_u32, sub_u64,
}

-- `num > 0 ? num : -num`
pub absolute : ℕ → ℕ
absolute num = if ltb 0 num && ltb num (2 ^ 31) then num else sub_u32 0 num

pub round_u32_div : ℕ → ℕ → ℕ
round_u32_div dividend divisor =
    let low = dividend / divisor in
    let high = u32 (low + 1) in
    let low_error = absolute (sub_u32 (u32 (low * divisor)) dividend) in
    let high_error = absolute (sub_u32 (u32 (high * divisor)) dividend) in
    if ltb low_error high_error then low else high

unfoldable pub ceil_u64_div : ℕ → ℕ → ℕ
ceil_u64_div dividend divisor =
    let floor = dividend / divisor in
    if u64 (floor * divisor) == dividend then floor else u64 (floor + 1)

unfoldable pub floor_u64_div : ℕ → ℕ → ℕ
floor_u64_div dividend divisor =
    let floor = dividend / divisor in
    if u64 (floor * divisor) == dividend then floor else sub_u64 floor 1

unfoldable pub ceil_u32_div : ℕ → ℕ → ℕ
ceil_u32_div dividend divisor =
    let floor = dividend / divisor in
    if u32 (floor * divisor) == dividend then floor else u32 (floor + 1)

unfoldable pub floor_u32_div : ℕ → ℕ → ℕ
floor_u32_div dividend divisor =
    let floor = dividend / divisor in
    if u32 (floor * divisor) == dividend then floor else sub_u32 floor 1

unfoldable pub u64_min : ℕ → ℕ → ℕ
u64_min a b = if ltb a b then a else b

unfoldable pub u64_max : ℕ → ℕ → ℕ
u64_max a b = if ltb b a then a else b
