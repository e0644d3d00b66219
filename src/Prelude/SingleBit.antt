-- ===== src/Prelude/SingleBit.antt =====
-- One bit of a word, after another bit has been set or cleared; and the width of `&` and `|`.
use Prim.Native.Nat.{ℕ, zero, suc, ◌-◌, ◌/◌, ◌%◌, ◌^◌, ◌≤◌, ◌<◌, bit_and, bit_or}
use mathlib.Core.Path.{◌≡◌, refl, ap, ◌∙◌}
use native.Mathlib.Nat.{
  pow-suc, pow-zero, one-le-pow, pow-le-pow_right, mod-eq_of_lt, div-div-eq-div-mul,
}
use native.Mathlib.Omega.{arith}
use lios.Prelude.Tests.{◌==◌, if◌then◌else◌}
use lios.Prelude.Bits.{
  bit_and-digit, bit_or-digit, bit_or-zero, zero-bit_or, zero-bit_and, bit_and_mask,
}

pub bit_or-lt : (k a b : ℕ) → a < 2 ^ k → b < 2 ^ k → bit_or a b < 2 ^ k
bit_or-lt zero a b h l = ground (arith, pow-zero 2, zero-bit_or 0)
bit_or-lt (suc k) a b h l = omega (
  arith,
  pow-suc 2 k,
  bit_or-digit a b,
  bit_or-lt k (a / 2) (b / 2) (omega (arith, pow-suc 2 k)) (omega (arith, pow-suc 2 k)),
)

pub bit_and-lt : (k a b : ℕ) → a < 2 ^ k → bit_and a b < 2 ^ k
bit_and-lt zero a b h = ground (arith, pow-zero 2, zero-bit_and b)
bit_and-lt (suc k) a b h = omega (
  arith,
  pow-suc 2 k,
  bit_and-digit a b,
  bit_and-lt k (a / 2) (b / 2) (omega (arith, pow-suc 2 k)),
)

-- Bit `k` of a word.
unfoldable pub bit : (k n : ℕ) → ℕ
bit zero n = n % 2
bit (suc k) n = bit k (n / 2)

pub bit-div : (k n : ℕ) → bit k n ≡ n / 2 ^ k % 2
unfolding bit
bit-div zero n = omega arith
bit-div (suc k) n = bit-div k (n / 2) ∙ ap (λ t. t % 2) (halved k)
  where
    halved : (k : ℕ) → n / 2 / 2 ^ k ≡ n / 2 ^ suc k
    halved k = div-div-eq-div-mul n 2 (2 ^ k) ∙ ap (λ t. n / t) (grind (arith, pow-suc 2 k))

pub bit-set : (j k n : ℕ) → bit j (bit_or n (2 ^ k)) ≡ (if j == k then 1 else bit j n)
unfolding bit
bit-set zero zero n = ground (arith, bit_or-digit n 1)
bit-set zero (suc k) n = ground (arith, bit_or-digit n (2 ^ suc k), pow-suc 2 k)
bit-set (suc j) zero n =
    let half : bit_or n 1 / 2 ≡ n / 2 = omega (arith, bit_or-digit n 1, bit_or-zero (n / 2)) in
    rw half (ground arith)
bit-set (suc j) (suc k) n =
    let even : 2 ^ suc k / 2 ≡ 2 ^ k = omega (arith, pow-suc 2 k) in
    let half : bit_or n (2 ^ suc k) / 2 ≡ bit_or (n / 2) (2 ^ k) =
      omega (arith, bit_or-digit n (2 ^ suc k), ap (λ t. bit_or (n / 2) t) even, pow-suc 2 k) in
    rw half (bit-set j k (n / 2) ∙ ground arith)

-- All bits below `m` but bit `k`, that is `~(1 << k)` in m bits.
pub bit-clear :
    (j k m n : ℕ)
    → k < m
    → n < 2 ^ m
    → bit j (bit_and n (2 ^ m - 1 - 2 ^ k)) ≡ (if j == k then 0 else bit j n)
unfolding bit
bit-clear j k zero n a b = elim a [ ]
bit-clear zero zero (suc m) n a b =
    ground (arith, bit_and-digit n (2 ^ suc m - 1 - 1), pow-suc 2 m, one-le-pow m 2)
bit-clear zero (suc k) (suc m) n a b =
    let below : 2 ^ suc k ≤ 2 ^ m =
      pow-le-pow_right {n = 2} (omega arith) {i = suc k} {j = m} (omega arith) in
    ground (arith, bit_and-digit n (2 ^ suc m - 1 - 2 ^ suc k), pow-suc 2 m, pow-suc 2 k)
bit-clear (suc j) zero (suc m) n a b =
    let mask : (2 ^ suc m - 1 - 1) / 2 ≡ 2 ^ m - 1 = omega (arith, pow-suc 2 m, one-le-pow m 2) in
    let small : n / 2 < 2 ^ m = omega (arith, pow-suc 2 m) in
    let half : bit_and n (2 ^ suc m - 1 - 1) / 2 ≡ n / 2 = omega (
      arith,
      bit_and-digit n (2 ^ suc m - 1 - 1),
      ap (λ t. bit_and (n / 2) t) mask,
      bit_and_mask m (n / 2),
      mod-eq_of_lt small,
    ) in
    rw half (ground arith)
bit-clear (suc j) (suc k) (suc m) n a b =
    let mask : (2 ^ suc m - 1 - 2 ^ suc k) / 2 ≡ 2 ^ m - 1 - 2 ^ k =
      omega (arith, pow-suc 2 m, pow-suc 2 k, one-le-pow m 2) in
    let half : bit_and n (2 ^ suc m - 1 - 2 ^ suc k) / 2 ≡ bit_and (n / 2) (2 ^ m - 1 - 2 ^ k) =
      omega
        (arith, bit_and-digit n (2 ^ suc m - 1 - 2 ^ suc k), ap (λ t. bit_and (n / 2) t) mask) in
    rw half (bit-clear j k m (n / 2) (omega arith) (omega (arith, pow-suc 2 m)) ∙ ground arith)

pub bit-zero : (k : ℕ) → bit k 0 ≡ 0
unfolding bit
bit-zero zero = refl
bit-zero (suc k) = bit-zero k

pub bit-ones : (k m : ℕ) → k < m → bit k (2 ^ m - 1) ≡ 1
unfolding bit
bit-ones k zero h = elim h [ ]
bit-ones zero (suc m) h = omega (arith, pow-suc 2 m, one-le-pow m 2)
bit-ones (suc k) (suc m) h =
    let half : (2 ^ suc m - 1) / 2 ≡ 2 ^ m - 1 = omega (arith, pow-suc 2 m, one-le-pow m 2) in
    rw half (bit-ones k m (omega arith))
