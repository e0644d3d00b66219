-- ===== src/Prelude/Bits.antt =====
-- Laws of `bit_and` and `bit_or` at every width: the recursion on the lowest digit, and the
-- division of a word into a high and a low field, on which both work separately.
use Prim.Native.Nat.{
  ℕ, zero, suc, ◌+◌, ◌-◌, ◌*◌, ◌/◌, ◌%◌, ◌^◌, ◌≤◌, ◌<◌, min, max, bit_and, bit_or, digits, bitwise,
  bit_and-bitwise, bit_or-bitwise,
}
use mathlib.Core.Path.{◌≡◌, refl, sym, ap, ◌∙◌}
use mathlib.Core.Logic.{inl, inr, ◌⊎◌}
use mathlib.Core.WellFounded
use native.Mathlib.Nat.{pow-suc, one-le-pow}
use native.Mathlib.Omega.{arith}
use lios.Prelude.Order.{lt_wf}

-- Fuel above the first number does not matter.
module _ (rest : ℕ → ℕ) (digit : ℕ → ℕ → ℕ) where
  one_more : (n x y : ℕ) → x ≤ n → digits rest digit (suc n) x y ≡ digits rest digit n x y
  one_more zero zero y h = refl
  one_more zero (suc x) y h = elim h [ ]
  one_more (suc n) zero y h = refl
  one_more (suc n) (suc x) y h = rw (one_more n (suc x / 2) (y / 2) (omega arith))

  split_le : (x n : ℕ) → x ≤ suc n → (x ≤ n) ⊎ (x ≡ suc n)
  split_le x n h = ground arith

  settled : (n x y : ℕ) → x ≤ n → digits rest digit n x y ≡ bitwise rest digit x y
  settled zero zero y h = refl
  settled zero (suc x) y h = elim h [ ]
  settled (suc n) x y h = elim (split_le x n h) [
    | inl below ↦ one_more n x y below ∙ settled n x y below
    | inr last ↦ rw last
  ]

  bitwise-digit :
      (x y : ℕ)
      → bitwise rest digit (suc x) y
        ≡ digit (suc x % 2) (y % 2) + 2 * bitwise rest digit (suc x / 2) (y / 2)
  bitwise-digit x y = omega (arith, settled x (suc x / 2) (y / 2) (omega arith))

pub bit_or-digit : (x y : ℕ) → bit_or x y ≡ max (x % 2) (y % 2) + 2 * bit_or (x / 2) (y / 2)
bit_or-digit zero y = simp bit_or-bitwise (omega arith)
bit_or-digit (suc x) y = simp bit_or-bitwise (bitwise-digit (λ t. t) max x y)

pub bit_and-digit : (x y : ℕ) → bit_and x y ≡ min (x % 2) (y % 2) + 2 * bit_and (x / 2) (y / 2)
bit_and-digit zero y = simp bit_and-bitwise (omega arith)
bit_and-digit (suc x) y = simp bit_and-bitwise (bitwise-digit (λ t. 0) min x y)

pub zero-bit_and : (y : ℕ) → bit_and 0 y ≡ 0
zero-bit_and y = bit_and-bitwise 0 y

pub zero-bit_or : (y : ℕ) → bit_or 0 y ≡ y
zero-bit_or y = bit_or-bitwise 0 y

-- A law for all numbers that follows from the law for the halves.
by_halves : (P : ℕ → Type 0) → P 0 → ((n : ℕ) → P (suc n / 2) → P (suc n)) → (x : ℕ) → P x
by_halves P base half x = WellFounded.induction lt_wf x go
  where
    go : (n : ℕ) → ((m : ℕ) → m < n → P m) → P n
    go zero ih = base
    go (suc n) ih = half n (ih (suc n / 2) (omega arith))

pub bit_or-zero : (x : ℕ) → bit_or x 0 ≡ x
bit_or-zero = by_halves (λ n. bit_or n 0 ≡ n) refl (λ n h. omega (arith, bit_or-digit (suc n) 0, h))

pub bit_and-zero : (x : ℕ) → bit_and x 0 ≡ 0
bit_and-zero =
    by_halves (λ n. bit_and n 0 ≡ 0) refl (λ n h. omega (arith, bit_and-digit (suc n) 0, h))

double_field : (hi k : ℕ) → hi * 2 ^ suc k ≡ 2 * (hi * 2 ^ k)
double_field hi k = omega (arith, ap (λ (t : ℕ). hi * t) (pow-suc 2 k))

field-parity : (k hi lo : ℕ) → (hi * 2 ^ suc k + lo) % 2 ≡ lo % 2
field-parity k hi lo = omega (arith, double_field hi k)

field-half : (k hi lo : ℕ) → (hi * 2 ^ suc k + lo) / 2 ≡ hi * 2 ^ k + lo / 2
field-half k hi lo = omega (arith, double_field hi k)

-- An operation on digits works on the two fields of a word separately.
module _ (op digit : ℕ → ℕ → ℕ) (zeros : op 0 0 ≡ 0)
    (by_digit : (x y : ℕ) → op x y ≡ digit (x % 2) (y % 2) + 2 * op (x / 2) (y / 2)) where
  on_fields :
      (k hi lo hi' lo' : ℕ)
      → lo < 2 ^ k
      → lo' < 2 ^ k
      → op (hi * 2 ^ k + lo) (hi' * 2 ^ k + lo') ≡ op hi hi' * 2 ^ k + op lo lo'
  on_fields zero hi lo hi' lo' p q =
      let low : lo ≡ 0 = omega arith in
      let low' : lo' ≡ 0 = omega arith in
      let word : hi * 2 ^ 0 + 0 ≡ hi = omega arith in
      let word' : hi' * 2 ^ 0 + 0 ≡ hi' = omega arith in
      rw (low, low', zeros, word, word') (omega arith)
  on_fields (suc k) hi lo hi' lo' p q =
      let small : lo / 2 < 2 ^ k = omega (arith, pow-suc 2 k) in
      let small' : lo' / 2 < 2 ^ k = omega (arith, pow-suc 2 k) in
      let ih = on_fields k hi (lo / 2) hi' (lo' / 2) small small' in
      let whole = by_digit (hi * 2 ^ suc k + lo) (hi' * 2 ^ suc k + lo') in
      let split : op (hi * 2 ^ suc k + lo) (hi' * 2 ^ suc k + lo')
          ≡ digit (lo % 2) (lo' % 2) + 2 * (op hi hi' * 2 ^ k + op (lo / 2) (lo' / 2)) =
        whole
        ∙ rw (
          field-parity k hi lo,
          field-parity k hi' lo',
          field-half k hi lo,
          field-half k hi' lo',
          ih,
        ) in
      omega (arith, split, by_digit lo lo', double_field (op hi hi') k)

pub bit_and_fields :
    (k hi lo hi' lo' : ℕ)
    → lo < 2 ^ k
    → lo' < 2 ^ k
    → bit_and (hi * 2 ^ k + lo) (hi' * 2 ^ k + lo') ≡ bit_and hi hi' * 2 ^ k + bit_and lo lo'
bit_and_fields = on_fields bit_and min (zero-bit_and 0) bit_and-digit

pub bit_or_fields :
    (k hi lo hi' lo' : ℕ)
    → lo < 2 ^ k
    → lo' < 2 ^ k
    → bit_or (hi * 2 ^ k + lo) (hi' * 2 ^ k + lo') ≡ bit_or hi hi' * 2 ^ k + bit_or lo lo'
bit_or_fields = on_fields bit_or max (zero-bit_or 0) bit_or-digit

-- Half of a mask of k + 1 ones is a mask of k ones, and it is odd.
mask-half : (k : ℕ) → ((2 ^ suc k - 1) / 2 ≡ 2 ^ k - 1) × ((2 ^ suc k - 1) % 2 ≡ 1)
mask-half k =
    (omega (arith, pow-suc 2 k, one-le-pow k 2), omega (arith, pow-suc 2 k, one-le-pow k 2))

-- A mask of k ones is the remainder by 2 ^ k.
keeps_low : (k lo : ℕ) → lo < 2 ^ k → bit_and lo (2 ^ k - 1) ≡ lo
keeps_low zero lo fits = rw bit_and-zero (omega arith)
keeps_low (suc k) lo fits =
    grind (arith, bit_and-digit lo (2 ^ suc k - 1), mask-half k, pow-suc 2 k, keeps_low k (lo / 2))

pub bit_and_mask : (k x : ℕ) → bit_and x (2 ^ k - 1) ≡ x % 2 ^ k
bit_and_mask k x =
    let hi = x / 2 ^ k in
    let lo = x % 2 ^ k in
    let whole : hi * 2 ^ k + lo ≡ x = ground (arith, one-le-pow k 2) in
    let fits : lo < 2 ^ k = ground (arith, one-le-pow k 2) in
    let parts : bit_and (hi * 2 ^ k + lo) (0 * 2 ^ k + (2 ^ k - 1))
        ≡ bit_and hi 0 * 2 ^ k + bit_and lo (2 ^ k - 1) =
      bit_and_fields k hi lo 0 (2 ^ k - 1) fits (omega (arith, one-le-pow k 2)) in
    ap (λ n. bit_and n (2 ^ k - 1)) (sym whole)
    ∙ ap (λ n. bit_and (hi * 2 ^ k + lo) n) mask_only
    ∙ parts
    ∙ rw (bit_and-zero hi, keeps_low k lo fits) (omega arith)
  where
    mask_only : 2 ^ k - 1 ≡ 0 * 2 ^ k + (2 ^ k - 1)
    mask_only = omega arith
