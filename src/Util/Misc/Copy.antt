-- ===== src/Util/Misc/Copy.antt =====
-- `memcpy` and `memset` of src/util/misc.c, address by address, and `strlen`.
use lios.Prelude.{ℕ, zero, suc, ◌+◌, ◌≤◌, ◌<◌, ◌≡◌, ◌≢◌, refl, ◌⊎◌, arith, some, u8, ◌∙◌, ap}
use native.Mathlib.Nat.{add-zero}
use lios.Util.Misc.{Memory, poke, memcpy, memset, strlen_scan, strlen}

shift_one : (a i : ℕ) → a + suc i ≡ a + 1 + i
shift_one a i = omega arith

memcpy_outside : (d s n : ℕ) (m : Memory) (x : ℕ) → (x < d) ⊎ (d + n ≤ x) → memcpy d s n m x ≡ m x
unfolding memcpy
memcpy_outside d s zero m x h = refl
memcpy_outside d s (suc n) m x h =
    ground (arith, memcpy_outside (d + 1) (s + 1) n (poke m d (m s)) x)

-- With the destination below the source, or the two ranges apart, a forward copy is right.
memcpy_inside :
    (d s n : ℕ) (m : Memory) (i : ℕ)
    → (d ≤ s) ⊎ (s + n ≤ d)
    → i < n
    → memcpy d s n m (d + i) ≡ m (s + i)
unfolding memcpy
memcpy_inside d s zero m i apart h = absurd (omega arith)
memcpy_inside d s (suc n) m zero apart h =
    ground (arith, memcpy_outside (d + 1) (s + 1) n (poke m d (m s)) (d + 0))
memcpy_inside d s (suc n) m (suc i) apart h =
    rw (shift_one d i, shift_one s i)
      (memcpy_inside (d + 1) (s + 1) n (poke m d (m s)) i (omega arith) (omega arith)
        ∙ ground arith)

-- `memcpy` copies `n` bytes, whether the ranges are apart or the destination begins at or below
-- the source, and writes nowhere else.
pub memcpy_lem :
    (d s n : ℕ) (m : Memory)
    → (d ≤ s) ⊎ (s + n ≤ d)
    → ((i : ℕ) → i < n → memcpy d s n m (d + i) ≡ m (s + i))
      × ((x : ℕ) → (x < d) ⊎ (d + n ≤ x) → memcpy d s n m x ≡ m x)
memcpy_lem d s n m apart = (λ i h. memcpy_inside d s n m i apart h, memcpy_outside d s n m)

memset_outside : (d v n : ℕ) (m : Memory) (x : ℕ) → (x < d) ⊎ (d + n ≤ x) → memset d v n m x ≡ m x
unfolding memset
memset_outside d v zero m x h = refl
memset_outside d v (suc n) m x h = ground (arith, memset_outside (d + 1) v n (poke m d (u8 v)) x)

memset_inside : (d v n : ℕ) (m : Memory) (x : ℕ) → d ≤ x → x < d + n → memset d v n m x ≡ u8 v
unfolding memset
memset_inside d v zero m x h k = absurd (omega arith)
memset_inside d v (suc n) m x h k = ground (
  arith,
  memset_inside (d + 1) v n (poke m d (u8 v)) x,
  memset_outside (d + 1) v n (poke m d (u8 v)) x,
)

-- `memset` stores the low byte of the value at each of the `n` addresses and writes nowhere else.
pub memset_lem :
    (d v n : ℕ) (m : Memory)
    → ((x : ℕ) → d ≤ x → x < d + n → memset d v n m x ≡ u8 v)
      × ((x : ℕ) → (x < d) ⊎ (d + n ≤ x) → memset d v n m x ≡ m x)
memset_lem d v n m = (memset_inside d v n m, memset_outside d v n m)

strlen_scan_lem :
    (n fuel : ℕ) (m : Memory) (s count : ℕ)
    → n < fuel
    → ((i : ℕ) → i < n → m (s + i) ≢ 0)
    → m (s + n) ≡ 0
    → strlen_scan fuel m s count ≡ some (count + n)
unfolding strlen_scan
strlen_scan_lem n zero m s count f h e = absurd (omega arith)
strlen_scan_lem zero (suc fuel) m s count f h e = ground (arith, ap m (add-zero s))
strlen_scan_lem (suc n) (suc fuel) m s count f h e = ground (
  arith,
  h 0 (omega arith),
  ap m (add-zero s),
  strlen_scan_lem n fuel m (s + 1) (count + 1) (omega arith)
      (λ i p. rw (← shift_one s i) (h (suc i) (omega arith))) (rw (← shift_one s n) e),
)

-- With more fuel than the distance to the first NUL, `strlen` returns that distance.
pub strlen_lem :
    (fuel : ℕ) (m : Memory) (s n : ℕ)
    → n < fuel
    → ((i : ℕ) → i < n → m (s + i) ≢ 0)
    → m (s + n) ≡ 0
    → strlen fuel m s ≡ some n
unfolding strlen
strlen_lem fuel m s n f h e = ground (arith, strlen_scan_lem n fuel m s 0 f h e)
