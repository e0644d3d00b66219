-- ===== src/File/Fat32/Cluster.antt =====
-- The end-of-chain test and the search for a free cluster, in src/file/fat32.c.
use lios.Prelude.{
  ℕ, zero, suc, ◌+◌, ◌*◌, ◌≤◌, ◌<◌, ◌≡◌, ◌≢◌, ◌↔◌, arith, true, bit_and_mask, ℕ_discrete,
}
use lios.File.Fat32.{Fat32, is_ending_cluster, find_free_from, find_free_fat_cluster}

-- A 32-bit number ends a chain exactly when it is from 0xFFFFFF8 to 0xFFFFFFF.
pub is_ending_cluster_iff :
    (num : ℕ) → (is_ending_cluster num ≡ true) ↔ ((0xFFFFFF8 ≤ num) × (num ≤ 0xFFFFFFF))
unfolding is_ending_cluster
is_ending_cluster_iff num = ground (arith, bit_and_mask 28 num)

find_free_from-first :
    (n i : ℕ) (fat : ℕ → ℕ) (k : ℕ)
    → i ≤ k
    → k < i + n
    → fat k ≡ 0
    → ((j : ℕ) → i ≤ j → j < k → fat j ≢ 0)
    → find_free_from n i fat ≡ k
unfolding find_free_from
find_free_from-first zero i fat k a b e h = absurd (omega arith)
find_free_from-first (suc n) i fat k a b e h = elim (ℕ_discrete i k) [
  | yes same ↦ ground arith
  | no ne ↦ ground (
    arith,
    h i,
    find_free_from-first n (i + 1) fat k (omega arith) (omega arith) e
        (λ j p q. h j (omega arith) q),
  )
]

-- `find_free_fat_cluster` returns the first cluster whose entry is zero, if there is one in the array
-- of 512 entries for each block of the FAT.
pub find_free_fat_cluster-first :
    (s : Fat32) (k : ℕ)
    → k < s.fat_size * 512
    → s.fat k ≡ 0
    → ((j : ℕ) → j < k → s.fat j ≢ 0)
    → find_free_fat_cluster s ≡ k
unfolding find_free_fat_cluster
find_free_fat_cluster-first s k b e h =
    find_free_from-first (s.fat_size * 512) 0 s.fat k (omega arith) (omega arith) e (λ j p q. h j q)
