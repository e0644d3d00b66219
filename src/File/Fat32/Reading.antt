-- ===== src/File/Fat32/Reading.antt =====
-- Opening and reading a file whose clusters form a chain in the FAT, in src/file/fat32.c.
use lios.Prelude.{
  ℕ, zero, suc, ◌+◌, ◌<◌, ◌≡◌, ◌≢◌, arith, true, false, List, [], ◌∷◌, map, length, u32, sub_u32,
  ap, ◌∙◌,
}
use lios.File.Fat32.{Fat32, Block, ok, is_ending_cluster, count_clusters, read_clusters, fat32_read}

-- A cluster of a file: neither free nor an end marker.
abbrev pub Live : ℕ → Type 0
Live c = (c ≢ 0) × (is_ending_cluster c ≡ false)

-- The FAT leads from the first cluster through the rest and then to an end marker.
abbrev pub IsFile : (ℕ → ℕ) → ℕ → List ℕ → Type 0
IsFile fat c [] = Live c × (fat c ≢ 0) × (is_ending_cluster (fat c) ≡ true)
IsFile fat c (d ∷ ds) = Live c × (fat c ≡ d) × IsFile fat d ds

pub Live-head : (fat : ℕ → ℕ) (c : ℕ) (ds : List ℕ) → IsFile fat c ds → Live c
Live-head fat c [] h = h.0
Live-head fat c (d ∷ ds) h = h.0

pub count_clusters-length :
    (fuel c n : ℕ) (s : Fat32) (ds : List ℕ)
    → IsFile s.fat c ds
    → length ds < fuel
    → count_clusters fuel c n s ≡ ok (n + 1 + length ds)
unfolding count_clusters
count_clusters-length zero c n s ds h f = elim f [ ]
count_clusters-length (suc fuel) c n s [] (l, z, e) f = ground arith
count_clusters-length (suc fuel) c n s (d ∷ ds) (l, e, h) f =
    ground
      (arith, Live-head s.fat d ds h, count_clusters-length fuel d (n + 1) s ds h (omega arith))

-- The block of a cluster.
abbrev pub block_of : Fat32 → ℕ → Block
block_of s c = s.disk (sub_u32 (u32 (s.data_start_lba + c)) 2)

read_clusters-blocks :
    (c : ℕ) (s : Fat32) (ds : List ℕ)
    → IsFile s.fat c ds
    → read_clusters (suc (length ds)) c s ≡ (1, block_of s c ∷ map (block_of s) ds)
unfolding read_clusters
read_clusters-blocks c s [] ((z, live), a, b) = rw live
read_clusters-blocks c s (d ∷ ds) ((z, live), e, h) = rw (live, e, read_clusters-blocks d s ds h)

-- For a file whose clusters the FAT chains up to an end marker, the count of `fat32_open` is the
-- number of clusters, with enough fuel; and `fat32_read` with that size reads the blocks of all
-- clusters in order, and returns 1, its error code, for every such file.
pub fat32_read-file :
    (fuel c : ℕ) (s : Fat32) (ds : List ℕ)
    → IsFile s.fat c ds
    → length ds < fuel
    → (count_clusters fuel c 0 s ≡ ok (1 + length ds))
      × (fat32_read c (1 + length ds) s ≡ (1, block_of s c ∷ map (block_of s) ds))
unfolding fat32_read
fat32_read-file fuel c s ds h f = (
  count_clusters-length fuel c 0 s ds h f,
  ap (λ n. read_clusters n c s) (omega arith) ∙ read_clusters-blocks c s ds h,
)
