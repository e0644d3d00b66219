-- ===== src/File/Fat32/Opening.antt =====
-- `fat32_open` of src/file/fat32.c, from a name to a cluster and a size.
use lios.Prelude.{
  ℕ, ◌+◌, ◌≤◌, ◌<◌, ◌≡◌, ◌≢◌, ◌⊎◌, refl, subst, Bool-cases, arith, false, ltb, ◌==◌, ℕ_discrete,
  inl, inr, List, ◌∷◌, length, u32,
}
use lios.File.Fat32.{Fat32, ok, short_name, get_cluster_num, count_clusters, fat32_open}
use lios.File.Fat32.Reading.{IsFile, count_clusters-length}
use lios.File.Fat32.Text.{IsText}
use lios.File.Fat32.Lookup.{Lookup, get_cluster_num-Lookup}

-- The answers of `fat32_open` when the name and the extension are short: the error for a file that the
-- lookup does not find, or the cluster that it finds with the number of clusters in the file's chain.
abbrev pub Opened : Fat32 → (want : List ℕ) → (clusters : List ℕ) → (answer : ℕ × ℕ) → Type 0
Opened s want clusters answer =
    (Lookup s want clusters 0 × (answer ≡ (0, 2)))
    ⊎ ((c : ℕ) × (file : List ℕ) × (c ≢ 0)
        × Lookup s want clusters c
        × IsFile s.fat c file
        × (answer ≡ (c, u32 (1 + length file))))

-- The answer once the lookup is done.
opened-none :
    (fuel : ℕ) (name ext : List ℕ) (s : Fat32)
    → length name ≤ 8
    → length ext ≤ 3
    → get_cluster_num fuel name ext s ≡ ok 0
    → fat32_open fuel name ext s ≡ ok (0, 2)
unfolding fat32_open
opened-none fuel name ext s a b e =
    let short : ltb 8 (length name) ≡ false = ground arith in
    let short_ext : ltb 3 (length ext) ≡ false = ground arith in rw (short, short_ext, e) refl

opened-some :
    (fuel c size : ℕ) (name ext : List ℕ) (s : Fat32)
    → length name ≤ 8
    → length ext ≤ 3
    → get_cluster_num fuel name ext s ≡ ok c
    → c ≢ 0
    → count_clusters fuel c 0 s ≡ ok size
    → fat32_open fuel name ext s ≡ ok (c, u32 size)
unfolding fat32_open
opened-some fuel c size name ext s a b e z counted =
    let short : ltb 8 (length name) ≡ false = ground arith in
    let short_ext : ltb 3 (length ext) ≡ false = ground arith in
    let found : (c == 0) ≡ false = ground arith in rw (short, short_ext, e, found, counted) refl

-- For a disk of bytes, a root directory whose clusters the FAT chains up to an end marker, and files
-- chained in the same way behind every cluster that the lookup can give, with more fuel than any chain has
-- clusters behind its first: a name of more than eight bytes gives error 0, else an extension of more than
-- three bytes error 1, and else `fat32_open` returns error 2 if the lookup finds no such file, and the
-- cluster and the number of clusters of the file's chain if it does.
pub fat32_open-Opened :
    (fuel : ℕ) (name ext : List ℕ) (s : Fat32) (ds : List ℕ)
    → IsText name
    → IsText ext
    → ((lba x : ℕ) → s.disk lba x < 256)
    → IsFile s.fat s.root_dir_lba ds
    → length ds < fuel
    → ((c : ℕ)
        → c ≢ 0
        → Lookup s (short_name name ext) (s.root_dir_lba ∷ ds) c
        → (file : List ℕ) × IsFile s.fat c file × (length file < fuel))
    → (answer : ℕ × ℕ) × (fat32_open fuel name ext s ≡ ok answer)
      × (((8 < length name) × (answer ≡ (0, 0)))
          ⊎ ((length name ≤ 8) × (3 < length ext) × (answer ≡ (0, 1)))
          ⊎ ((length name ≤ 8)
              × (length ext ≤ 3)
              × Opened s (short_name name ext) (s.root_dir_lba ∷ ds) answer))
unfolding fat32_open
fat32_open-Opened fuel name ext s ds t u p h f files = elim (Bool-cases (ltb 8 (length name))) [
  | inl long ↦ ((0, 0), rw long refl, inl (ground arith, refl))
  | inr short ↦ elim (Bool-cases (ltb 3 (length ext))) [
    | inl long ↦ ((0, 1), rw (short, long) refl, inr (inl (ground arith, ground arith, refl)))
    | inr short_ext ↦
        let a : length name ≤ 8 = ground arith in
        let b : length ext ≤ 3 = ground arith in
        let (c, e, found) = get_cluster_num-Lookup fuel name ext s ds a b t u p h f in
        elim (ℕ_discrete c 0) [
          | yes z ↦ (
            (0, 2),
            opened-none fuel name ext s a b
                (subst (λ x. get_cluster_num fuel name ext s ≡ ok x) z e),
            inr (
                inr (
                  a,
                  b,
                  inl (subst (Lookup s (short_name name ext) (s.root_dir_lba ∷ ds)) z found, refl),
                )),
          )
          | no ne ↦
              let (file, chain, g) = files c ne found in
              (
                (c, u32 (1 + length file)),
                opened-some fuel c (1 + length file) name ext s a b e ne
                    (count_clusters-length fuel c 0 s file chain g),
                inr (inr (a, b, inr (c, file, ne, found, chain, refl))),
              )
        ]
  ]
]
