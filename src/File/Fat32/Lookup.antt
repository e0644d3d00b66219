-- ===== src/File/Fat32/Lookup.antt =====
-- What the directory search of src/file/fat32.c finds.
use lios.Prelude.{
  ℕ, zero, suc, ◌+◌, ◌*◌, ◌≤◌, ◌<◌, ◌≡◌, ◌≢◌, ◌⊎◌, ◌∙◌, refl, sym, subst, arith, true, false, ltb,
  ◌==◌, Bool-cases, ℕ_discrete, inl, inr, List, [], ◌∷◌, length, bit_or, ◌<<<◌, u32, u64, sub_u32,
}
use lios.Util.Misc.{strncmp}
use lios.File.Fat32.{
  Block, Fat32, ok, le_u16, short_name, beside, find_entry, check_directory_entry_for_file,
  search_directory, get_cluster_num, is_ending_cluster,
}
use lios.File.Fat32.Reading.{Live, IsFile, Live-head}
use lios.File.Fat32.Text.{IsText, Matches, strncmp-Matches}

-- The first cluster in entry `i` of a directory block.
abbrev pub entry_cluster : Block → (i : ℕ) → ℕ
entry_cluster b i = bit_or (le_u16 b (32 * i + 20) <<< 16) (le_u16 b (32 * i + 26))

-- Among the entries from `i` on, before `stop`: the first one with the name has the cluster, or none has
-- the name, and the cluster is 0.
abbrev pub Outcome : Block → (want : List ℕ) → (i stop cluster : ℕ) → Type 0
Outcome b want i stop cluster =
    ((k : ℕ) × (i ≤ k)
      × (k < stop)
      × Matches b want k
      × (entry_cluster b k ≡ cluster)
      × ((j : ℕ) → i ≤ j → j < k → Matches b want j → ⊥))
    ⊎ ((cluster ≡ 0) × ((j : ℕ) → i ≤ j → j < stop → Matches b want j → ⊥))

Outcome-next :
    (b : Block) (want : List ℕ) (i stop cluster : ℕ)
    → (Matches b want i → ⊥)
    → Outcome b want (i + 1) stop cluster
    → Outcome b want i stop cluster
Outcome-next b want i stop cluster other (inl (k, above, below, same, e, before)) = inl (
  k,
  omega arith,
  below,
  same,
  e,
  λ j l m h. elim (ℕ_discrete i j) [
    | yes here ↦ other (subst (Matches b want) (sym here) h)
    | no ne ↦ before j (omega arith) m h
  ],
)
Outcome-next b want i stop cluster other (inr (e, rest)) = inr (
  e,
  λ j l m h. elim (ℕ_discrete i j) [
    | yes here ↦ other (subst (Matches b want) (sym here) h)
    | no ne ↦ rest j (omega arith) m h
  ],
)

find_entry-Outcome :
    (n i : ℕ) (b : Block) (name ext : List ℕ)
    → ((x : ℕ) → b x < 256)
    → IsText name
    → IsText ext
    → i + n ≤ 16
    → Outcome b (short_name name ext) i (i + n) (find_entry n i b (short_name name ext))
unfolding find_entry
find_entry-Outcome zero i b name ext p t u f = inr (refl, λ j l m h. absurd (omega arith))
find_entry-Outcome (suc n) i b name ext p t u f =
    let want = short_name name ext in
    let compared = strncmp (beside b want) (32 * i) 512 11 in
    let says = strncmp-Matches b name ext i p t u (omega arith) in
    elim (Bool-cases (compared == 0)) [
      | inl same ↦ rw same (
          inl (
            i,
            omega arith,
            omega arith,
            says.0 (ground arith),
            refl,
            λ j l m h. absurd (omega arith),
          ))
      | inr other ↦ rw other (
          Outcome-next b want i (i + suc n) (find_entry n (i + 1) b want)
            (λ h. let e = says.1 h in ground arith)
            (subst (λ stop. Outcome b want (i + 1) stop (find_entry n (i + 1) b want)) (omega arith)
              (find_entry-Outcome n (i + 1) b name ext p t u (omega arith))))
    ]

-- The block of a directory's cluster.
abbrev pub directory_block : Fat32 → ℕ → Block
directory_block s d = s.disk (u64 (sub_u32 (u32 d) 2 + s.data_start_lba))

-- The search over the clusters of a directory stops at the first block in which the first entry with
-- the name has a cluster.
abbrev pub Lookup : Fat32 → (want : List ℕ) → (clusters : List ℕ) → (cluster : ℕ) → Type 0
Lookup s want [] cluster = cluster ≡ 0
Lookup s want (d ∷ ds) cluster =
    ((cluster ≢ 0) × Outcome (directory_block s d) want 0 16 cluster)
    ⊎ (Outcome (directory_block s d) want 0 16 0 × Lookup s want ds cluster)

module _ (name ext : List ℕ) (s : Fat32) where
  abbrev want : List ℕ
  want = short_name name ext

  in_block :
      (d : ℕ)
      → ((lba x : ℕ) → s.disk lba x < 256)
      → IsText name
      → IsText ext
      → Outcome (directory_block s d) want 0 16 (check_directory_entry_for_file (u32 d) name ext s)
  unfolding check_directory_entry_for_file
  in_block d p t u = find_entry-Outcome 16 0 (directory_block s d) name ext (p _) t u (omega arith)

  search_directory-found :
      (fuel d : ℕ)
      → check_directory_entry_for_file (u32 d) name ext s ≢ 0
      → search_directory (suc fuel) d name ext s
        ≡ ok (check_directory_entry_for_file (u32 d) name ext s)
  unfolding search_directory
  search_directory-found fuel d ne = ground arith

  search_directory-end :
      (fuel d : ℕ)
      → check_directory_entry_for_file (u32 d) name ext s ≡ 0
      → s.fat d ≢ 0
      → is_ending_cluster (s.fat d) ≡ true
      → search_directory (suc fuel) d name ext s ≡ ok 0
  unfolding search_directory
  search_directory-end fuel d e z ends = ground arith

  search_directory-next :
      (fuel d d' : ℕ)
      → check_directory_entry_for_file (u32 d) name ext s ≡ 0
      → s.fat d ≡ d'
      → Live d'
      → search_directory (suc fuel) d name ext s ≡ search_directory fuel d' name ext s
  unfolding search_directory
  search_directory-next fuel d d' e step (z, live) = ground arith

  search_directory-Lookup :
      (fuel d : ℕ) (ds : List ℕ)
      → ((lba x : ℕ) → s.disk lba x < 256)
      → IsText name
      → IsText ext
      → IsFile s.fat d ds
      → length ds < fuel
      → (c : ℕ) × (search_directory fuel d name ext s ≡ ok c) × Lookup s want (d ∷ ds) c
  search_directory-Lookup zero d ds p t u h f = elim f [ ]
  search_directory-Lookup (suc fuel) d [] p t u (l, z, ends) f =
      let c = check_directory_entry_for_file (u32 d) name ext s in
      elim (ℕ_discrete c 0) [
        | no ne ↦ (c, search_directory-found fuel d ne, inl (ne, in_block d p t u))
        | yes e ↦ (
          0,
          search_directory-end fuel d e z ends,
          inr (subst (Outcome (directory_block s d) want 0 16) e (in_block d p t u), refl),
        )
      ]
  search_directory-Lookup (suc fuel) d (d' ∷ ds) p t u (l, step, h) f =
      let c = check_directory_entry_for_file (u32 d) name ext s in
      let (c', e', rest) = search_directory-Lookup fuel d' ds p t u h (omega arith) in
      elim (ℕ_discrete c 0) [
        | no ne ↦ (c, search_directory-found fuel d ne, inl (ne, in_block d p t u))
        | yes e ↦ (
          c',
          search_directory-next fuel d d' e step (Live-head s.fat d' ds h) ∙ e',
          inr (subst (Outcome (directory_block s d) want 0 16) e (in_block d p t u), rest),
        )
      ]

-- For a name of at most eight and an extension of at most three bytes, a disk of bytes and a root
-- directory whose clusters the FAT chains up to an end marker: `get_cluster_num` returns what a lookup in
-- the blocks of the directory gives, 0 if there is no such file. With more fuel than clusters.
pub get_cluster_num-Lookup :
    (fuel : ℕ) (name ext : List ℕ) (s : Fat32) (ds : List ℕ)
    → length name ≤ 8
    → length ext ≤ 3
    → IsText name
    → IsText ext
    → ((lba x : ℕ) → s.disk lba x < 256)
    → IsFile s.fat s.root_dir_lba ds
    → length ds < fuel
    → (c : ℕ) × (get_cluster_num fuel name ext s ≡ ok c)
      × Lookup s (short_name name ext) (s.root_dir_lba ∷ ds) c
unfolding get_cluster_num
get_cluster_num-Lookup fuel name ext s ds a b t u p h f =
    let short : ltb 8 (length name) ≡ false = ground arith in
    let short_ext : ltb 3 (length ext) ≡ false = ground arith in
    let (c, e, l) = search_directory-Lookup name ext s fuel s.root_dir_lba ds p t u h f in
    (c, rw (short, short_ext) e, l)
