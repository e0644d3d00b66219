-- ===== src/Checks/Lookups.antt =====
-- A run of the model of `fat32_open` of src/file/fat32.c on a concrete volume.
use lios.Prelude.{
  ℕ, ◌+◌, ◌*◌, ◌≤◌, ◌<◌, ◌≡◌, ◌≢◌, ◌⊎◌, ◌∙◌, refl, sym, ap, ap₂, subst, arith, ltb, ◌==◌,
  if◌then◌else◌, inl, inr, List, [], ◌∷◌, length, ℕ_discrete, bit_or, ◌<<<◌,
}
use lios.File.Fat32.{Block, Fat32, ok, le_u16, is_ending_cluster, short_name, fat32_open}
use lios.File.Fat32.Reading.{IsFile}
use lios.File.Fat32.Text.{IsText}
use lios.File.Fat32.Lookup.{Lookup, entry_cluster}
use lios.File.Fat32.Opening.{Opened, fat32_open-Opened}

-- A directory with one entry, whose eleven characters are all the same, and whose cluster is 5.
abbrev directory : Block
directory i = if i == 26 then 5 else (if ltb i 11 then b'A' else 0)

-- The root directory in cluster 2, and a file in the clusters 5 and 6.
abbrev small_volume : Fat32
small_volume = record {
  disk = λ lba. directory;
  fat = λ c. if c == 5 then 6 else 0xFFFFFFF;
  fat_size = 1;
  fat_start_lba = 10;
  data_start_lba = 100;
  root_dir_lba = 2;
}

directory-below : (i : ℕ) → directory i < 256
directory-below i = ground arith

directory-entry : (k : ℕ) → entry_cluster directory k ≢ 0 → entry_cluster directory k ≡ 5
directory-entry k ne = elim (ℕ_discrete k 0) [
  | yes first ↦ ap (entry_cluster directory) first
  | no other ↦
      let high : le_u16 directory (32 * k + 20) ≡ 0 = ground arith in
      let low : le_u16 directory (32 * k + 26) ≡ 0 = ground arith in
      absurd (ne (ap₂ (λ a b. bit_or (a <<< 16) b) high low))
]

root_dir-IsFile : IsFile small_volume.fat 2 []
unfolding is_ending_cluster
root_dir-IsFile = ((λ e. omega (arith, e), refl), λ e. omega (arith, e), refl)

small_volume-IsFile : IsFile small_volume.fat 5 (6 ∷ [])
unfolding is_ending_cluster
small_volume-IsFile = (
  (λ e. omega (arith, e), refl),
  refl,
  ((λ e. omega (arith, e), refl), λ e. omega (arith, e), refl),
)

-- Whatever is found is that file.
found-IsFile :
    (want : List ℕ) (c : ℕ)
    → c ≢ 0
    → Lookup small_volume want (2 ∷ []) c
    → (file : List ℕ) × IsFile small_volume.fat c file × (length file < 10)
found-IsFile want c ne (inl (_, inl (k, a, b, same, e, before))) =
    let five = directory-entry k (λ z. ne (sym e ∙ z)) in
    (
      6 ∷ [],
      subst (λ x. IsFile small_volume.fat x (6 ∷ [])) (sym five ∙ e) small_volume-IsFile,
      omega arith,
    )
found-IsFile want c ne (inl (_, inr (z, none))) = absurd (ne z)
found-IsFile want c ne (inr (found, z)) = absurd (ne z)

abbrev eight : List ℕ
eight = b'a' ∷ b'A' ∷ b'a' ∷ b'a' ∷ b'a' ∷ b'a' ∷ b'a' ∷ b'a' ∷ []

abbrev three : List ℕ
three = b'a' ∷ b'a' ∷ b'A' ∷ []

eight-IsText : IsText eight
eight-IsText = omega arith

three-IsText : IsText three
three-IsText = omega arith

fat32_open-Opened_example :
    (answer : ℕ × ℕ) × (fat32_open 10 eight three small_volume ≡ ok answer)
    × (((8 < 8) × (answer ≡ (0, 0)))
        ⊎ ((8 ≤ 8) × (3 < 3) × (answer ≡ (0, 1)))
        ⊎ ((8 ≤ 8) × (3 ≤ 3) × Opened small_volume (short_name eight three) (2 ∷ []) answer))
fat32_open-Opened_example =
    fat32_open-Opened 10 eight three small_volume [] eight-IsText three-IsText
      (λ lba i. directory-below i) root_dir-IsFile (omega arith)
      (found-IsFile (short_name eight three))
