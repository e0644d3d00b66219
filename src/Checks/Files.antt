-- ===== src/Checks/Files.antt =====
-- Runs of the models of src/file on concrete inputs.
use lios.Prelude.{
  ℕ, ◌+◌, ◌≡◌, refl, arith, true, List, [], ◌∷◌, ◌++◌, get_or, replicate, ◌==◌, if◌then◌else◌,
}
use lios.File.Fat32.{Block, Fat32, ok, is_ending_cluster, count_clusters, fat32_read}
use lios.File.Fat32.Reading.{IsFile, block_of, fat32_read-file}
use lios.File.Gpt.{Partition, is_basic_data, entry_at, header_ok, gpt_read}
use lios.File.Gpt.Scan.{basic_from, outcome, gpt_read-outcome}

-- A volume with a file in the clusters 5 and 6; the first free cluster is 7.
abbrev volume : Fat32
volume = record {
  disk = λ lba i. lba + i;
  fat = λ c. get_or (1 ∷ 1 ∷ 1 ∷ 1 ∷ 1 ∷ 6 ∷ 0xFFFFFFF ∷ []) c 0;
  fat_size = 2;
  fat_start_lba = 10;
  data_start_lba = 100;
  root_dir_lba = 100;
}

volume-IsFile : IsFile volume.fat 5 (6 ∷ [])
unfolding is_ending_cluster
volume-IsFile = (
  (λ e. omega (arith, e), refl),
  refl,
  ((λ e. omega (arith, e), refl), λ e. omega (arith, e), refl),
)

fat32_read-file_example :
    (count_clusters 10 5 0 volume ≡ ok 2)
    × (fat32_read 5 2 volume ≡ (1, block_of volume 5 ∷ block_of volume 6 ∷ []))
fat32_read-file_example = fat32_read-file 10 5 volume (6 ∷ []) volume-IsFile (omega arith)

-- A disk whose first entry is a basic data partition from block 2048 to block 4096.
abbrev header : List ℕ
header =
    (0x45 ∷ 0x46 ∷ 0x49 ∷ 0x20 ∷ 0x50 ∷ 0x41 ∷ 0x52 ∷ 0x54 ∷ 0 ∷ 0 ∷ 0 ∷ 0 ∷ 92 ∷ replicate 11 0)
    ++ (1 ∷ replicate 47 0)
    ++ (2 ∷ replicate 11 0)
    ++ (128 ∷ [])

abbrev entries : List ℕ
entries =
    (0xA2 ∷ 0xA0 ∷ 0xD0 ∷ 0xEB ∷ 0xE5 ∷ 0xB9 ∷ 0x33 ∷ 0x44 ∷ [])
    ++ (0x87 ∷ 0xC0 ∷ 0x68 ∷ 0xB6 ∷ 0xB7 ∷ 0x26 ∷ 0x99 ∷ 0xC7 ∷ replicate 16 0)
    ++ (0 ∷ 8 ∷ replicate 6 0)
    ++ (0 ∷ 16 ∷ [])

abbrev gpt_disk : ℕ → Block
gpt_disk lba i =
    if lba == 1 then get_or header i 0 else (if lba == 2 then get_or entries i 0 else 0)

abbrev partition : Partition
partition = record { first_lba = 2048; last_lba = 4096 }

one_partition : basic_from gpt_disk 128 2 0 ≡ partition ∷ []
unfolding basic_from is_basic_data entry_at
one_partition = refl

header-ok : header_ok (gpt_disk 1) ≡ true
unfolding header_ok
header-ok = refl

gpt_read-outcome_example : gpt_read gpt_disk ≡ outcome (basic_from gpt_disk 128 2 0)
gpt_read-outcome_example = gpt_read-outcome gpt_disk refl header-ok (rw one_partition (refl, tt))
