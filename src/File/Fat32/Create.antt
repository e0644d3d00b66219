-- ===== src/File/Fat32/Create.antt =====
-- `fat32_new_file` of src/file/fat32.c, and what becomes of the FAT entry of the new file. `overrun`
-- stands for the write of a seventeenth entry behind the directory block.
use lios.Prelude.{
  ℕ, ◌+◌, ◌-◌, ◌*◌, ◌/◌, ◌%◌, ◌^◌, ◌≤◌, ◌<◌, ◌≡◌, ◌≢◌, arith, not, ltb, ◌==◌, if◌then◌else◌, List,
  length, u64, sub_u64, sub_u32,
}
use lios.File.Fat32.{
  Block, Fat32, ok, panic, stuck, find_free_fat_cluster, get_cluster_num, find_usable, new_entry,
  put_entry, le_u32, update_fat,
}

-- The returned descriptor and error code with the new state, or how the call fails.
pub data Outcome : Type 0 where
  done : (fd error : ℕ) → Fat32 → Outcome
  panicked looping overrun : Outcome

abbrev pub write_block : (ℕ → Block) → ℕ → Block → ℕ → Block
write_block disk lba b n = if n == lba then b else disk n

-- The byte at an index of the FAT array in memory.
abbrev pub fat_byte : (ℕ → ℕ) → ℕ → ℕ
fat_byte fat i = fat (i / 4) / 256 ^ (i % 4) % 256

-- The three writes to the disk, in order.
pub flush : (cluster : ℕ) (directory : Block) (current_cluster : ℕ) → Fat32 → Fat32
flush cluster directory current_cluster s =
    let offset = cluster - cluster % 512 in
    let d1 =
      write_block s.disk (u64 (s.fat_start_lba + cluster / 512))
        (λ j. fat_byte s.fat (offset + j)) in
    let d2 = write_block d1 (u64 (sub_u64 current_cluster 2 + s.data_start_lba)) directory in
    record s { disk = write_block d2 (u64 (sub_u32 cluster 2 + s.data_start_lba)) (λ _. 0) }

unfoldable pub fat32_new_file : ℕ → (name ext : List ℕ) → Fat32 → Outcome
fat32_new_file fuel name ext s =
    if ltb 8 (length name)
    then done 0 0 s
    else (if ltb 3 (length ext) then done 0 1 s else elim (get_cluster_num fuel name ext s) [
      | panic ↦ panicked
      | stuck ↦ looping
      | ok file_sector ↦
          if not (file_sector == 0)
          then done 0 2 s
          else (let cluster = find_free_fat_cluster s in
              let marked = record s { fat = λ i. if i == cluster then 0xFFFFFFF else s.fat i } in
              elim (find_usable fuel marked.root_dir_lba marked) [
                | panic ↦ panicked
                | stuck ↦ looping
                | ok (index, current) ↦
                    let b = s.disk (u64 (sub_u64 current 2 + s.data_start_lba)) in
                    if index == 16
                    then overrun
                    else done 0 0 (
                        flush cluster (put_entry index (new_entry cluster name ext) b) current
                          marked)
              ])
    ])

-- Creating a file writes the FAT block of its cluster divided by 512, while a block holds 128 entries.
-- So for a cluster from 128 on, whose own FAT block none of the three writes hits, the entry that is
-- read from the disk again is the old one.
pub flush-entry_lost :
    (c : ℕ) (directory : Block) (current : ℕ) (s : Fat32)
    → let own = s.fat_start_lba + c / 128 in
      128 ≤ c
      → c < s.fat_size * 128
      → s.fat_start_lba + c < 2 ^ 64
      → own ≢ u64 (sub_u64 current 2 + s.data_start_lba)
      → own ≢ u64 (sub_u32 c 2 + s.data_start_lba)
      → (update_fat (flush c directory current s)).fat c ≡ le_u32 (s.disk own) (c % 128 * 4)
unfolding flush update_fat
flush-entry_lost c directory current s a b w n1 n2 = ground arith
