-- ===== src/File/Gpt.antt =====
-- The partition table reader of src/file/gpt.c, on the blocks of the disk, with the fields by their
-- offsets. `panic` carries which of the panics it is.
pub mod Scan
use lios.Prelude.{
  ℕ, zero, suc, ◌+◌, ◌-◌, ◌*◌, Bool, true, false, not, ◌&&◌, ◌||◌, ◌==◌, if◌then◌else◌,
}
use lios.File.Fat32.{Block, le_u32}

abbrev pub le_u64 : Block → ℕ → ℕ
le_u64 b i = le_u32 b i + 4294967296 * le_u32 b (i + 4)

pub record Partition : Type 0 where
  pub first_lba : ℕ
  pub last_lba : ℕ

pub data Panic : Type 0 where
  no_header unknown_error more_than_one none_found : Panic

pub data Result : Type 0 where
  found : Partition → Result
  panic : Panic → Result

-- Entry j of a block of four entries of 128 bytes.
abbrev pub guid0 : Block → ℕ → ℕ
guid0 b j = le_u64 b (128 * j)

abbrev pub guid1 : Block → ℕ → ℕ
guid1 b j = le_u64 b (128 * j + 8)

unfoldable pub is_basic_data : Block → ℕ → Bool
is_basic_data b j =
    not (guid0 b j == 0 && guid1 b j == 0)
    && (guid0 b j == 0x4433B9E5EBD0A0A2 && guid1 b j == 0xC79926B7B668C087)

unfoldable pub entry_at : Block → ℕ → Partition
entry_at b j = record { first_lba = le_u64 b (128 * j + 32); last_lba = le_u64 b (128 * j + 40) }

abbrev pub is_set : Partition → Bool
is_set p = not (p.first_lba == 0) || not (p.last_lba == 0)

-- The two loops as one, over the entries from number `i` on, four to a block from LBA 2 on.
pub scan : (disk : ℕ → Block) → (rounds block j : ℕ) → Partition → Result
scan disk zero block j part = found part
scan disk (suc n) block j part =
    let block' = if j == 3 then block + 1 else block in
    let j' = if j == 3 then 0 else j + 1 in
    let skip = scan disk n block' j' part in
    let take_it = scan disk n block' j' (entry_at (disk block) j) in
    if is_basic_data (disk block) j
    then (if is_set part then panic more_than_one else take_it)
    else skip

unfoldable pub header_ok : Block → Bool
header_ok h = le_u64 h 72 == 2 && (le_u32 h 84 == 128 && (le_u64 h 24 == 1 && le_u32 h 12 == 92))

pub gpt_read : (disk : ℕ → Block) → Result
gpt_read disk =
    let header = disk 1 in
    if not (le_u64 header 0 == 0x5452415020494645)
    then panic no_header
    else (if not (header_ok header)
        then panic unknown_error
        else elim (scan disk 128 2 0 (record { first_lba = 0; last_lba = 0 })) [
          | panic p ↦ panic p
          | found part ↦ if is_set part then found part else panic none_found
        ])
