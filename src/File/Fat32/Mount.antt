-- ===== src/File/Fat32/Mount.antt =====
-- `fat32_init` of src/file/fat32.c: the fields of the BIOS parameter block, by their offsets, the checks
-- on them, and the state of the driver.
use lios.Prelude.{ℕ, ◌+◌, ◌*◌, Bool, not, ◌&&◌, ◌||◌, ◌==◌, if◌then◌else◌, u32, u64}
use lios.File.Fat32.{Block, Fat32, Result, ok, panic, le_u16, le_u32, update_fat}

-- The conditions of the panics, in the order of the code; the last one is the signature word.
unfoldable pub is_supported : Block → Bool
is_supported b =
    ((b 0 == 0xEB && b 2 == 0x90) || b 0 == 0xE9)
    && (le_u16 b 11 == 512
        && (b 16 == 2
            && (b 13 == 1
                && (le_u16 b 19 == 0
                    && (le_u16 b 22 == 0 && (not (le_u32 b 32 == 0) && le_u16 b 510 == 0xAA55))))))

unfoldable pub fat32_init : (disk : ℕ → Block) → (first_lba : ℕ) → Result Fat32
fat32_init disk first_lba =
    let bpb = disk first_lba in
    let fat_size = le_u32 bpb 36 in
    let fat_start = u64 (first_lba + le_u16 bpb 14) in
    let mounted : Fat32 = record {
      disk = disk;
      fat = λ _. 0;
      fat_size = fat_size;
      fat_start_lba = fat_start;
      data_start_lba = u64 (fat_start + u32 (fat_size * 2));
      root_dir_lba = le_u32 bpb 44;
    } in
    if is_supported bpb then ok (update_fat mounted) else panic
