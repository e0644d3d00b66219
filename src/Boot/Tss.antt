-- ===== src/Boot/Tss.antt =====
-- The descriptor of the task state segment in src/kmain.c.
use lios.Prelude.{ℕ, ◌+◌, ◌*◌, ◌%◌, ◌^◌, ◌≤◌, ◌<◌, ◌≡◌, arith, sub_u64, ◌>>>◌}

pub record GdtEntryTss : Type 0 where
  pub limit_low : ℕ
  pub base_low : ℕ
  pub base_mid : ℕ
  pub access : ℕ
  pub limit_high : ℕ
  pub flags : ℕ
  pub base_high : ℕ
  pub base_highest : ℕ
  pub reserved : ℕ

-- The entry that `kmain` writes for the segment from `tss_start` to `tss_end`.
pub tss_entry : (tss_start tss_end : ℕ) → GdtEntryTss
tss_entry tss_start tss_end =
    let limit = sub_u64 tss_end tss_start in
    record {
      limit_low = limit % 2 ^ 16;
      base_low = tss_start % 2 ^ 16;
      base_mid = (tss_start >>> 16) % 2 ^ 8;
      access = 0x89;
      limit_high = (limit >>> 16) % 2 ^ 4;
      flags = 8;
      base_high = (tss_start >>> 24) % 2 ^ 8;
      base_highest = (tss_start >>> 32) % 2 ^ 32;
      reserved = 0;
    }

-- The address and the limit that the processor puts together from the fields.
abbrev pub base_of : GdtEntryTss → ℕ
base_of e = e.base_low + 2 ^ 16 * e.base_mid + 2 ^ 24 * e.base_high + 2 ^ 32 * e.base_highest

abbrev pub limit_of : GdtEntryTss → ℕ
limit_of e = e.limit_low + 2 ^ 16 * e.limit_high

-- For a segment of less than 2 ^ 20 bytes, the fields of its descriptor give back its address and its
-- size, and each fits in its bits.
pub tss_entry-fields :
    (tss_start tss_end : ℕ)
    → tss_start ≤ tss_end
    → tss_end < 2 ^ 64
    → tss_end < tss_start + 2 ^ 20
    → (base_of (tss_entry tss_start tss_end) ≡ tss_start)
      × (tss_start + limit_of (tss_entry tss_start tss_end) ≡ tss_end)
      × ((tss_entry tss_start tss_end).limit_high < 2 ^ 4)
      × ((tss_entry tss_start tss_end).base_highest < 2 ^ 32)
unfolding tss_entry
tss_entry-fields tss_start tss_end o b l = (omega arith, omega arith, omega arith, omega arith)
