-- ===== src/Boot.antt =====
-- The memory map in src/kmain.c. The boot information lies in memory, a byte at each address, as tags of
-- eight bytes' alignment behind its first eight bytes. `kernel_end` is the physical address of the end of
-- the kernel. The walks take fuel, since the sizes of tags and entries come from the boot loader; `none`
-- means that it ran out. Messages, and the colour that is only printed, are left out.
pub mod Zones
pub mod Tss
use lios.Prelude.{
  ℕ, zero, suc, ◌+◌, ◌-◌, ◌*◌, ◌/◌, ◌%◌, ◌^◌, Bool, true, false, ◌&&◌, ◌||◌, ltb, leb, ◌==◌,
  if◌then◌else◌, Option, none, some, List, [], ◌∷◌, u32, u64, sub_u64,
}
use lios.Util.KMath.{ceil_u64_div, u64_max}
use lios.File.Fat32.{Block, le_u32}
use lios.File.Gpt.{le_u64}
use lios.Mem.Page.{page_size, kernel_offset}
use lios.Mem.Pmm.{
  Pmm, Result, ok, panic, stuck, pmm_set_total, pmm_add_block, pmm_init_final, pmm_clear_blocks,
}

-- The bytes behind an address.
abbrev pub bytes_at : (ℕ → ℕ) → ℕ → Block
bytes_at mem p i = mem (p + i)

pub record Region : Type 0 where
  pub addr : ℕ
  pub len : ℕ
  pub kind : ℕ

abbrev pub region_at : (ℕ → ℕ) → ℕ → Region
region_at mem p = record {
  addr = le_u64 (bytes_at mem p) 0;
  len = le_u64 (bytes_at mem p) 8;
  kind = le_u32 (bytes_at mem p) 16;
}

-- The next tag: the size rounded up to a multiple of 8.
unfoldable pub next_tag : (ℕ → ℕ) → ℕ → ℕ
next_tag mem tag = u64 (tag + (le_u32 (bytes_at mem tag) 4 + 7) % 2 ^ 32 / 8 * 8)

-- Available memory that ends behind the kernel.
unfoldable pub is_usable : (kernel_end : ℕ) → Region → Bool
is_usable kernel_end r = r.kind == 1 && ltb kernel_end (u64 (r.addr + r.len))

-- What a region adds to `total_available_mem`.
unfoldable pub with_region : (kernel_end : ℕ) → Region → ℕ → ℕ
with_region kernel_end r total =
    if is_usable kernel_end r
    then u64 (total + sub_u64 (u64 (r.addr + r.len)) (u64_max r.addr kernel_end))
    else total

-- The entries of a memory map, from `p` to `stop`.
unfoldable pub total_of : (fuel kernel_end p stop entry_size : ℕ) → (ℕ → ℕ) → ℕ → Option ℕ
total_of zero kernel_end p stop entry_size mem total = none
total_of (suc fuel) kernel_end p stop entry_size mem total =
    let rest =
      total_of fuel kernel_end (u64 (p + entry_size)) stop entry_size mem
        (with_region kernel_end (region_at mem p) total) in
    if ltb p stop then rest else some total

-- The blocks of a region that `pmm_add_block` is called with, in order.
unfoldable pub zone_blocks : (kernel_end multiboot_start multiboot_end : ℕ) → Region → List (ℕ × ℕ)
zone_blocks kernel_end multiboot_start multiboot_end r =
    let zone_start = u64 (ceil_u64_div (u64_max r.addr kernel_end) 0x1000 * 0x1000) in
    let zone_end = u64 (r.addr + r.len) in
    let second : List (ℕ × ℕ) =
      if ltb multiboot_end zone_end then (multiboot_end, zone_end) ∷ [] else [] in
    if (leb zone_start multiboot_start && leb multiboot_start zone_end)
      || (leb zone_start multiboot_end && leb multiboot_end zone_end)
    then (if ltb zone_start multiboot_start then (zone_start, multiboot_start) ∷ second else second)
    else (zone_start, zone_end) ∷ []

unfoldable pub add_blocks : (fuel : ℕ) → List (ℕ × ℕ) → Pmm → Result Pmm
add_blocks fuel [] s = ok s
add_blocks fuel ((start, end) ∷ rest) s = elim (pmm_add_block fuel start end s) [
  | ok s' ↦ add_blocks fuel rest s'
  | panic ↦ panic
  | stuck ↦ stuck
]

-- The second pass over the entries of a memory map.
unfoldable pub add_entries :
    (rounds fuel kernel_end multiboot_start multiboot_end p stop entry_size : ℕ)
    → (ℕ → ℕ)
    → Pmm
    → Result Pmm
add_entries zero fuel kernel_end multiboot_start multiboot_end p stop entry_size mem s = stuck
add_entries (suc rounds) fuel kernel_end multiboot_start multiboot_end p stop entry_size mem s =
    let r = region_at mem p in
    let blocks =
      if is_usable kernel_end r
      then zone_blocks kernel_end multiboot_start multiboot_end r
      else [] in
    elim (ltb p stop) [
      | false ↦ ok s
      | true ↦ elim (add_blocks fuel blocks s) [
        | ok s' ↦
            add_entries rounds fuel kernel_end multiboot_start multiboot_end (u64 (p + entry_size))
              stop entry_size mem s'
        | panic ↦ panic
        | stuck ↦ stuck
      ]
    ]

-- What the first pass over the tags collects.
pub record BootInfo : Type 0 where
  pub total_available_mem : ℕ
  pub efi_table : ℕ
  pub framebuffer_addr : ℕ
  pub vga_pitch : ℕ
  pub pixel_width : ℕ
  pub pixel_height : ℕ

abbrev pub no_info : BootInfo
no_info = record {
  total_available_mem = 0;
  efi_table = 0;
  framebuffer_addr = 0;
  vga_pitch = 0;
  pixel_width = 0;
  pixel_height = 0;
}

-- The tags that leave something behind: the memory map, the frame buffer and the EFI table.
unfoldable pub read_tag : (fuel kernel_end tag : ℕ) → (ℕ → ℕ) → BootInfo → Option BootInfo
read_tag fuel kernel_end tag mem info =
    let b = bytes_at mem tag in
    let kind = le_u32 b 0 in
    if kind == 6
    then elim (total_of fuel kernel_end (tag + 16) (tag + le_u32 b 4) (le_u32 b 8) mem
        info.total_available_mem) [
          | none ↦ none
          | some total ↦ some (record info { total_available_mem = total })
        ]
    else (if kind == 8
        then some (record info {
          framebuffer_addr = le_u64 b 8;
          vga_pitch = le_u32 b 16;
          pixel_width = le_u32 b 20;
          pixel_height = le_u32 b 24;
        })
        else (if kind == 12
            then some (record info { efi_table = u64 (le_u64 b 8 + kernel_offset) })
            else some info))

-- The first pass, which also returns the address of the last tag.
unfoldable pub read_tags :
    (rounds fuel kernel_end tag : ℕ) → (ℕ → ℕ) → BootInfo → Option (BootInfo × ℕ)
read_tags zero fuel kernel_end tag mem info = none
read_tags (suc rounds) fuel kernel_end tag mem info = elim (le_u32 (bytes_at mem tag) 0 == 0) [
  | true ↦ some (info, tag)
  | false ↦ elim (read_tag fuel kernel_end tag mem info) [
    | none ↦ none
    | some info' ↦ read_tags rounds fuel kernel_end (next_tag mem tag) mem info'
  ]
]

-- The second pass.
unfoldable pub add_tags :
    (rounds fuel kernel_end multiboot_start multiboot_end tag : ℕ) → (ℕ → ℕ) → Pmm → Result Pmm
add_tags zero fuel kernel_end multiboot_start multiboot_end tag mem s = stuck
add_tags (suc rounds) fuel kernel_end multiboot_start multiboot_end tag mem s =
    let b = bytes_at mem tag in
    let added =
      if le_u32 b 0 == 6
      then add_entries fuel fuel kernel_end multiboot_start multiboot_end (tag + 16)
          (tag + le_u32 b 4) (le_u32 b 8) mem s
      else ok s in
    elim (le_u32 b 0 == 0) [
      | true ↦ ok s
      | false ↦ elim added [
        | ok s' ↦
            add_tags rounds fuel kernel_end multiboot_start multiboot_end (next_tag mem tag) mem s'
        | panic ↦ panic
        | stuck ↦ stuck
      ]
    ]

-- From the start of the kernel to the end of the set-up of the page lists. The boot information ends
-- behind its last tag. The frame buffer is taken out of the pages.
unfoldable pub set_up_memory :
    (rounds fuel kernel_end multiboot_start : ℕ) → (ℕ → ℕ) → Pmm → Result (BootInfo × Pmm)
set_up_memory rounds fuel kernel_end multiboot_start mem s =
    elim (read_tags rounds fuel kernel_end (multiboot_start + 8) mem no_info) [
      | none ↦ stuck
      | some (info, last) ↦
          elim (add_tags rounds fuel kernel_end multiboot_start (next_tag mem last)
            (multiboot_start + 8) mem (pmm_set_total info.total_available_mem s)) [
              | ok s₁ ↦ elim (pmm_init_final fuel s₁) [
                | ok s₂ ↦
                    elim (pmm_clear_blocks fuel info.framebuffer_addr
                      (u64 (info.framebuffer_addr + u32 (info.vga_pitch * info.pixel_height))) s₂) [
                        | ok s₃ ↦ ok (info, s₃)
                        | panic ↦ panic
                        | stuck ↦ stuck
                      ]
                | panic ↦ panic
                | stuck ↦ stuck
              ]
              | panic ↦ panic
              | stuck ↦ stuck
            ]
    ]
