-- ===== src/Boot/Zones.antt =====
-- Which addresses of a region of the memory map src/kmain.c gives to the page allocator.
use lios.Prelude.{
  ℕ, ◌+◌, ◌*◌, ◌^◌, ◌≤◌, ◌<◌, ◌≡◌, ◌↔◌, ◌⊎◌, arith, true, ◌&&◌, ◌||◌, ltb, leb, if◌then◌else◌, List,
  [], ◌∷◌, u64,
}
use lios.Util.KMath.{ceil_u64_div, u64_max}
use lios.Util.KMath.Rounding.{ceil_u64_div_least}
use lios.Boot.{Region, is_usable, zone_blocks}

-- Some block holds the address.
abbrev pub InBlocks : ℕ → List (ℕ × ℕ) → Type 0
InBlocks x [] = ⊥
InBlocks x ((start, end) ∷ rest) = ((start ≤ x) × (x < end)) ⊎ InBlocks x rest

-- The first page boundary of the region that is not below the end of the kernel.
abbrev pub zone_start_of : (kernel_end : ℕ) → Region → ℕ
zone_start_of kernel_end r = ceil_u64_div (u64_max r.addr kernel_end) 0x1000 * 0x1000

-- The blocks, with the bounds of the zone as variables.
abbrev split_zone : (start end multiboot_start multiboot_end : ℕ) → List (ℕ × ℕ)
split_zone start end ms me =
    let second : List (ℕ × ℕ) = if ltb me end then (me, end) ∷ [] else [] in
    if (leb start ms && leb ms end) || (leb start me && leb me end)
    then (if ltb start ms then (start, ms) ∷ second else second)
    else (start, end) ∷ []

-- An address of the zone that the boot information does not hold.
abbrev pub IsFree : (start end multiboot_start multiboot_end x : ℕ) → Type 0
IsFree start end ms me x = (start ≤ x) × (x < end) × ((x < ms) ⊎ (me ≤ x))

split_zone-IsFree :
    (start end ms me x : ℕ)
    → ms ≤ me
    → (start ≤ ms) ⊎ (me ≤ end)
    → InBlocks x (split_zone start end ms me)
    → IsFree start end ms me x
split_zone-IsFree start end ms me x o a b = ground arith

IsFree-split_zone :
    (start end ms me x : ℕ)
    → ms ≤ me
    → IsFree start end ms me x
    → InBlocks x (split_zone start end ms me)
IsFree-split_zone start end ms me x o a = ground arith

-- For a usable region that ends at least a page below 2 ^ 64, and boot information that does not reach
-- from before the zone to behind it: the blocks hold exactly the addresses from the first page boundary
-- of the region above the kernel to its end, without the boot information.
pub zone_blocks-IsFree :
    (kernel_end ms me x : ℕ) (r : Region)
    → is_usable kernel_end r ≡ true
    → r.addr + r.len + 0x1000 ≤ 2 ^ 64
    → ms ≤ me
    → (zone_start_of kernel_end r ≤ ms) ⊎ (me ≤ r.addr + r.len)
    → InBlocks x (zone_blocks kernel_end ms me r)
      ↔ IsFree (zone_start_of kernel_end r) (r.addr + r.len) ms me x
unfolding zone_blocks is_usable u64_max
zone_blocks-IsFree kernel_end ms me x r usable top o a =
    let high : u64 (r.addr + r.len) ≡ r.addr + r.len = omega arith in
    let above : u64_max r.addr kernel_end < r.addr + r.len + 1 = ground arith in
    let (least, below) =
      ceil_u64_div_least (u64_max r.addr kernel_end) 0x1000 (omega arith) (omega arith) in
    let low : u64 (zone_start_of kernel_end r) ≡ zone_start_of kernel_end r = omega arith in
    rw (high, low)
      (
        split_zone-IsFree (zone_start_of kernel_end r) (r.addr + r.len) ms me x o a,
        IsFree-split_zone (zone_start_of kernel_end r) (r.addr + r.len) ms me x o,
      )
