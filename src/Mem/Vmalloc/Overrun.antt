-- ===== src/Mem/Vmalloc/Overrun.antt =====
-- The pages that `add_block` of src/mem/vmalloc.c asks for, against what it puts there.
use lios.Prelude.{ℕ, ◌+◌, ◌*◌, ◌<◌, ◌^◌, ◌%◌, ◌≡◌, ◌↔◌, arith}
use lios.Util.KMath.Rounding.{ceil_u64_div_least}
use lios.Mem.Page.{page_size}
use lios.Mem.Vmalloc.{node_header, block_total, pages_of}

pub block_total_lem : (pages : ℕ) → pages < 2 ^ 40 → block_total (pages * 504) ≡ pages * 4095
unfolding block_total
block_total_lem pages h =
    omega (arith, ceil_u64_div_least (pages * 504) 8 (omega arith) (omega arith))

-- A block of 504 sections for each of a number of pages, as `vmalloc` and `vmalloc_init` ask for, below
-- 2 ^ 40 of them: it runs past the end of its pages, since the header of the node is not counted, exactly
-- when the number of pages leaves less than 24 over modulo 4096.
pub add_block-overrun :
    (pages : ℕ)
    → 0 < pages
    → pages < 2 ^ 40
    → (pages_of (pages * 504) * page_size < node_header + block_total (pages * 504))
      ↔ (pages % 4096 < 24)
unfolding pages_of
add_block-overrun pages pos few =
    let total = block_total_lem pages few in
    let least =
      ceil_u64_div_least (block_total (pages * 504)) page_size (omega arith) (omega arith) in
    (λ h. omega arith, λ h. omega arith)
