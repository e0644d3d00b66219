-- ===== src/Mem/Vmalloc/Growth.antt =====
-- That `vmalloc` of src/mem/vmalloc.c ends: the block that it adds has room, at the latest the second.
use lios.Prelude.{ℕ, ◌+◌, ◌*◌, u64}
use lios.Util.KMath.{ceil_u64_div}
use lios.Mem.Vmalloc.{Pages, Heap, Result, ok, panic, out_of_fuel, section_size, block_header}
use lios.Mem.Vmalloc.Bitmap.{Bytes}
use lios.Mem.Vmalloc.Allocation.{AllNodes}

-- What a call returns: a heap of nodes, or a panic of the page allocator; it does not run out of fuel.
module _ (P : Pages) (old : ℕ → ℕ → ℕ) (bytes : (a : ℕ) → Bytes (old a)) where
  abbrev pub Ends : Result P old (Heap P old × ℕ) → Type 0
  Ends (ok (h, a)) = AllNodes h.nodes
  Ends panic = Unit {0}
  Ends out_of_fuel = ⊥

  needed_of : ℕ → ℕ
  needed_of size = ceil_u64_div (u64 (size + block_header)) section_size

  wanted_of : ℕ → ℕ
  wanted_of size = u64 (ceil_u64_div (u64 (size + block_header)) 4032 * 504)
