-- ===== src/Checks/Heap.antt =====
-- Runs of the model of src/mem/vmalloc.c on concrete inputs.
use lios.Prelude.{ℕ, ◌+◌, ◌*◌, ◌<◌, ◌≡◌, ◌↔◌, ◌%◌, refl, arith, true, List, [], ◌∷◌, some}
use lios.Mem.Page.{page_size}
use lios.Mem.Vmalloc.{
  mark_bits, fill_bytes, mark_sections, Node, Pages, Heap, node_header, block_total, pages_of,
  mark_bitmap, search, alloc_in,
}
use lios.Mem.Vmalloc.Bitmap.{Bytes, Marked, mark_bitmap-Marked}
use lios.Mem.Vmalloc.Search.{one_by_one, search-one_by_one}
use lios.Mem.Vmalloc.Allocation.{IsNode, Allocated, alloc_in-Allocated}
use lios.Mem.Vmalloc.Overrun.{add_block-overrun}

abbrev empty : ℕ → ℕ
empty x = 0

empty-Bytes : Bytes empty
empty-Bytes x = omega arith

-- Across the ends of three bytes.
mark_bitmap-Marked_example :
    (mem' : ℕ → ℕ) × (mark_bitmap 5 14 true empty ≡ some mem') × Marked true 5 (5 + 14) empty mem'
mark_bitmap-Marked_example =
    mark_bitmap-Marked 5 14 true empty empty-Bytes (omega arith) (omega arith)

search-one_by_one_example : search (504 + 1) 100 504 empty 0 0 0 ≡ one_by_one 504 100 empty 0 0 0
search-one_by_one_example =
    search-one_by_one 100 empty 504 (omega arith) (omega arith) (omega arith)

add_block-overrun_example :
    (pages_of (4097 * 504) * page_size < node_header + block_total (4097 * 504))
    ↔ (4097 % 4096 < 24)
add_block-overrun_example = add_block-overrun 4097 (omega arith) (omega arith)

-- The heap after `vmalloc_init`: one node of 504 sections at 0x10000.
abbrev node : Node
node = record { addr = 0x10000; bitmap_size = 504; total_size = 4095; mem = empty }

node-IsNode : IsNode node
node-IsNode = record { big = omega arith; small = omega arith; bytes = empty-Bytes }

alloc_in-Allocated_example : Allocated 13 (node ∷ []) (alloc_in 13 (node ∷ []))
alloc_in-Allocated_example = alloc_in-Allocated 13 (node ∷ []) (omega arith) (node-IsNode, tt)

-- Pages that follow each other.
abbrev pages : Pages
pages = record { Pool = ℕ; vmm_alloc = λ n p. some (p, p + n * 4096); vmm_free = λ a p. some p }

abbrev heap : Heap pages (λ a. empty)
heap = record { nodes = node ∷ []; sizes = λ a. 0; pool = 0x20000 }

-- A second node on the next page.
abbrev second : Node
second = record { addr = 0x11000; bitmap_size = 504; total_size = 4095; mem = empty }

abbrev two_nodes : Heap pages (λ a. empty)
two_nodes = record { nodes = node ∷ second ∷ []; sizes = λ a. 0; pool = 0x20000 }

abbrev marked : ℕ → ℕ
marked = mark_bits 5 0 1 true (mark_bits 8 0 0 true empty)

first_marks : mark_bitmap 0 13 true empty ≡ some marked
unfolding mark_bitmap mark_sections fill_bytes
first_marks = refl

abbrev after_alloc : List Node
after_alloc = record node { mem = marked } ∷ second ∷ []
