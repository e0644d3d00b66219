-- ===== src/Checks/Ranges.antt =====
-- Runs of the model of src/mem/vmm.c on concrete inputs.
use lios.Prelude.{ℕ, ◌+◌, ◌*◌, ◌≡◌, refl, arith, [], ◌∷◌, none, some, ◌⊎◌, u64}
use lios.Mem.Page.{page_size}
use lios.Mem.Pmm.{panic, write}
use lios.Mem.Pmm.Chain.{NotIn}
use lios.Mem.Vmm.{Kernel, FreeList, AllocList, Vmm, vmm_alloc, vmm_list_remove_node}
use lios.Mem.Vmm.Linked.{Linked}
use lios.Mem.Vmm.Ranges.{ranges, reserve}
use lios.Mem.Vmm.Removal.{IsList}
use lios.Mem.Vmm.Fit.{Reserved}
use lios.Mem.Vmm.Allocation.{handed_out, vmm_alloc-reserve}
use lios.Mem.Vmm.Tail.{vmm_list_remove_node-tail}
use lios.Mem.Vmm.Release.{tail_to_head}
use lios.Mem.Vmm.Release.Front.{tail_to_head-ranges}

abbrev zeros : ℕ → ℕ
zeros x = 0

-- Pages that follow each other, and every mapping succeeds.
abbrev kernel : Kernel
kernel = record {
  State = ℕ;
  kcalloc_page = λ s. some (s, s + 4096);
  pmm_alloc_high = λ s. some (s, s + 4096);
  pmm_free = λ a s. some s;
  page_map = λ v p k s. some s;
  page_unmap = λ v s. some s;
  page_virt_to_phys_addr = λ s a. a;
}

-- One node with three pages, and an empty one.
abbrev two_nodes : FreeList
two_nodes = record {
  prev = write zeros 64 32;
  next = write zeros 32 64;
  start = write zeros 32 0x10000;
  size = write zeros 32 0x3000;
  head = 32;
  tail = 64;
}

two_nodes-IsList : IsList two_nodes (32 ∷ 64 ∷ [])
two_nodes-IsList = (
  (refl, omega arith, refl, (refl, omega arith, refl, (refl, refl))),
  ((omega arith, tt), (tt, tt)),
)

-- A block of one page, and an empty node.
abbrev one_block : AllocList
one_block = record {
  next = write zeros 24 48;
  start = write zeros 24 0x1000;
  size = write zeros 24 1;
  head = 24;
}

abbrev allocator : Vmm kernel
allocator = record { free = two_nodes; allocated = one_block; state = 0x100000 }

vmm_alloc-reserve_example :
    ((reserve (u64 (1 * page_size)) (ranges two_nodes.start two_nodes.size (32 ∷ 64 ∷ [])) ≡ none)
      × (vmm_alloc kernel 2 5 1 allocator ≡ panic))
    ⊎ ((a : ℕ) × (free : FreeList) × Reserved
          (u64 (1 * page_size))
          (ranges two_nodes.start two_nodes.size (32 ∷ 64 ∷ []))
          a
          free
        × (vmm_alloc kernel 2 5 1 allocator ≡ handed_out kernel 2 5 1 allocator a free))
vmm_alloc-reserve_example =
    vmm_alloc-reserve kernel 2 5 1 allocator (32 ∷ 64 ∷ []) (two_nodes-IsList, refl) (omega arith)
      (omega arith)

vmm_list_remove_node-tail_example :
    (l' : FreeList) × (vmm_list_remove_node 64 two_nodes ≡ l')
    × Linked l'.next l'.prev 0 l'.head (32 ∷ []) 32
    × (l'.tail ≡ 64)
    × (l'.next 64 ≡ 64)
    × NotIn 64 (32 ∷ [])
vmm_list_remove_node-tail_example = vmm_list_remove_node-tail 64 32 two_nodes [] two_nodes-IsList

tail_to_head-ranges_example :
    (l' : FreeList) × (tail_to_head 0x20000 0x1000 two_nodes ≡ l')
    × IsList l' (64 ∷ 32 ∷ [])
    × (ranges l'.start l'.size (64 ∷ 32 ∷ [])
        ≡ (0x20000, 0x1000) ∷ ranges two_nodes.start two_nodes.size (32 ∷ 64 ∷ []))
tail_to_head-ranges_example =
    tail_to_head-ranges 0x20000 0x1000 64 32 two_nodes [] two_nodes-IsList refl (omega arith)
