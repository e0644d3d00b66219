-- ===== src/Mem/Vmm/Allocation.antt =====
-- `vmm_alloc` of src/mem/vmm.c as the first fit on the free ranges.
use lios.Prelude.{
  ℕ, ◌*◌, ◌<◌, ◌≡◌, ◌≢◌, refl, arith, true, false, ◌==◌, List, length, none, ◌⊎◌, inl, inr, u64,
}
use lios.Mem.Page.{page_size}
use lios.Mem.Pmm.{Result, ok, panic}
use lios.Mem.Vmm.{Kernel, FreeList, Vmm, ◌>>=◌, take_from, map_new, alloc_list_add_node, vmm_alloc}
use lios.Mem.Vmm.Fit.{IsFree, Reserved, find_fit-reserve}
use lios.Mem.Vmm.Ranges.{ranges, reserve}

-- What `vmm_alloc` does once the address and the free list are chosen.
abbrev pub handed_out :
    (K : Kernel) (calls fuel pages : ℕ) → Vmm K → ℕ → FreeList → Result (Vmm K × ℕ)
handed_out K calls fuel pages v a free = map_new K pages 0 a v.state >>= λ s.
    alloc_list_add_node K calls fuel a pages (v.allocated, s) >>= λ r.
    ok (record { free = free; allocated = r.0; state = r.1 }, a)

-- For a request whose size is not 0 modulo 2 ^ 64, on a free list with an empty node at its tail and with more
-- fuel than the list has nodes: `vmm_alloc` panics if no free range is large enough. Otherwise the address is the
-- start of the first one that is, the new free list holds the ranges that are left and has an empty
-- node at its tail, and what is left to do is to map the pages and to note the block.
pub vmm_alloc-reserve :
    (K : Kernel) (calls fuel pages : ℕ) (v : Vmm K) (ns : List ℕ)
    → IsFree v.free ns
    → u64 (pages * page_size) ≢ 0
    → length ns < fuel
    → ((reserve (u64 (pages * page_size)) (ranges v.free.start v.free.size ns) ≡ none)
        × (vmm_alloc K calls fuel pages v ≡ panic))
      ⊎ ((a : ℕ) × (free : FreeList) × Reserved
            (u64 (pages * page_size))
            (ranges v.free.start v.free.size ns)
            a
            free
          × (vmm_alloc K calls fuel pages v ≡ handed_out K calls fuel pages v a free))
unfolding vmm_alloc
vmm_alloc-reserve K calls fuel pages v ns c y f =
    let request = u64 (pages * page_size) in
    let (cur, found, what) = find_fit-reserve fuel request v.free ns c y f in
    elim what [
      | inl (z, nothing) ↦
          inl (nothing, (let e : (cur == 0) ≡ true = ground arith in rw (found, e) refl))
      | inr (z, reserved) ↦ inr (
        v.free.start cur,
        take_from request cur v.free,
        reserved,
        (let e : (cur == 0) ≡ false = ground arith in rw (found, e) refl),
      )
    ]
