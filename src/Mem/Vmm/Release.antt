-- ===== src/Mem/Vmm/Release.antt =====
-- `vmm_free` of src/mem/vmm.c: the frames are given back, and the block is merged with a free neighbour,
-- and then with the other one, or else put into the node at the tail of the list, which goes to its head.
pub mod Front
pub mod Covers
pub mod Merging
use lios.Prelude.{ℕ, zero, suc, ◌+◌, ◌*◌, true, not, ◌&&◌, ◌==◌, if◌then◌else◌, u64, sub_u64}
use lios.Mem.Page.{page_size, kernel_offset}
use lios.Mem.Pmm.{Result, ok, stuck, write}
use lios.Mem.Vmm.{
  Kernel, FreeList, Vmm, ◌>>=◌, or_panic, set_up_page_for_free_list, vmm_list_remove_node,
  alloc_list_find_and_remove,
}

-- A node whose block the freed one was added to, with the bounds of the two together; or the last node.
pub data Merge : Type 0 where
  merged : (node block_start block_end : ℕ) → FreeList → Merge
  unmerged : ℕ → Merge

pub find_merge : (fuel block_start block_end cur : ℕ) → FreeList → Result Merge
find_merge zero block_start block_end cur l = stuck
find_merge (suc fuel) block_start block_end cur l =
    let start = l.start cur in
    let size = l.size cur in
    let added = sub_u64 block_end block_start in
    let rest = find_merge fuel block_start block_end (l.next cur) l in
    if block_start == u64 (start + size)
    then ok (merged cur start block_end (record l { size = write l.size cur (u64 (size + added)) }))
    else (if block_end == start
        then (let start' = sub_u64 start added in
            let size' = u64 (size + added) in
            ok (
              merged cur block_start (u64 (start' + size'))
                (record l { start = write l.start cur start'; size = write l.size cur size' })))
        else (if l.next cur == 0 then ok (unmerged cur) else rest))

-- The second loop, which takes away the node that was merged with.
unfoldable merge_again : (fuel node block_start block_end cur : ℕ) → FreeList → Result FreeList
merge_again zero node block_start block_end cur l = stuck
merge_again (suc fuel) node block_start block_end cur l =
    let start = l.start cur in
    let size = l.size cur in
    let added = sub_u64 block_end block_start in
    let rest = merge_again fuel node block_start block_end (l.next cur) l in
    if cur == 0
    then ok l
    else (if block_start == u64 (start + size)
        then ok
            (vmm_list_remove_node node (record l { size = write l.size cur (u64 (size + added)) }))
        else (if block_end == start
            then ok (
                vmm_list_remove_node node (record l {
                  start = write l.start cur (sub_u64 start added);
                  size = write l.size cur (u64 (size + added));
                }))
            else rest))

-- The node at the tail takes the block and becomes the head.
pub tail_to_head : (block_start size : ℕ) → FreeList → FreeList
tail_to_head block_start size l =
    let cur = l.tail in
    let tail = l.prev cur in
    let next = write (write l.next tail 0) cur l.head in
    record {
      prev = write (write l.prev cur 0) l.head cur;
      next = next;
      start = write l.start cur block_start;
      size = write l.size cur size;
      head = cur;
      tail = tail;
    }

module _ (K : Kernel) where
  open K use {State, kcalloc_page, pmm_free, page_map, page_unmap, page_virt_to_phys_addr}

  unfoldable unmap_block : (rounds i start : ℕ) → State → Result State
  unmap_block zero i start s = ok s
  unmap_block (suc n) i start s =
      let virt = u64 (start + i * page_size) in
      or_panic (pmm_free (page_virt_to_phys_addr s virt) s) >>= λ s.
      or_panic (page_unmap virt s) >>= λ s.
      or_panic (page_map virt (sub_u64 virt kernel_offset) true s) >>= λ s.
      unmap_block n (i + 1) start s

  -- A new page of nodes behind the node `last` if the tail holds a block.
  unfoldable spare_tail : (last : ℕ) → FreeList × State → Result (FreeList × State)
  spare_tail last (l, s) =
      if not (l.start l.tail == 0) && not (l.size l.tail == 0)
      then (or_panic (kcalloc_page s) >>= λ p.
          let zeroed = record l { start = write l.start p.0 0; size = write l.size p.0 0 } in
          let l' = set_up_page_for_free_list p.0 zeroed in
          ok (record l' { next = write l'.next last p.0 }, p.1))
      else ok (l, s)

  unfoldable vmm_free : (fuel mem : ℕ) → Vmm K → Result (Vmm K)
  vmm_free fuel mem v = alloc_list_find_and_remove fuel mem v.allocated.head v.allocated >>= λ r.
      let bytes = u64 (r.0 * page_size) in
      unmap_block r.0 0 mem v.state >>= λ s.
      find_merge fuel mem (u64 (mem + bytes)) v.free.head v.free >>= λ m. elim m [
        | merged node block_start block_end l ↦
            merge_again fuel node block_start block_end l.head l >>= λ l'.
            ok (record { free = l'; allocated = r.1; state = s })
        | unmerged last ↦ spare_tail last (v.free, s) >>= λ t.
            ok (record { free = tail_to_head mem bytes t.0; allocated = r.1; state = t.1 })
      ]
