-- ===== src/Mem/Vmm.antt =====
-- The virtual page allocator of src/mem/vmm.c. The nodes of its two lists lie in a heap that is given by
-- their fields, one map for each; 0 is the null pointer. Page frames and mappings are a parameter,
-- `Kernel`, where `none` is a panic. Loops over a list take fuel, since a list may be cyclic: `stuck`
-- means that it ran out. The messages are left out.
pub mod Release
pub mod Allocated
pub mod Linked
pub mod Removal
pub mod Tail
pub mod Ranges
pub mod Fit
pub mod Nodes
pub mod Startup
pub mod Allocation
use lios.Prelude.{
  ℕ, zero, suc, ◌+◌, ◌-◌, ◌*◌, ◌/◌, Bool, true, false, not, ◌&&◌, leb, ◌==◌, if◌then◌else◌, Option,
  none, some, u64, sub_u64,
}
use lios.Util.KMath.{floor_u32_div}
use lios.Mem.Page.{page_size}
use lios.Mem.Pmm.{Result, ok, panic, stuck, write}

pub record Kernel : Type 1 where
  pub State : Type 0
  pub kcalloc_page : State → Option (ℕ × State)
  pub pmm_alloc_high : State → Option (ℕ × State)
  pub pmm_free : ℕ → State → Option State
  pub page_map : (virt phys : ℕ) (kernel : Bool) → State → Option State
  pub page_unmap : ℕ → State → Option State
  pub page_virt_to_phys_addr : State → ℕ → ℕ

-- The fields of `struct VirtFreeListNode`, and the ends of the list.
pub record FreeList : Type 0 where
  pub prev : ℕ → ℕ
  pub next : ℕ → ℕ
  pub start : ℕ → ℕ
  pub size : ℕ → ℕ
  pub head : ℕ
  pub tail : ℕ

-- The fields of `struct VirtAllocatedNode`.
pub record AllocList : Type 0 where
  pub next : ℕ → ℕ
  pub start : ℕ → ℕ
  pub size : ℕ → ℕ
  pub head : ℕ

abbrev pub free_node_size : ℕ
free_node_size = 32

abbrev pub allocated_node_size : ℕ
allocated_node_size = 24

infixl 5 ◌>>=◌
abbrev pub ◌>>=◌ : {A B : Type 0} → Result A → (A → Result B) → Result B
ok a >>= f = f a
panic >>= f = panic
stuck >>= f = stuck

abbrev pub or_panic : {A : Type 0} → Option A → Result A
or_panic none = panic
or_panic (some a) = ok a

-- The loop of `set_up_page_for_alloc_list` at a node, with the rounds left.
unfoldable pub chain_allocated : (rounds cur : ℕ) → AllocList → AllocList
chain_allocated zero cur l = record l { next = write l.next cur 0 }
chain_allocated (suc n) cur l =
    let new = cur + allocated_node_size in
    chain_allocated n new (record l {
      next = write l.next cur new;
      start = write l.start new 0;
      size = write l.size new 0;
    })

unfoldable pub set_up_page_for_alloc_list : ℕ → AllocList → AllocList
set_up_page_for_alloc_list node l =
    chain_allocated (floor_u32_div page_size allocated_node_size - 1) node
      (record l { start = write l.start node 0; size = write l.size node 0 })

pub chain_free : (rounds cur : ℕ) → FreeList → FreeList
chain_free zero cur l = record l { tail = cur; next = write l.next cur 0 }
chain_free (suc n) cur l =
    let new = cur + free_node_size in
    chain_free n new (record l {
      next = write l.next cur new;
      prev = write l.prev new cur;
      start = write l.start new 0;
      size = write l.size new 0;
    })

pub set_up_page_for_free_list : ℕ → FreeList → FreeList
set_up_page_for_free_list node l =
    chain_free (floor_u32_div page_size free_node_size - 1) node
      (record l { prev = write l.prev node 0 })

pub vmm_list_remove_node : ℕ → FreeList → FreeList
vmm_list_remove_node node l =
    let before = l.prev node in
    let after = l.next node in
    -- the neighbours skip the node
    let prev1 = if after == 0 then l.prev else write l.prev after before in
    let next1 = if before == 0 then l.next else write l.next before after in
    record {
      start = write l.start node 0;
      size = write l.size node 0;
      head = if before == 0 then after else l.head;
      -- the node goes behind the tail
      prev = write prev1 node l.tail;
      next = write (write next1 node 0) l.tail node;
      tail = node;
    }

-- The first node without a block, or the last node, where the search ends.
pub data Slot : Type 0 where
  empty last : ℕ → Slot

pub find_slot : (fuel cur : ℕ) → AllocList → Result Slot
find_slot zero cur l = stuck
find_slot (suc fuel) cur l =
    let rest = find_slot fuel (l.next cur) l in
    if l.start cur == 0 && l.size cur == 0
    then ok (empty cur)
    else (if l.next cur == 0 then ok (last cur) else rest)

-- The size of the block at an address, and the list without it.
pub alloc_list_find_and_remove : (fuel start cur : ℕ) → AllocList → Result (ℕ × AllocList)
alloc_list_find_and_remove zero start cur l = stuck
alloc_list_find_and_remove (suc fuel) start cur l =
    let rest = alloc_list_find_and_remove fuel start (l.next cur) l in
    if cur == 0
    then panic
    else (if l.start cur == start
        then ok (l.size cur, record l { start = write l.start cur 0; size = write l.size cur 0 })
        else rest)

-- The search of `vmm_alloc` from a node: the first one that is large enough, 0 if there is none.
pub find_fit : (fuel request_size cur : ℕ) → FreeList → Result ℕ
find_fit zero request_size cur l = stuck
find_fit (suc fuel) request_size cur l =
    let rest = find_fit fuel request_size (l.next cur) l in
    if cur == 0 then ok 0 else (if leb request_size (l.size cur) then ok cur else rest)

-- The pages asked for are cut off the block of the node.
pub take_from : (request_size cur : ℕ) → FreeList → FreeList
take_from request_size cur l =
    if l.size cur == request_size then vmm_list_remove_node cur l else record l {
      start = write l.start cur (u64 (l.start cur + request_size));
      size = write l.size cur (l.size cur - request_size);
    }

module _ (K : Kernel) where
  open K use {State, kcalloc_page, pmm_alloc_high, page_map, page_unmap}

  pub record Vmm : Type 0 where
    pub free : FreeList
    pub allocated : AllocList
    pub state : State

  -- With one call for each page that is added, so fuel for those calls too.
  pub alloc_list_add_node :
      (calls fuel start size : ℕ) → AllocList × State → Result (AllocList × State)
  alloc_list_add_node zero fuel start size (l, s) = stuck
  alloc_list_add_node (suc calls) fuel start size (l, s) = find_slot fuel l.head l >>= λ slot.
      elim slot [
        | empty cur ↦
            ok (record l { start = write l.start cur start; size = write l.size cur size }, s)
        | last cur ↦ or_panic (kcalloc_page s) >>= λ p.
            let l' = set_up_page_for_alloc_list p.0 l in
            alloc_list_add_node calls fuel start size
              (record l' { next = write l'.next cur p.0 }, p.1)
      ]

  -- A new frame for each page, from page `i` on.
  unfoldable pub map_new : (rounds i start : ℕ) → State → Result State
  map_new zero i start s = ok s
  map_new (suc n) i start s =
      let virt = u64 (start + i * page_size) in
      or_panic (pmm_alloc_high s) >>= λ p. or_panic (page_unmap virt p.1) >>= λ s.
      or_panic (page_map virt p.0 true s) >>= λ s. map_new n (i + 1) start s

  pub vmm_init : State → Result Vmm
  vmm_init s = or_panic (kcalloc_page s) >>= λ p.
      let zeros : ℕ → ℕ = λ x. 0 in
      let first : FreeList = record {
        prev = zeros;
        next = zeros;
        start = write zeros p.0 0xFFFFF00000000000;
        size = write zeros p.0 (0xFFFFFFFF80000000 - 0xFFFFF00000000000);
        head = p.0;
        tail = 0;
      } in
      or_panic (kcalloc_page p.1) >>= λ q. ok (record {
        free = set_up_page_for_free_list p.0 first;
        allocated =
            set_up_page_for_alloc_list q.0
              (record { next = zeros; start = zeros; size = zeros; head = q.0 });
        state = q.1;
      })

  pub vmm_alloc : (calls fuel pages : ℕ) → Vmm → Result (Vmm × ℕ)
  vmm_alloc calls fuel pages v =
      let request_size = u64 (pages * page_size) in
      find_fit fuel request_size v.free.head v.free >>= λ cur.
      if cur == 0
      then panic
      else (let start = v.free.start cur in
          map_new pages 0 start v.state >>= λ s.
          alloc_list_add_node calls fuel start pages (v.allocated, s) >>= λ r. ok (
            record { free = take_from request_size cur v.free; allocated = r.0; state = r.1 },
            start,
          ))
