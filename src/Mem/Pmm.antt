-- ===== src/Mem/Pmm.antt =====
-- The physical page allocator of src/mem/pmm.c. The list nodes lie in a heap that is given by the two
-- fields of each node address; 0 is the null pointer. Loops over a list take fuel, since the lists
-- may be cyclic: `stuck` means that the fuel ran out, and `panic` is the kernel's panic.
-- `pmm_alloc_high` unmaps a low page by `unmap`, which stands for `page_unmap`.
pub mod Chain
pub mod Alloc
pub mod Release
pub mod Split
pub mod Nodes
pub mod Pages
pub mod Building
pub mod Clearing
use lios.Prelude.{
  ℕ, zero, suc, ◌+◌, ◌-◌, ◌*◌, ◌/◌, ◌%◌, ◌^◌, Bool, true, false, not, ◌&&◌, ◌||◌, ltb, leb, ◌==◌,
  if◌then◌else◌, bit_and, u64, sub_u64, not_u64,
}
use lios.Util.KMath.{floor_u64_div}
use lios.Mem.Page.{kernel_offset, page_size}

abbrev pub two_gb : ℕ
two_gb = 2147483648

pub record Pmm : Type 0 where
  pub next : ℕ → ℕ
  pub addr : ℕ → ℕ
  pub low : ℕ
  pub high : ℕ
  pub init_temp : ℕ
  pub free_list : ℕ
  pub nodes_needed : ℕ

pub data Result (A : Type 0) : Type 0 where
  ok : A → Result A
  panic stuck : Result A

abbrev pub write : (ℕ → ℕ) → ℕ → ℕ → ℕ → ℕ
write f p v x = if x == p then v else f x

-- Nodes are 16 bytes.
unfoldable pub pmm_set_total : ℕ → Pmm → Pmm
pmm_set_total size s = record s { nodes_needed = sub_u64 (floor_u64_div size (page_size + 16)) 1 }

unfoldable pub linked_list_add_node : ℕ → Pmm → Pmm
linked_list_add_node start s =
    let node = u64 (start + kernel_offset) in
    if s.low == 0
    then record s {
      low = node;
      addr = write s.addr node 0;
      init_temp = node;
      nodes_needed = sub_u64 s.nodes_needed 1;
    }
    else record s {
      next = write s.next s.init_temp node;
      addr = write s.addr node 0;
      init_temp = node;
      nodes_needed = sub_u64 s.nodes_needed 1;
    }

-- `for (i = start; i < end && pmm_init_temp; i += PAGE_SIZE)`: gives each node its page.
unfoldable pub assign_pages : ℕ → (i end : ℕ) → Pmm → Result Pmm
assign_pages zero i end s = stuck
assign_pages (suc fuel) i end s =
    let rest =
      assign_pages fuel (u64 (i + page_size)) end
        (record s { addr = write s.addr s.init_temp i; init_temp = s.next s.init_temp }) in
    if ltb i end && not (s.init_temp == 0) then rest else ok s

-- `for (; cur < end; cur += 16)`: makes nodes until none is needed; also returns `cur`.
unfoldable pub make_nodes : ℕ → (cur end : ℕ) → Pmm → Result (ℕ × Pmm)
make_nodes zero cur end s = stuck
make_nodes (suc fuel) cur end s =
    let s' = linked_list_add_node cur s in
    let rest = make_nodes fuel (u64 (cur + 16)) end s' in
    if ltb cur end then (if s'.nodes_needed == 0 then ok (cur, s') else rest) else ok (cur, s)

-- The block that is added once all nodes are made: from the next page boundary on.
unfoldable pub add_pages : ℕ → (start end : ℕ) → Pmm → Result Pmm
add_pages fuel start end s =
    assign_pages fuel (bit_and (u64 (start + page_size - 1)) (not_u64 (page_size - 1))) end s

unfoldable pub pmm_add_block : ℕ → (start end : ℕ) → Pmm → Result Pmm
pmm_add_block fuel start end s =
    if s.nodes_needed == 0 then add_pages fuel start end s else elim (make_nodes fuel start end s) [
      | ok (cur, s') ↦
          let s'' = record s' { next = write s'.next s'.init_temp 0; init_temp = s'.low } in
          if not (s'.nodes_needed == 0)
          then ok s'
          else (if ltb cur end then add_pages fuel cur end s'' else ok s'')
      | panic ↦ panic
      | stuck ↦ stuck
    ]

-- The loop of `pmm_init_final`, at `cur`.
pub split_from : ℕ → (cur : ℕ) → Pmm → Result Pmm
split_from zero cur s = stuck
split_from (suc fuel) cur s =
    let rest = split_from fuel (s.next cur) s in
    if cur == 0
    then ok s
    else (if s.next cur == 0
        then ok s
        else (if leb two_gb (s.addr (s.next cur))
            then ok (record s { high = s.next cur; next = write s.next cur 0 })
            else rest))

pub pmm_init_final : ℕ → Pmm → Result Pmm
pmm_init_final fuel s = split_from fuel s.low s

pub pmm_alloc_low : Pmm → Result (ℕ × Pmm)
pmm_alloc_low s =
    if s.low == 0
    then panic
    else ok (
      s.addr s.low,
      record s { low = s.next s.low; next = write s.next s.low s.free_list; free_list = s.low },
    )

-- `unmap` may panic or loop, as `page_unmap` may.
pub pmm_alloc_high : (ℕ → Pmm → Result Pmm) → Pmm → Result (ℕ × Pmm)
pmm_alloc_high unmap s =
    if s.high == 0
    then elim (pmm_alloc_low s) [
      | ok (low_area, s') ↦ elim (unmap low_area s') [
        | ok s'' ↦ ok (low_area, s'')
        | panic ↦ panic
        | stuck ↦ stuck
      ]
      | panic ↦ panic
      | stuck ↦ stuck
    ]
    else ok (
      s.addr s.high,
      record s { high = s.next s.high; next = write s.next s.high s.free_list; free_list = s.high },
    )

-- The search of `pmm_free` from `cur`: the node with the address, 0 if the list ends.
pub find_node : ℕ → (mem cur : ℕ) → Pmm → Result ℕ
find_node zero mem cur s = stuck
find_node (suc fuel) mem cur s =
    let rest = find_node fuel mem (s.next cur) s in
    if cur == 0 then ok 0 else (if s.addr cur == mem then ok cur else rest)

-- What `pmm_free` does with the node that it found.
pub release_node : (mem cur : ℕ) → Pmm → Pmm
release_node mem cur s =
    if leb two_gb mem
    then record s { high = cur; next = write s.next cur s.high; addr = write s.addr cur mem }
    else record s { low = cur; next = write s.next cur s.low; addr = write s.addr cur mem }

pub pmm_free : ℕ → ℕ → Pmm → Result Pmm
pmm_free fuel mem s = elim (find_node fuel mem s.free_list s) [
  | ok cur ↦ if cur == 0 then panic else ok (release_node mem cur s)
  | panic ↦ panic
  | stuck ↦ stuck
]

-- The loop of `pmm_clear_blocks`: the last node at or below `limit`, and the first at or above `end`.
unfoldable pub find_range : ℕ → (limit end cur start_node : ℕ) → Pmm → Result (ℕ × ℕ)
find_range zero limit end cur start_node s = stuck
find_range (suc fuel) limit end cur start_node s =
    let start_node' = if leb (s.addr cur) limit then cur else start_node in
    let rest = find_range fuel limit end (s.next cur) start_node' s in
    if cur == 0
    then ok (start_node, 0)
    else (if leb end (s.addr cur) then ok (start_node', cur) else rest)

unfoldable pub pmm_clear_blocks : ℕ → (start end : ℕ) → Pmm → Result Pmm
pmm_clear_blocks fuel start end s =
    elim (find_range fuel (sub_u64 start page_size) end s.high 0 s) [
      | ok (start_node, end_node) ↦
          if start_node == 0 || end_node == 0
          then ok s
          else ok (record s { next = write s.next start_node (s.next end_node) })
      | panic ↦ panic
      | stuck ↦ stuck
    ]
