-- ===== src/Mem/Pmm/Nodes.antt =====
-- The nodes that `pmm_add_block` of src/mem/pmm.c lays out at the start of the first block.
use lios.Prelude.{
  ℕ, zero, suc, ◌+◌, ◌*◌, ◌^◌, ◌<◌, ◌≡◌, ◌≢◌, ◌∙◌, refl, ap, ap₂, arith, true, false, ltb, ◌==◌,
  List, [], ◌∷◌, map, replicate, u64, sub_u64,
}
use lios.Mem.Page.{kernel_offset}
use lios.Mem.Pmm.{Pmm, ok, write, linked_list_add_node, make_nodes}
use lios.Mem.Pmm.Chain.{Chain, write_other, write_self}

-- The addresses of nodes of 16 bytes that follow each other from the physical address `cur`.
abbrev pub nodes_at : (count cur : ℕ) → List ℕ
nodes_at zero cur = []
nodes_at (suc k) cur = (cur + kernel_offset) ∷ nodes_at k (cur + 16)

-- Nodes `0` to `k` were made from `cur` on, behind the node `init_temp`.
pub record Made (s s' : Pmm) (k cur : ℕ) : Type 0 where
  pub low : s'.low ≡ s.low
  pub none_needed : s'.nodes_needed ≡ 0
  pub last : s'.init_temp ≡ cur + 16 * k + kernel_offset
  pub first : s'.next s.init_temp ≡ cur + kernel_offset
  pub chained : Chain (write s'.next s'.init_temp 0) (cur + kernel_offset) (nodes_at (suc k) cur)
  pub empty : map s'.addr (nodes_at (suc k) cur) ≡ replicate (suc k) 0
  pub next_below : (x : ℕ) → x < cur + kernel_offset → x ≢ s.init_temp → s'.next x ≡ s.next x
  pub addr_below : (x : ℕ) → x < cur + kernel_offset → s'.addr x ≡ s.addr x

-- The state after a node is added behind the last one.
abbrev with_node : (cur k : ℕ) → Pmm → Pmm
with_node cur k s = record s {
  next = write s.next s.init_temp (cur + kernel_offset);
  addr = write s.addr (cur + kernel_offset) 0;
  init_temp = cur + kernel_offset;
  nodes_needed = k;
}

linked_list_add_node_behind :
    (cur k : ℕ) (s : Pmm)
    → s.low ≢ 0
    → s.nodes_needed ≡ suc k
    → k < 2 ^ 31
    → cur < 2 ^ 31
    → linked_list_add_node cur s ≡ with_node cur k s
unfolding linked_list_add_node
linked_list_add_node_behind cur k s y n b c =
    let full : (s.low == 0) ≡ false = ground arith in
    let fits : u64 (cur + kernel_offset) ≡ cur + kernel_offset = omega arith in
    let less : sub_u64 (suc k) 1 ≡ k = omega arith in rw (full, fits, n, less) refl

Made-one :
    (cur : ℕ) (s : Pmm) → s.init_temp < cur + kernel_offset → Made s (with_node cur 0 s) 0 cur
Made-one cur s t = record {
  low = refl;
  none_needed = refl;
  last = omega arith;
  first = write_self s.next s.init_temp (cur + kernel_offset);
  chained = (
    refl,
    omega arith,
    write_self (write s.next s.init_temp (cur + kernel_offset)) (cur + kernel_offset) 0,
  );
  empty = ap (λ a. a ∷ []) (write_self s.addr (cur + kernel_offset) 0);
  next_below = λ x f ne. write_other s.next s.init_temp (cur + kernel_offset) x ne;
  addr_below = λ x f. write_other s.addr (cur + kernel_offset) 0 x (λ e. omega arith);
}

Made-more :
    (k cur : ℕ) (s s' : Pmm)
    → s.init_temp < cur + kernel_offset
    → Made (with_node cur (suc k) s) s' k (cur + 16)
    → Made s s' (suc k) cur
Made-more k cur s s' t m =
    let here = cur + kernel_offset in
    let first : s'.next s.init_temp ≡ here =
      m.next_below s.init_temp (omega arith) (λ e. omega arith)
      ∙ write_self s.next s.init_temp here in
    record {
      low = m.low;
      none_needed = m.none_needed;
      last = m.last ∙ omega arith;
      first = first;
      chained = (
        refl,
        omega arith,
        (
          write_other s'.next s'.init_temp 0 here (λ e. let l = m.last in omega arith) ∙ m.first,
          m.chained.1,
          m.chained.2,
        ),
      );
      empty =
          ap₂ (λ a rest. a ∷ rest) (m.addr_below here (omega arith) ∙ write_self s.addr here 0)
            m.empty;
      next_below = λ x f ne.
          m.next_below x (omega arith) (λ e. omega arith)
          ∙ write_other s.next s.init_temp here x ne;
      addr_below =
          λ x f. m.addr_below x (omega arith) ∙ write_other s.addr here 0 x (λ e. omega arith);
    }

make_nodes-again :
    (fuel k cur end : ℕ) (s : Pmm)
    → s.low ≢ 0
    → s.nodes_needed ≡ suc (suc k)
    → k < 2 ^ 30
    → cur < 2 ^ 31
    → cur < end
    → make_nodes (suc fuel) cur end s ≡ make_nodes fuel (cur + 16) end (with_node cur (suc k) s)
unfolding make_nodes
make_nodes-again fuel k cur end s y n b b' f =
    let fits : ltb cur end ≡ true = ground arith in
    let made = linked_list_add_node_behind cur (suc k) s y n (omega arith) (omega arith) in
    let step : u64 (cur + 16) ≡ cur + 16 = omega arith in
    let more : (suc k == 0) ≡ false = ground arith in rw (made, fits, step, more) refl

pub make_nodes-Made :
    (fuel k cur end : ℕ) (s : Pmm)
    → s.low ≢ 0
    → s.nodes_needed ≡ suc k
    → s.init_temp < cur + kernel_offset
    → cur + 16 * k < end
    → cur + 16 * k < 2 ^ 31
    → k < fuel
    → (s' : Pmm) × (make_nodes fuel cur end s ≡ ok (cur + 16 * k, s')) × Made s s' k cur
unfolding make_nodes linked_list_add_node
make_nodes-Made zero k cur end s y n t e b f = elim f [ ]
make_nodes-Made (suc fuel) zero cur end s y n t e b f =
    let fits : ltb cur end ≡ true = ground arith in
    let made = linked_list_add_node_behind cur 0 s y n (omega arith) (omega arith) in
    (
      with_node cur 0 s,
      rw (made, fits) (ap (λ t. ok (t, with_node cur 0 s)) (omega arith)),
      Made-one cur s t,
    )
make_nodes-Made (suc fuel) (suc k) cur end s y n t e b f =
    let again = make_nodes-again fuel k cur end s y n (omega arith) (omega arith) (omega arith) in
    let (s', e', m) =
      make_nodes-Made fuel k (cur + 16) end (with_node cur (suc k) s) y refl (omega arith)
        (omega arith) (omega arith) (omega arith) in
    (s', again ∙ (e' ∙ ap (λ t. ok (t, s')) (omega arith)), Made-more k cur s s' t m)
