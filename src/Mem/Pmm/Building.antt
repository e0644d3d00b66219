-- ===== src/Mem/Pmm/Building.antt =====
-- The first block that `pmm_add_block` of src/mem/pmm.c is given: it holds the nodes, and its other pages.
use lios.Prelude.{
  ℕ, zero, suc, ◌+◌, ◌-◌, ◌*◌, ◌%◌, ◌^◌, ◌≤◌, ◌<◌, ◌≡◌, ◌∙◌, refl, sym, subst, ap, ap₂, arith, true,
  false, ltb, ◌==◌, List, ◌∷◌, length, map, replicate, u64, sub_u64,
}
use lios.Mem.Page.{page_size, kernel_offset}
use lios.Mem.Pmm.{Pmm, ok, write, linked_list_add_node, make_nodes, pmm_add_block}
use lios.Mem.Pmm.Chain.{Chain, NotIn, write_other, write_self}
use lios.Mem.Pmm.Split.{Distinct}
use lios.Mem.Pmm.Nodes.{nodes_at, Made, make_nodes-Made}
use lios.Mem.Pmm.Pages.{dealt, undealt, page_up, add_pages-Dealt}

nodes_at-NotIn : (count cur x : ℕ) → x < cur + kernel_offset → NotIn x (nodes_at count cur)
nodes_at-NotIn zero cur x f = tt
nodes_at-NotIn (suc n) cur x f = (λ e. omega arith, nodes_at-NotIn n (cur + 16) x (omega arith))

nodes_at-Distinct : (count cur : ℕ) → Distinct (nodes_at count cur)
nodes_at-Distinct zero cur = tt
nodes_at-Distinct (suc n) cur = (
  nodes_at-NotIn n (cur + 16) (cur + kernel_offset) (omega arith),
  nodes_at-Distinct n (cur + 16),
)

length-nodes_at : (count cur : ℕ) → length (nodes_at count cur) ≡ count
length-nodes_at zero cur = refl
length-nodes_at (suc n) cur = omega (arith, length-nodes_at n (cur + 16))

-- The state after the first node.
abbrev with_first : (start k : ℕ) → Pmm → Pmm
with_first start k s = record s {
  low = start + kernel_offset;
  addr = write s.addr (start + kernel_offset) 0;
  init_temp = start + kernel_offset;
  nodes_needed = suc k;
}

make_nodes-first :
    (fuel k start end : ℕ) (s : Pmm)
    → s.low ≡ 0
    → s.nodes_needed ≡ suc (suc k)
    → k < 2 ^ 30
    → start < 2 ^ 31
    → start < end
    → make_nodes (suc fuel) start end s ≡ make_nodes fuel (start + 16) end (with_first start k s)
unfolding make_nodes linked_list_add_node
make_nodes-first fuel k start end s y n b b' f =
    let fits : ltb start end ≡ true = ground arith in
    let address : u64 (start + kernel_offset) ≡ start + kernel_offset = omega arith in
    let empty : (s.low == 0) ≡ true = ground arith in
    let less : sub_u64 (suc (suc k)) 1 ≡ suc k = omega arith in
    let step : u64 (start + 16) ≡ start + 16 = omega arith in
    let more : (suc k == 0) ≡ false = ground arith in
    rw (fits, n, empty, address, less, step, more) refl

-- The list once its end is set, and its search for free nodes starts at its head.
abbrev closed : Pmm → Pmm
closed s = record s { next = write s.next s.init_temp 0; init_temp = s.low }

closed-Chain :
    (k start : ℕ) (s s' : Pmm)
    → Made (with_first start k s) s' k (start + 16)
    → Chain (closed s').next s'.low (nodes_at (suc (suc k)) start)
closed-Chain k start s s' m =
    let apart =
      write_other s'.next s'.init_temp 0 (start + kernel_offset)
        (λ e. let l = m.last in omega arith) in
    (m.low, omega arith, (apart ∙ m.first, m.chained.1, m.chained.2))

-- What the first block becomes: a list of `count` nodes from its start on, and the pages behind the last
-- node given to them.
pub record Built (s : Pmm) (count start end : ℕ) : Type 0 where
  pub head : s.low ≡ start + kernel_offset
  pub needed : s.nodes_needed ≡ 0
  pub nodes : Chain s.next s.low (nodes_at count start)
  pub pages :
      map s.addr (nodes_at count start)
      ≡ dealt (replicate count 0) (page_up (start + 16 * (count - 1))) end
  pub left :
      Chain s.next s.init_temp
        (undealt (nodes_at count start) (page_up (start + 16 * (count - 1))) end)

-- Before any block, with at least two nodes needed and a block that has room for more than them below
-- 2 GiB: `pmm_add_block` lays the nodes out from its start on, one behind the other, as one list, and
-- gives them the pages from the first page boundary at or behind the last node's own address on that
-- begin before the end of the block, in order. With more fuel than nodes.
pub pmm_add_block-Built :
    (fuel k start end : ℕ) (s : Pmm)
    → s.low ≡ 0
    → s.nodes_needed ≡ suc (suc k)
    → start + 16 * (suc k) < end
    → start + 16 * (suc k) < 2 ^ 31
    → end + page_size ≤ 2 ^ 64
    → suc (suc k) < fuel
    → (s' : Pmm) × (pmm_add_block fuel start end s ≡ ok s') × Built s' (suc (suc k)) start end
unfolding pmm_add_block
pmm_add_block-Built zero k start end s y n r b b' f = elim f [ ]
pmm_add_block-Built (suc fuel) k start end s y n r b b' f =
    let (s₁, e, m) =
      make_nodes-Made fuel k (start + 16) end (with_first start k s) (λ z. omega arith) refl
        (omega arith) (omega arith) (omega arith) (omega arith) in
    let made =
      make_nodes-first fuel k start end s y n (omega arith) (omega arith) (omega arith) ∙ e in
    let count = suc (suc k) in
    let (s', e', d) =
      add_pages-Dealt (suc fuel) (start + 16 + 16 * k) end (closed s₁) (nodes_at count start)
        (closed-Chain k start s s₁ m) (nodes_at-Distinct count start) (omega arith) b'
        (omega (arith, length-nodes_at count start)) in
    let some_needed : (s.nodes_needed == 0) ≡ false = ground arith in
    let done : (s₁.nodes_needed == 0) ≡ true = (let z = m.none_needed in ground arith) in
    let inside : ltb (start + 16 + 16 * k) end ≡ true = ground arith in
    let empty : map s₁.addr (nodes_at count start) ≡ replicate count 0 =
      ap₂ (λ a rest. a ∷ rest)
        (m.addr_below (start + kernel_offset) (omega arith)
          ∙ write_self s.addr (start + kernel_offset) 0)
        m.empty in
    let last : start + 16 + 16 * k ≡ start + 16 * (count - 1) = omega arith in
    (
      s',
      rw (some_needed, made, done, inside) e',
      record {
        head = d.low ∙ m.low;
        needed = d.needed ∙ m.none_needed;
        nodes =
            subst (λ h. Chain s'.next h (nodes_at count start)) (sym d.low)
              (subst (λ x. Chain x s₁.low (nodes_at count start)) (sym d.links)
                (closed-Chain k start s s₁ m));
        pages = d.pages ∙ ap₂ (λ ns x. dealt ns (page_up x) end) empty last;
        left =
            subst (λ x. Chain s'.next s'.init_temp (undealt (nodes_at count start) (page_up x) end))
              last d.left;
      },
    )

first_of : (a b : ℕ) (rest more : List ℕ) → ◌≡◌ {A = List ℕ} (a ∷ rest) (b ∷ more) → a ≡ b
first_of a b rest more e = cc

-- If the last node lies at a page boundary, the first page that is given away is the page that begins
-- with this node.
pub pmm_add_block-own_node :
    (fuel k start end : ℕ) (s : Pmm)
    → s.low ≡ 0
    → s.nodes_needed ≡ suc (suc k)
    → start + 16 * (suc k) < end
    → start + 16 * (suc k) < 2 ^ 31
    → end + page_size ≤ 2 ^ 64
    → suc (suc k) < fuel
    → (start + 16 * (suc k)) % page_size ≡ 0
    → (s' : Pmm) × (pmm_add_block fuel start end s ≡ ok s')
      × Built s' (suc (suc k)) start end
      × (s'.addr s'.low ≡ start + 16 * (suc k))
pmm_add_block-own_node fuel k start end s y n r b b' f boundary =
    let (s', e, m) = pmm_add_block-Built fuel k start end s y n r b b' f in
    let count = suc (suc k) in
    let page : page_up (start + 16 * (count - 1)) ≡ start + 16 * (suc k) = omega arith in
    let fits : ltb (start + 16 * (suc k)) end ≡ true = ground arith in
    let given = m.pages ∙ ap (λ x. dealt (replicate count 0) x end) page in
    let last = start + 16 * (suc k) in
    let rest = dealt (replicate (suc k) 0) (last + page_size) end in
    let head : dealt (replicate count 0) last end ≡ last ∷ rest = rw fits refl in
    (
      s',
      e,
      m,
      ap s'.addr m.head
          ∙ first_of (s'.addr (start + kernel_offset)) last
              (map s'.addr (nodes_at (suc k) (start + 16))) rest (given ∙ head),
    )
