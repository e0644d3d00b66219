-- ===== src/Mem/Vmm/Nodes.antt =====
-- The loop of `set_up_page_for_free_list` of src/mem/vmm.c.
use lios.Prelude.{
  ℕ, zero, suc, ◌+◌, ◌<◌, ◌≤◌, ◌≡◌, ◌≢◌, ◌∙◌, refl, arith, false, ◌==◌, List, [], ◌∷◌,
}
use lios.Mem.Pmm.{write}
use lios.Mem.Pmm.Chain.{NotIn, write_other, write_self}
use lios.Mem.Vmm.{FreeList, free_node_size, chain_free}
use lios.Mem.Vmm.Linked.{Linked, Distinct}
use lios.Mem.Vmm.Ranges.{ranges}

-- The nodes of a page from `cur` on.
abbrev pub nodes_from : (rounds cur : ℕ) → List ℕ
nodes_from zero cur = cur ∷ []
nodes_from (suc n) cur = cur ∷ nodes_from n (cur + free_node_size)

NotIn-above : (n cur x : ℕ) → x < cur → NotIn x (nodes_from n cur)
NotIn-above zero cur x f = (ground arith, tt)
NotIn-above (suc n) cur x f = (ground arith, NotIn-above n (cur + free_node_size) x (omega arith))

pub Distinct-nodes_from : (n cur : ℕ) → Distinct (nodes_from n cur)
Distinct-nodes_from zero cur = (tt, tt)
Distinct-nodes_from (suc n) cur = (
  NotIn-above n (cur + free_node_size) cur (omega arith),
  Distinct-nodes_from n (cur + free_node_size),
)

-- One round of the loop.
abbrev linked_on : (cur : ℕ) → FreeList → FreeList
linked_on cur l =
    let new = cur + free_node_size in
    record l {
      next = write l.next cur new;
      prev = write l.prev new cur;
      start = write l.start new 0;
      size = write l.size new 0;
    }

pub chain_free-head : (n cur : ℕ) (l : FreeList) → (chain_free n cur l).head ≡ l.head
unfolding chain_free
chain_free-head zero cur l = refl
chain_free-head (suc n) cur l = chain_free-head n (cur + free_node_size) (linked_on cur l)

-- Nodes below the first one are left alone.
chain_free-below : (n cur x : ℕ) (l : FreeList) → x < cur → (chain_free n cur l).next x ≡ l.next x
unfolding chain_free
chain_free-below zero cur x l f = ground arith
chain_free-below (suc n) cur x l f =
    chain_free-below n (cur + free_node_size) x (linked_on cur l) (omega arith) ∙ ground arith

-- The first node keeps all but its `next`.
chain_free-first :
    (n cur x : ℕ) (l : FreeList)
    → x ≤ cur
    → ((chain_free n cur l).prev x ≡ l.prev x)
      × ((chain_free n cur l).start x ≡ l.start x)
      × ((chain_free n cur l).size x ≡ l.size x)
unfolding chain_free
chain_free-first zero cur x l f = (refl, refl, refl)
chain_free-first (suc n) cur x l f =
    let (p, s, z) = chain_free-first n (cur + free_node_size) x (linked_on cur l) (omega arith) in
    (p ∙ ground arith, s ∙ ground arith, z ∙ ground arith)

pub chain_free-Linked :
    (n b cur : ℕ) (l : FreeList)
    → cur ≢ 0
    → l.prev cur ≡ b
    → Linked
        (chain_free n cur l).next
        (chain_free n cur l).prev
        b
        cur
        (nodes_from n cur)
        (chain_free n cur l).tail
unfolding chain_free
chain_free-Linked zero b cur l z e = (refl, z, e, (ground arith, refl))
chain_free-Linked (suc n) b cur l z e =
    let new = cur + free_node_size in
    let first = (chain_free-first n new cur (linked_on cur l) (omega arith)).0 in
    let there =
      chain_free-below n new cur (linked_on cur l) (omega arith) ∙ write_self l.next cur new in
    (
      refl,
      z,
      first ∙ (write_other l.prev new cur cur (omega arith) ∙ e),
      rw there
          (chain_free-Linked n cur new (linked_on cur l) (omega arith) (write_self l.prev new cur)),
    )

-- All nodes are empty if the first one is.
chain_free-empty :
    (n cur : ℕ) (l : FreeList)
    → l.size cur ≡ 0
    → (ranges (chain_free n cur l).start (chain_free n cur l).size (nodes_from n cur) ≡ [])
      × ((chain_free n cur l).size (chain_free n cur l).tail ≡ 0)
unfolding chain_free
chain_free-empty zero cur l e = (rw e refl, e)
chain_free-empty (suc n) cur l e =
    let new = cur + free_node_size in
    let (p, s, z) = chain_free-first n new cur (linked_on cur l) (omega arith) in
    let (rest, end) = chain_free-empty n new (linked_on cur l) (write_self l.size new 0) in
    let none_here = z ∙ (write_other l.size new 0 cur (omega arith) ∙ e) in
    (rw (none_here, rest) refl, end)

-- The first block is the only one.
pub chain_free-one :
    (n cur : ℕ) (l : FreeList)
    → l.size cur ≢ 0
    → (ranges
          (chain_free (suc n) cur l).start
          (chain_free (suc n) cur l).size
          (nodes_from (suc n) cur)
        ≡ (l.start cur, l.size cur) ∷ [])
      × ((chain_free (suc n) cur l).size (chain_free (suc n) cur l).tail ≡ 0)
unfolding chain_free
chain_free-one n cur l y =
    let new = cur + free_node_size in
    let (p, s, z) = chain_free-first n new cur (linked_on cur l) (omega arith) in
    let (rest, end) = chain_free-empty n new (linked_on cur l) (write_self l.size new 0) in
    let address = s ∙ write_other l.start new 0 cur (omega arith) in
    let length_here = z ∙ write_other l.size new 0 cur (omega arith) in
    let full : (l.size cur == 0) ≡ false = ground arith in
    (rw (address, length_here, full, rest) refl, end)
