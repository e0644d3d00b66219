-- ===== src/Mem/Vmm/Removal.antt =====
-- `vmm_list_remove_node` of src/mem/vmm.c on a free list.
use lios.Prelude.{ℕ, ◌≡◌, ◌≢◌, ◌∙◌, refl, sym, subst, arith, false, ◌==◌, List, [], ◌∷◌, ◌++◌}
use lios.Mem.Pmm.{write}
use lios.Mem.Pmm.Chain.{NotIn, write_other, write_self}
use lios.Mem.Vmm.{FreeList, vmm_list_remove_node}
use lios.Mem.Vmm.Linked.{Linked, Distinct, Linked-append, Linked-remove}

-- The nodes of the free list, from its head to its tail.
abbrev pub IsList : FreeList → List ℕ → Type 0
IsList l ns = Linked l.next l.prev 0 l.head ns l.tail × Distinct ns

NotIn-middle :
    (pre post : List ℕ) (n m : ℕ) → NotIn m (pre ++ n ∷ post) → NotIn m (pre ++ post) × (m ≢ n)
NotIn-middle [] post n m (ne, o) = (o, λ q. ne (sym q))
NotIn-middle (k ∷ ks) post n m (ne, o) =
    let rest = NotIn-middle ks post n m o in ((ne, rest.0), rest.1)

pub Distinct-middle :
    (pre post : List ℕ) (n : ℕ)
    → Distinct (pre ++ n ∷ post)
    → Distinct (pre ++ post) × NotIn n (pre ++ post)
Distinct-middle [] post n (o, d) = (d, o)
Distinct-middle (m ∷ ms) post n (o, d) =
    let rest = Distinct-middle ms post n d in
    let away = NotIn-middle ms post n m o in ((away.0, rest.0), (away.1, rest.1))

NotIn-end : (ns : List ℕ) (n m : ℕ) → NotIn m ns → n ≢ m → NotIn m (ns ++ n ∷ [])
NotIn-end [] n m o ne = (ne, tt)
NotIn-end (k ∷ ks) n m (ne', o) ne = (ne', NotIn-end ks n m o ne)

pub Distinct-end : (ns : List ℕ) (n : ℕ) → Distinct ns → NotIn n ns → Distinct (ns ++ n ∷ [])
Distinct-end [] n d o = (tt, tt)
Distinct-end (m ∷ ms) n (o', d) (ne, o) =
    (NotIn-end ms n m o' (λ q. ne (sym q)), Distinct-end ms n d o)

pub Linked-write_prev :
    (next prev : ℕ → ℕ) (b p t y v : ℕ) (ns : List ℕ)
    → Linked next prev b p ns t
    → NotIn y ns
    → Linked next (write prev y v) b p ns t
Linked-write_prev next prev b p t y v [] c d = c
Linked-write_prev next prev b p t y v (n ∷ ns) (e, z, back, c) (ne, d) =
    (e, z, write_other prev y v n ne ∙ back, Linked-write_prev next prev n (next n) t y v ns c d)

-- What is known of a node in the list.
pub Linked-node :
    (next prev : ℕ → ℕ) (b p n k t m : ℕ) (ms ks : List ℕ)
    → Linked next prev b p ((m ∷ ms) ++ n ∷ k ∷ ks) t
    → (n ≢ 0) × (prev n ≢ 0) × (next n ≢ 0)
Linked-node next prev b p n k t m [] ks (e, z, back, (e', z', back', (e'', zk, bk, c))) =
    (z', ground arith, ground arith)
Linked-node next prev b p n k t m (m' ∷ ms) ks (e, z, back, c) =
    Linked-node next prev m (next m) n k t m' ms ks c

-- The list after the removal of a node between two others, and of the first node.
remove_inner :
    (n : ℕ) (l : FreeList)
    → l.prev n ≢ 0
    → l.next n ≢ 0
    → vmm_list_remove_node n l ≡ record {
      start = write l.start n 0;
      size = write l.size n 0;
      head = l.head;
      prev = write (write l.prev (l.next n) (l.prev n)) n l.tail;
      next = write (write (write l.next (l.prev n) (l.next n)) n 0) l.tail n;
      tail = n;
    }
unfolding vmm_list_remove_node
remove_inner n l y z =
    let e : (l.prev n == 0) ≡ false = ground arith in
    let e' : (l.next n == 0) ≡ false = ground arith in rw (e, e') refl

remove_first :
    (n k : ℕ) (l : FreeList)
    → l.prev n ≡ 0
    → l.next n ≡ k
    → k ≢ 0
    → vmm_list_remove_node n l ≡ record {
      start = write l.start n 0;
      size = write l.size n 0;
      head = k;
      prev = write (write l.prev k 0) n l.tail;
      next = write (write l.next n 0) l.tail n;
      tail = n;
    }
unfolding vmm_list_remove_node
remove_first n k l y e z = rw (y, e) (let e' : (k == 0) ≡ false = ground arith in rw e' refl)

-- A node that is not the last one is emptied and goes to the end of the list.
pub vmm_list_remove_node-IsList :
    (n k : ℕ) (l : FreeList) (pre ks : List ℕ)
    → IsList l (pre ++ n ∷ k ∷ ks)
    → IsList (vmm_list_remove_node n l) ((pre ++ k ∷ ks) ++ n ∷ [])
vmm_list_remove_node-IsList n k l [] ks ((e, z, back, (e', zk, bk, c)), (o, (ok, d))) =
    let c' : Linked l.next (write l.prev k 0) 0 k (k ∷ ks) l.tail = (
      refl,
      zk,
      write_self l.prev k 0,
      Linked-write_prev l.next l.prev k (l.next k) l.tail k 0 ks c ok,
    ) in
    subst (λ l'. IsList l' ((k ∷ ks) ++ n ∷ [])) (sym (remove_first n k l back e' zk))
      (
        Linked-append l.next (write l.prev k 0) 0 k l.tail n k ks c' (ok, d) o z,
        Distinct-end (k ∷ ks) n (ok, d) o,
      )
vmm_list_remove_node-IsList n k l (m ∷ ms) ks (c, d) =
    let (y, before, after) = Linked-node l.next l.prev 0 l.head n k l.tail m ms ks c in
    let (d', o) = Distinct-middle (m ∷ ms) (k ∷ ks) n d in
    let c' = Linked-remove l.next l.prev 0 l.head n k l.tail m ms ks c d in
    subst (λ l'. IsList l' (((m ∷ ms) ++ k ∷ ks) ++ n ∷ [])) (sym (remove_inner n l before after))
      (
        Linked-append (write l.next (l.prev n) (l.next n)) (write l.prev (l.next n) (l.prev n)) 0
            l.head l.tail n m (ms ++ k ∷ ks) c' d' o y,
        Distinct-end ((m ∷ ms) ++ k ∷ ks) n d' o,
      )
