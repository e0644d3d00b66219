-- ===== src/Mem/Vmm/Tail.antt =====
-- What `vmm_list_remove_node` of src/mem/vmm.c does to the node at the tail of the free list.
use lios.Prelude.{ℕ, ◌≡◌, ◌≢◌, refl, arith, false, ◌==◌, List, [], ◌∷◌, ◌++◌}
use lios.Mem.Pmm.{write}
use lios.Mem.Pmm.Chain.{NotIn, write_other, write_self}
use lios.Mem.Vmm.{FreeList, vmm_list_remove_node}
use lios.Mem.Vmm.Linked.{Linked, Distinct, Linked-write, last-NotIn, NotIn-front}
use lios.Mem.Vmm.Removal.{IsList, Distinct-middle}

pub Linked-write_next :
    (next prev : ℕ → ℕ) (b p t x u : ℕ) (ns : List ℕ)
    → Linked next prev b p ns t
    → NotIn x ns
    → Linked (write next x u) prev b p ns t
Linked-write_next next prev b p t x u [] c d = c
Linked-write_next next prev b p t x u (n ∷ ns) (e, z, back, c) (ne, d) = (
  e,
  z,
  back,
  rw (write_other next x u n ne) (Linked-write_next next prev n (next n) t x u ns c d),
)

-- The last node is cut off: its address, and the list before it.
pub Linked-cut :
    (next prev : ℕ → ℕ) (b p n t m : ℕ) (ms : List ℕ)
    → Linked next prev b p ((m ∷ ms) ++ n ∷ []) t
    → Distinct ((m ∷ ms) ++ n ∷ [])
    → (prev n ≢ 0)
      × (next n ≡ 0)
      × (t ≡ n)
      × Linked (write next (prev n) 0) prev b p (m ∷ ms) (prev n)
Linked-cut next prev b p n t m [] (e, z, back, (e', z', back', (e'', l))) d =
    (ground arith, e'', l, (e, z, back, (ground arith, back')))
Linked-cut next prev b p n t m (m' ∷ ms) (e, z, back, c) (o, d) =
    let (y, last, end, rest) = Linked-cut next prev m (next m) n t m' ms c d in
    let far : m ≢ prev n =
      last-NotIn (write next (prev n) 0) prev m (next m) (prev n) m m' ms rest
        (NotIn-front (m' ∷ ms) (n ∷ []) m o) in
    (y, last, end, (e, z, back, rw (write_other next (prev n) 0 m far) rest))

-- Once the node at the tail is removed, the list ends before it, but it is still the tail, and its
-- `next` is the node itself.
pub vmm_list_remove_node-tail :
    (n m : ℕ) (l : FreeList) (ms : List ℕ)
    → IsList l ((m ∷ ms) ++ n ∷ [])
    → (l' : FreeList) × (vmm_list_remove_node n l ≡ l')
      × Linked l'.next l'.prev 0 l'.head (m ∷ ms) (l.prev n)
      × (l'.tail ≡ n)
      × (l'.next n ≡ n)
      × NotIn n (m ∷ ms)
unfolding vmm_list_remove_node
vmm_list_remove_node-tail n m l ms (c, d) =
    let (y, last, end, cut) = Linked-cut l.next l.prev 0 l.head n l.tail m ms c d in
    let away : NotIn n (m ∷ ms) = NotIn-front (m ∷ ms) [] n (Distinct-middle (m ∷ ms) [] n d).1 in
    let next' = write l.next (l.prev n) 0 in
    let l' : FreeList = record {
      start = write l.start n 0;
      size = write l.size n 0;
      head = l.head;
      prev = write l.prev n n;
      next = write (write next' n 0) n n;
      tail = n;
    } in
    let here : (l.prev n == 0) ≡ false = ground arith in
    let kept = Linked-write next' l.prev 0 l.head (l.prev n) n n 0 n (m ∷ ms) cut away away in
    let kept' =
      Linked-write_next (write next' n 0) (write l.prev n n) 0 l.head (l.prev n) n n (m ∷ ms) kept
        away in
    (l', rw (last, end, here) refl, kept', refl, write_self (write next' n 0) n n, away)
