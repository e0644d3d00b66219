-- ===== src/Mem/Vmm/Release/Front.antt =====
-- A block that `vmm_free` of src/mem/vmm.c could not merge.
use lios.Prelude.{
  ℕ, ◌≡◌, ◌≢◌, ◌∙◌, ap, refl, sym, subst, arith, false, ◌==◌, List, [], ◌∷◌, ◌++◌, append-nil,
}
use lios.Mem.Pmm.{write}
use lios.Mem.Pmm.Chain.{write_other, write_self}
use lios.Mem.Vmm.{FreeList}
use lios.Mem.Vmm.Release.{tail_to_head}
use lios.Mem.Vmm.Linked.{Linked, Distinct, NotIn-front, Linked-write}
use lios.Mem.Vmm.Removal.{IsList, Distinct-middle, Linked-write_prev}
use lios.Mem.Vmm.Tail.{Linked-cut}
use lios.Mem.Vmm.Ranges.{ranges, ranges-append, ranges-write}

last-nonzero :
    (next prev : ℕ → ℕ) (b p n t : ℕ) (pre : List ℕ)
    → Linked next prev b p (pre ++ n ∷ []) t
    → n ≢ 0
last-nonzero next prev b p n t [] (e, z, back, c) = z
last-nonzero next prev b p n t (m ∷ ms) (e, z, back, c) = last-nonzero next prev m (next m) n t ms c

-- When the node at the tail of a list of several nodes is empty, it takes the block and goes to the front: the
-- other nodes stay in order, and the ranges of the list are the block and those from before.
pub tail_to_head-ranges :
    (start size n m : ℕ) (l : FreeList) (ms : List ℕ)
    → IsList l ((m ∷ ms) ++ n ∷ [])
    → l.size n ≡ 0
    → size ≢ 0
    → (l' : FreeList) × (tail_to_head start size l ≡ l')
      × IsList l' (n ∷ m ∷ ms)
      × (ranges l'.start l'.size (n ∷ m ∷ ms)
          ≡ (start, size) ∷ ranges l.start l.size ((m ∷ ms) ++ n ∷ []))
unfolding tail_to_head
tail_to_head-ranges start size n m l ms ((h, z, back, c), d) empty y =
    let (before, last, end, (h', z', back', cut)) =
      Linked-cut l.next l.prev 0 l.head n l.tail m ms (h, z, back, c) d in
    let (d', o) = Distinct-middle (m ∷ ms) [] n d in
    let away = NotIn-front (m ∷ ms) [] n o in
    let distinct : Distinct (m ∷ ms) = subst (λ t. Distinct t) (append-nil (m ∷ ms)) d' in
    let nonzero = last-nonzero l.next l.prev 0 l.head n l.tail (m ∷ ms) (h, z, back, c) in
    let cut_next = write l.next (l.prev n) 0 in
    let behind =
      Linked-write cut_next l.prev m (cut_next m) (l.prev n) n n m 0 ms cut away.1 away.1 in
    let linked =
      Linked-write_prev (write cut_next n m) (write l.prev n 0) m (cut_next m) (l.prev n) m n ms
        behind distinct.0 in
    let other = ranges-write l.start l.size n start size (m ∷ ms) away in
    let none_there : ranges l.start l.size (n ∷ []) ≡ [] = rw empty refl in
    let before_all : ranges l.start l.size ((m ∷ ms) ++ n ∷ []) ≡ ranges l.start l.size (m ∷ ms) =
      ranges-append l.start l.size (m ∷ ms) (n ∷ [])
      ∙ rw none_there (append-nil (ranges l.start l.size (m ∷ ms))) in
    let full : (size == 0) ≡ false = ground arith in
    let next' = write (write l.next (l.prev n) 0) n m in
    let prev' = write (write l.prev n 0) m n in
    let l' : FreeList = record {
      prev = prev';
      next = next';
      start = write l.start n start;
      size = write l.size n size;
      head = n;
      tail = l.prev n;
    } in
    (
      l',
      rw (end, h) refl,
      (
        (
          refl,
          nonzero,
          ground arith,
          rw (write_self (write l.next (l.prev n) 0) n m) (
            refl,
            z,
            write_self (write l.prev n 0) m n,
            rw (write_other cut_next n m m away.0) linked,
          ),
        ),
        (away, distinct),
      ),
      rw (write_self l.start n start, write_self l.size n size, full)
          (ap (λ t. (start, size) ∷ t) (other ∙ sym before_all)),
    )
