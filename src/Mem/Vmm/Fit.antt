-- ===== src/Mem/Vmm/Fit.antt =====
-- The search of `vmm_alloc` of src/mem/vmm.c as the first fit on the free ranges.
use lios.Prelude.{
  ℕ, zero, suc, ◌+◌, ◌-◌, ◌<◌, ◌≤◌, ◌≡◌, ◌≢◌, ◌∙◌, refl, sym, ap, ap₂, subst, arith, false, leb,
  ◌==◌, List, [], ◌∷◌, ◌++◌, length, append-nil, none, some, ◌⊎◌, inl, inr, Bool-cases, u64,
}
use lios.Mem.Pmm.{ok, write}
use lios.Mem.Pmm.Chain.{write_other, write_self}
use lios.Mem.Vmm.{FreeList, vmm_list_remove_node, find_fit, take_from}
use lios.Mem.Vmm.Linked.{Linked, NotIn-front, NotIn-back}
use lios.Mem.Vmm.Removal.{IsList, Distinct-middle, vmm_list_remove_node-IsList}
use lios.Mem.Vmm.Ranges.{
  ranges, shrunk, reserve, Small, ranges-append, ranges-write, reserve-none, reserve-first,
}

-- What the search finds.
abbrev Found : FreeList → (request : ℕ) → List ℕ → (cur : ℕ) → Type 0
Found l request ns cur =
    ((cur ≡ 0) × Small l.size request ns)
    ⊎ ((pre : List ℕ) × (post : List ℕ) × (ns ≡ pre ++ cur ∷ post)
        × Small l.size request pre
        × (request ≤ l.size cur)
        × (cur ≢ 0))

Found-behind :
    (l : FreeList) (request n cur : ℕ) (ns : List ℕ)
    → l.size n < request
    → Found l request ns cur
    → Found l request (n ∷ ns) cur
Found-behind l request n cur ns g (inl (e, small)) = inl (e, (g, small))
Found-behind l request n cur ns g (inr (pre, post, e, small, fits, z)) =
    inr (n ∷ pre, post, ap (λ t. n ∷ t) e, (g, small), fits, z)

find_fit-Found :
    (fuel request b p : ℕ) (l : FreeList) (ns : List ℕ)
    → Linked l.next l.prev b p ns l.tail
    → length ns < fuel
    → (cur : ℕ) × (find_fit fuel request p l ≡ ok cur) × Found l request ns cur
unfolding find_fit
find_fit-Found zero request b p l ns c f = elim f [ ]
find_fit-Found (suc fuel) request b p l [] (e, c) f = (0, ground arith, inl (refl, tt))
find_fit-Found (suc fuel) request b p l (n ∷ ns) (e, z, back, c) f =
    let far : (p == 0) ≡ false = ground arith in
    elim (Bool-cases (leb request (l.size p))) [
      | inl fits ↦ (n, rw (far, fits) (ap ok e), inr ([], ns, refl, tt, ground arith, z))
      | inr small ↦
          let (cur, e', found) =
            find_fit-Found fuel request n (l.next p) l ns
              (subst (λ x. Linked l.next l.prev n (l.next x) ns l.tail) (sym e) c) (omega arith) in
          (cur, rw (far, small) e', Found-behind l request n cur ns (ground arith) found)
    ]

-- No node is both in the list and behind its end.
middle-last :
    (next prev : ℕ → ℕ) (b p n t : ℕ) (pre : List ℕ)
    → Linked next prev b p (pre ++ n ∷ []) t
    → t ≡ n
middle-last next prev b p n t [] (e, z, back, (e', l)) = l
middle-last next prev b p n t (m ∷ ms) (e, z, back, c) = middle-last next prev m (next m) n t ms c

-- The tail is an empty node.
abbrev pub IsFree : FreeList → List ℕ → Type 0
IsFree l ns = IsList l ns × (l.size l.tail ≡ 0)

-- The free list after `a` was reserved.
abbrev pub Reserved : (request : ℕ) (rs : List (ℕ × ℕ)) (a : ℕ) → FreeList → Type 0
Reserved request rs a l =
    (ns : List ℕ) × IsFree l ns × (reserve request rs ≡ some (a, ranges l.start l.size ns))

take_all :
    (l : FreeList) (request n k : ℕ) (pre ks : List ℕ)
    → IsFree l (pre ++ n ∷ k ∷ ks)
    → Small l.size request pre
    → request ≢ 0
    → l.size n ≡ request
    → Reserved request
        (ranges l.start l.size (pre ++ n ∷ k ∷ ks))
        (l.start n)
        (vmm_list_remove_node n l)
unfolding vmm_list_remove_node
take_all l request n k pre ks ((c, d), empty_tail) small y all =
    let o = (Distinct-middle pre (k ∷ ks) n d).1 in
    let first = reserve-first l.start l.size request n pre (k ∷ ks) small (omega arith) y in
    let rest = ranges l.start l.size (k ∷ ks) in
    let gone : shrunk request (l.start n) (l.size n) rest ≡ rest = ground arith in
    let emptied : ranges (write l.start n 0) (write l.size n 0) (n ∷ []) ≡ [] = ground arith in
    let kept =
      ranges-append (write l.start n 0) (write l.size n 0) (pre ++ k ∷ ks) (n ∷ [])
      ∙ (rw emptied (append-nil (ranges (write l.start n 0) (write l.size n 0) (pre ++ k ∷ ks)))
          ∙ (ranges-write l.start l.size n 0 0 (pre ++ k ∷ ks) o
              ∙ ranges-append l.start l.size pre (k ∷ ks))) in
    (
      (pre ++ k ∷ ks) ++ n ∷ [],
      (vmm_list_remove_node-IsList n k l pre ks (c, d), write_self l.size n 0),
      first
          ∙ ap (λ t. some (l.start n, t))
              (ap (λ t. ranges l.start l.size pre ++ t) gone ∙ sym kept),
    )

take_part :
    (l : FreeList) (request n : ℕ) (pre post : List ℕ)
    → IsFree l (pre ++ n ∷ post)
    → Small l.size request pre
    → request ≢ 0
    → request < l.size n
    → Reserved request (ranges l.start l.size (pre ++ n ∷ post)) (l.start n) (record l {
      start = write l.start n (u64 (l.start n + request));
      size = write l.size n (l.size n - request);
    })
take_part l request n pre post ((c, d), empty_tail) small y part =
    let o = (Distinct-middle pre post n d).1 in
    let first = reserve-first l.start l.size request n pre post small (omega arith) y in
    let start' = write l.start n (u64 (l.start n + request)) in
    let size' = write l.size n (l.size n - request) in
    let before : ranges start' size' pre ≡ ranges l.start l.size pre =
      ranges-write l.start l.size n (u64 (l.start n + request)) (l.size n - request) pre
        (NotIn-front pre post n o) in
    let behind : ranges start' size' post ≡ ranges l.start l.size post =
      ranges-write l.start l.size n (u64 (l.start n + request)) (l.size n - request) post
        (NotIn-back pre post n o) in
    let left : ranges start' size' (n ∷ post)
        ≡ shrunk request (l.start n) (l.size n) (ranges l.start l.size post) =
      (let rest = l.size n - request in
        let there : (rest == 0) ≡ false = ground arith in
        let partly : (l.size n == request) ≡ false = ground arith in
        rw
          (
            write_self l.start n (u64 (l.start n + request)),
            write_self l.size n rest,
            there,
            behind,
            partly,
          )
          refl) in
    let kept = ranges-append start' size' pre (n ∷ post) ∙ ap₂ (λ x z. x ++ z) before left in
    let far : l.tail ≢ n = λ e. y (let e' = ap l.size e in omega arith) in
    (
      pre ++ n ∷ post,
      ((c, d), write_other l.size n (l.size n - request) l.tail far ∙ empty_tail),
      first ∙ ap (λ t. some (l.start n, t)) (sym kept),
    )

-- What becomes of the ranges when they are taken from a node.
take_from-Reserved :
    (l : FreeList) (request n : ℕ) (pre post : List ℕ)
    → IsFree l (pre ++ n ∷ post)
    → Small l.size request pre
    → request ≤ l.size n
    → request ≢ 0
    → Reserved request (ranges l.start l.size (pre ++ n ∷ post)) (l.start n) (take_from request n l)
unfolding take_from
take_from-Reserved l request n pre [] ((c, d), empty_tail) small fits y =
    let last : l.tail ≡ n = middle-last l.next l.prev 0 l.head n l.tail pre c in
    let e : l.size n ≡ 0 = ap l.size (sym last) ∙ empty_tail in elim (y (omega arith)) [ ]
take_from-Reserved l request n pre (k ∷ ks) c small fits y =
    elim (Bool-cases (l.size n == request)) [
      | inl all ↦ rw all (take_all l request n k pre ks c small y (ground arith))
      | inr part ↦ rw part (take_part l request n pre (k ∷ ks) c small y (ground arith))
    ]

-- With an empty node at the tail of the free list and more fuel than it has nodes, the search for a size
-- other than 0 finds a node exactly when a first fit on the ranges of the list does; then the address of the
-- node is the one that is reserved, and the list without it holds the ranges that are left, with an
-- empty node at its tail again.
pub find_fit-reserve :
    (fuel request : ℕ) (l : FreeList) (ns : List ℕ)
    → IsFree l ns
    → request ≢ 0
    → length ns < fuel
    → (cur : ℕ) × (find_fit fuel request l.head l ≡ ok cur)
      × (((cur ≡ 0) × (reserve request (ranges l.start l.size ns) ≡ none))
          ⊎ ((cur ≢ 0)
              × Reserved request
                  (ranges l.start l.size ns)
                  (l.start cur)
                  (take_from request cur l)))
find_fit-reserve fuel request l ns (c, e) y f =
    let (cur, found, what) = find_fit-Found fuel request 0 l.head l ns c.0 f in
    (
      cur,
      found,
      elim what [
        | inl (none_left, small) ↦ inl (none_left, reserve-none l.start l.size request ns small)
        | inr (pre, post, split, small, fits, z) ↦ inr (
          z,
          subst
              (λ t.
                Reserved request (ranges l.start l.size t) (l.start cur) (take_from request cur l))
              (sym split)
              (take_from-Reserved l request cur pre post (subst (λ t. IsFree l t) split (c, e))
                small fits y),
        )
      ],
    )
