-- ===== src/Mem/Vmm/Linked.antt =====
-- The free list of src/mem/vmm.c as a doubly linked list, and the removal of a node, which moves it to
-- the end.
use lios.Prelude.{ℕ, ◌≡◌, ◌≢◌, ◌∙◌, refl, sym, subst, arith, List, [], ◌∷◌, ◌++◌}
use lios.Mem.Pmm.{write}
use lios.Mem.Pmm.Chain.{NotIn, write_other, write_self}

-- The nodes from `p` on, behind the node `b`, with the last one at `t`.
abbrev pub Linked : (next prev : ℕ → ℕ) (b p : ℕ) → List ℕ → (t : ℕ) → Type 0
Linked next prev b p [] t = (p ≡ 0) × (t ≡ b)
Linked next prev b p (n ∷ ns) t =
    (p ≡ n) × (n ≢ 0) × (prev n ≡ b) × Linked next prev n (next n) ns t

abbrev pub Distinct : List ℕ → Type 0
Distinct [] = Unit {0}
Distinct (n ∷ ns) = NotIn n ns × Distinct ns

pub NotIn-front : (ns ms : List ℕ) (m : ℕ) → NotIn m (ns ++ ms) → NotIn m ns
NotIn-front [] ms m o = tt
NotIn-front (k ∷ ks) ms m (ne, o) = (ne, NotIn-front ks ms m o)

pub NotIn-back : (ns ms : List ℕ) (m : ℕ) → NotIn m (ns ++ ms) → NotIn m ms
NotIn-back [] ms m o = o
NotIn-back (k ∷ ks) ms m (ne, o) = NotIn-back ks ms m o

-- Writes to nodes outside the list.
pub Linked-write :
    (next prev : ℕ → ℕ) (b p t x y u v : ℕ) (ns : List ℕ)
    → Linked next prev b p ns t
    → NotIn x ns
    → NotIn y ns
    → Linked (write next x u) (write prev y v) b p ns t
Linked-write next prev b p t x y u v [] c d d' = c
Linked-write next prev b p t x y u v (n ∷ ns) (e, z, back, c) (ne, d) (ne', d') = (
  e,
  z,
  write_other prev y v n ne' ∙ back,
  rw (write_other next x u n ne) (Linked-write next prev n (next n) t x y u v ns c d d'),
)

-- The last node is none that is not in the list.
pub last-NotIn :
    (next prev : ℕ → ℕ) (b p t x k : ℕ) (ns : List ℕ)
    → Linked next prev b p (k ∷ ns) t
    → NotIn x (k ∷ ns)
    → x ≢ t
last-NotIn next prev b p t x k [] (e, z, back, (e', l)) (ne, d) = λ q. ne (omega arith)
last-NotIn next prev b p t x k (m ∷ ms) (e, z, back, c) (ne, d) =
    last-NotIn next prev k (next k) t x m ms c d

-- A node that goes behind the last one.
pub Linked-append :
    (next prev : ℕ → ℕ) (b p t n m : ℕ) (ms : List ℕ)
    → Linked next prev b p (m ∷ ms) t
    → Distinct (m ∷ ms)
    → NotIn n (m ∷ ms)
    → n ≢ 0
    → Linked (write (write next n 0) t n) (write prev n t) b p ((m ∷ ms) ++ n ∷ []) n
Linked-append next prev b p t n m [] (e, z, back, (e', l)) (d, ds) (ne, o) y =
    (e, z, ground arith, (ground arith, y, ground arith, (ground arith, refl)))
Linked-append next prev b p t n m (k ∷ ks) (e, z, back, c) (d, ds) (ne, o) y =
    let far : m ≢ t = last-NotIn next prev m (next m) t m k ks c d in
    let here : write (write next n 0) t n m ≡ next m = ground arith in
    (
      e,
      z,
      write_other prev n t m ne ∙ back,
      rw here (Linked-append next prev m (next m) t n k ks c ds o y),
    )

-- The neighbours of a node skip it.
skip_node :
    (next prev : ℕ → ℕ) (b n k t : ℕ) (ks : List ℕ)
    → Linked next prev n k (k ∷ ks) t
    → Distinct (k ∷ ks)
    → NotIn b (k ∷ ks)
    → Linked (write next b k) (write prev k b) b k (k ∷ ks) t
skip_node next prev b n k t ks (e, z, back, c) (d, ds) (ne, o) = (
  refl,
  z,
  write_self prev k b,
  rw (write_other next b k k ne) (Linked-write next prev k (next k) t b k k b ks c o d),
)

-- The neighbours of a node in the list are nodes of the list.
neighbours-NotIn :
    (next prev : ℕ → ℕ) (b p n k t m x : ℕ) (ms ks : List ℕ)
    → Linked next prev b p ((m ∷ ms) ++ n ∷ k ∷ ks) t
    → NotIn x ((m ∷ ms) ++ n ∷ k ∷ ks)
    → (prev n ≢ x) × (next n ≢ x)
neighbours-NotIn next prev b p n k t m x [] ks (e, z, back, (e', z', back', (e'', zk, bk, c)))
      (ne, (o, (o', d))) =
    (ground arith, ground arith)
neighbours-NotIn next prev b p n k t m x (m' ∷ ms) ks (e, z, back, c) (ne, o) =
    neighbours-NotIn next prev m (next m) n k t m' x ms ks c o

pub Linked-remove :
    (next prev : ℕ → ℕ) (b p n k t m : ℕ) (ms ks : List ℕ)
    → Linked next prev b p ((m ∷ ms) ++ n ∷ k ∷ ks) t
    → Distinct ((m ∷ ms) ++ n ∷ k ∷ ks)
    → Linked
        (write next (prev n) (next n))
        (write prev (next n) (prev n))
        b
        p
        ((m ∷ ms) ++ k ∷ ks)
        t
Linked-remove next prev b p n k t m [] ks (e, z, back, (e', z', back', (e'', zk, bk, c)))
      ((o, (o', o'')), (d', d)) =
    let skipped : Linked (write next m k) (write prev k m) b p (m ∷ k ∷ ks) t = (
      e,
      z,
      ground arith,
      rw (write_self next m k) (skip_node next prev m n k t ks (refl, zk, bk, c) d (o', o'')),
    ) in
    subst (λ w. Linked (write next w (next n)) (write prev (next n) w) b p (m ∷ k ∷ ks) t)
      (sym back')
      (subst (λ v. Linked (write next m v) (write prev v m) b p (m ∷ k ∷ ks) t) (sym e'') skipped)
Linked-remove next prev b p n k t m (m' ∷ ms) ks (e, z, back, c) (o, d) =
    let apart : (prev n ≢ m) × (next n ≢ m) =
      neighbours-NotIn next prev m (next m) n k t m' m ms ks c o in
    let rest = Linked-remove next prev m (next m) n k t m' ms ks c d in
    (e, z, ground arith, rw (write_other next (prev n) (next n) m (λ q. apart.0 (sym q))) rest)
