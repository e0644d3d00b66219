-- ===== src/Mem/Vmm/Release/Covers.antt =====
-- The addresses that the free ranges of src/mem/vmm.c cover, before and after a block is merged with one.
use lios.Prelude.{
  ℕ, ◌+◌, ◌^◌, ◌≤◌, ◌<◌, ◌≡◌, ◌≢◌, ◌⊎◌, ◌↔◌, refl, sym, arith, inl, inr, List, [], ◌∷◌,
}
use lios.Mem.Pmm.Chain.{NotIn}
use lios.Mem.Vmm.{FreeList}
use lios.Mem.Vmm.Release.{Merge, merged, unmerged}

-- An address lies in a range, or in the range of some node.
abbrev pub In : (start end x : ℕ) → Type 0
In start end x = (start ≤ x) × (x < end)

abbrev pub Covers : (start size : ℕ → ℕ) → List ℕ → (x : ℕ) → Type 0
Covers start size [] x = ⊥
Covers start size (n ∷ ns) x = In (start n) (start n + size n) x ⊎ Covers start size ns x

-- No range goes past the end of the address space.
abbrev pub InSpace : (start size : ℕ → ℕ) → List ℕ → Type 0
InSpace start size [] = Unit {0}
InSpace start size (n ∷ ns) = (start n + size n < 2 ^ 64) × InSpace start size ns

-- No range ends where the block starts, or starts where it ends.
abbrev pub Apart : (start size : ℕ → ℕ) → (block_start block_end : ℕ) → List ℕ → Type 0
Apart start size bs be [] = Unit {0}
Apart start size bs be (n ∷ ns) =
    (start n + size n ≢ bs) × (start n ≢ be) × Apart start size bs be ns

-- Only the range of one node differs, and it is none of these.
Covers-other :
    (start size start' size' : ℕ → ℕ) (n x : ℕ) (ns : List ℕ)
    → NotIn n ns
    → ((m : ℕ) → m ≢ n → start' m ≡ start m)
    → ((m : ℕ) → m ≢ n → size' m ≡ size m)
    → Covers start size ns x
    → Covers start' size' ns x
Covers-other start size start' size' n x [] o f g c = c
Covers-other start size start' size' n x (m ∷ ms) (ne, o) f g (inl (a, b)) =
    let e = f m ne in let e' = g m ne in inl (omega arith, omega arith)
Covers-other start size start' size' n x (m ∷ ms) (ne, o) f g (inr c) =
    inr (Covers-other start size start' size' n x ms o f g c)

-- A node of the list took the block: the addresses covered are those from before and those of the block,
-- and the bounds are those of the node's new range.
pub record Merged (l l' : FreeList) (ns : List ℕ) (bs be node bs' be' : ℕ) : Type 0 where
  pub next : l'.next ≡ l.next
  pub prev : l'.prev ≡ l.prev
  pub lower : bs' ≡ l'.start node
  pub upper : be' ≡ l'.start node + l'.size node
  pub others : (m : ℕ) → NotIn m ns → (l'.start m ≡ l.start m) × (l'.size m ≡ l.size m)
  pub covers : (x : ℕ) → Covers l'.start l'.size ns x ↔ (Covers l.start l.size ns x ⊎ In bs be x)

abbrev pub Outcome : FreeList → List ℕ → (block_start block_end : ℕ) → Merge → Type 0
Outcome l ns bs be (merged node bs' be' l') = Merged l l' ns bs be node bs' be'
Outcome l ns bs be (unmerged last) = Apart l.start l.size bs be ns

pub Merged-here :
    (l : FreeList) (n bs be bs' be' : ℕ) (start' size' : ℕ → ℕ) (ns : List ℕ)
    → NotIn n ns
    → ((m : ℕ) → m ≢ n → start' m ≡ l.start m)
    → ((m : ℕ) → m ≢ n → size' m ≡ l.size m)
    → bs' ≡ start' n
    → be' ≡ start' n + size' n
    → ((x : ℕ)
        → In (start' n) (start' n + size' n) x
          ↔ (In (l.start n) (l.start n + l.size n) x ⊎ In bs be x))
    → Merged l (record l { start = start'; size = size' }) (n ∷ ns) bs be n bs' be'
Merged-here l n bs be bs' be' start' size' ns o f g lo hi range = record {
  next = refl;
  prev = refl;
  lower = lo;
  upper = hi;
  others = λ m o'. (f m (λ e. o'.0 (sym e)), g m (λ e. o'.0 (sym e)));
  covers = λ x. (to x, from x);
}
  where
    to : (x : ℕ) → Covers start' size' (n ∷ ns) x → Covers l.start l.size (n ∷ ns) x ⊎ In bs be x
    to x (inl r) = elim ((range x).0 r) [ inl before ↦ inl (inl before) | inr block ↦ inr block ]
    to x (inr c) = inl (
        inr (
          Covers-other start' size' l.start l.size n x ns o (λ m ne. sym (f m ne))
            (λ m ne. sym (g m ne)) c))

    from : (x : ℕ) → Covers l.start l.size (n ∷ ns) x ⊎ In bs be x → Covers start' size' (n ∷ ns) x
    from x (inl (inl r)) = inl ((range x).1 (inl r))
    from x (inl (inr c)) = inr (Covers-other l.start l.size start' size' n x ns o f g c)
    from x (inr block) = inl ((range x).1 (inr block))

Merged-behind :
    (l l' : FreeList) (n bs be node bs' be' : ℕ) (ns : List ℕ)
    → NotIn n ns
    → Merged l l' ns bs be node bs' be'
    → Merged l l' (n ∷ ns) bs be node bs' be'
Merged-behind l l' n bs be node bs' be' ns o m = record {
  next = m.next;
  prev = m.prev;
  lower = m.lower;
  upper = m.upper;
  others = λ y o'. m.others y o'.1;
  covers = λ x. (to x, from x);
}
  where
    here : (l'.start n ≡ l.start n) × (l'.size n ≡ l.size n)
    here = m.others n o

    to :
        (x : ℕ) → Covers l'.start l'.size (n ∷ ns) x → Covers l.start l.size (n ∷ ns) x ⊎ In bs be x
    to x (inl (a, b)) = let e = here.0 in let e' = here.1 in inl (inl (omega arith, omega arith))
    to x (inr c) = elim ((m.covers x).0 c) [ inl before ↦ inl (inr before) | inr block ↦ inr block ]

    from :
        (x : ℕ) → Covers l.start l.size (n ∷ ns) x ⊎ In bs be x → Covers l'.start l'.size (n ∷ ns) x
    from x (inl (inl (a, b))) = let e = here.0 in let e' = here.1 in inl (omega arith, omega arith)
    from x (inl (inr c)) = inr ((m.covers x).1 (inl c))
    from x (inr block) = inr ((m.covers x).1 (inr block))

pub Outcome-behind :
    (l : FreeList) (n bs be : ℕ) (ns : List ℕ) (m : Merge)
    → NotIn n ns
    → l.start n + l.size n ≢ bs
    → l.start n ≢ be
    → Outcome l ns bs be m
    → Outcome l (n ∷ ns) bs be m
Outcome-behind l n bs be ns (merged node bs' be' l') o a b r =
    Merged-behind l l' n bs be node bs' be' ns o r
Outcome-behind l n bs be ns (unmerged last) o a b r = (a, b, r)
