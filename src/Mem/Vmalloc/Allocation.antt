-- ===== src/Mem/Vmalloc/Allocation.antt =====
-- Allocation in the list of nodes of src/mem/vmalloc.c, one node after the other.
use lios.Prelude.{
  ℕ, ◌+◌, ◌≤◌, ◌<◌, ◌^◌, ◌≡◌, refl, arith, true, some, List, [], ◌∷◌, ◌++◌, sym, ◌⊎◌, inl, inr,
}
use mathlib.Core.Path.{subst}
use lios.Mem.Vmalloc.{
  Node, Walk, hit, missed, endless, Found, found_at, no_room, stuck, search, alloc_in, mark_bitmap,
  section_addr,
}
use lios.Mem.Vmalloc.Bitmap.{Bytes, Marked, mark_bitmap-Marked}
use lios.Mem.Vmalloc.Search.{Free}
use lios.Mem.Vmalloc.FirstFit.{IsFirstFit, search-IsFirstFit}

pub record IsNode (n : Node) : Type 0 where
  pub big : 64 ≤ n.bitmap_size
  pub small : n.bitmap_size ≤ 2 ^ 35
  pub bytes : Bytes n.mem

abbrev pub AllNodes : List Node → Type 0
AllNodes [] = Unit {0}
AllNodes (n ∷ ns) = IsNode n × AllNodes ns

-- What an allocation of `needed` sections gives: the first free run of the first node that has one is
-- marked, and nothing else changes; or no node has one. It returns.
abbrev pub Allocated : (needed : ℕ) → List Node → Walk (List Node × ℕ) → Type 0
Allocated needed ns endless = ⊥
Allocated needed [] missed = Unit {0}
Allocated needed [] (hit r) = ⊥
Allocated needed (n ∷ ns) missed =
    IsFirstFit needed n.mem n.bitmap_size no_room × Allocated needed ns missed
Allocated needed (n ∷ ns) (hit ([], a)) = ⊥
Allocated needed (n ∷ ns) (hit (n' ∷ ns', a)) =
    ((s : ℕ) × IsFirstFit needed n.mem n.bitmap_size (found_at s)
      × (n'.addr ≡ n.addr)
      × (n'.bitmap_size ≡ n.bitmap_size)
      × (n'.total_size ≡ n.total_size)
      × Marked true s (s + needed) n.mem n'.mem
      × (ns' ≡ ns)
      × (a ≡ section_addr n s))
    ⊎ (IsFirstFit needed n.mem n.bitmap_size no_room
        × (n' ≡ n)
        × Allocated needed ns (hit (ns', a)))

Found-cases : (f : Found) → ((s : ℕ) × (f ≡ found_at s)) ⊎ ((f ≡ no_room) ⊎ (f ≡ stuck))
Found-cases (found_at s) = inl (s, refl)
Found-cases no_room = inr (inl refl)
Found-cases stuck = inr (inr refl)

Walk-cases :
    (w : Walk (List Node × ℕ))
    → (w ≡ missed) ⊎ ((w ≡ endless) ⊎ ((ns : List Node) × (a : ℕ) × (w ≡ hit (ns, a))))
Walk-cases missed = inl refl
Walk-cases endless = inr (inl refl)
Walk-cases (hit (ns, a)) = inr (inr (ns, a, refl))

module _ (needed : ℕ) (n : Node) (ns : List Node) where
  alloc_in_here :
      (s : ℕ) (mem' : ℕ → ℕ)
      → search (n.bitmap_size + 1) needed n.bitmap_size n.mem 0 0 0 ≡ found_at s
      → mark_bitmap s needed true n.mem ≡ some mem'
      → alloc_in needed (n ∷ ns) ≡ hit (record n { mem = mem' } ∷ ns, section_addr n s)
  unfolding alloc_in
  alloc_in_here s mem' e f = rw (e, f, alloc_in) refl

  alloc_in_missed :
      search (n.bitmap_size + 1) needed n.bitmap_size n.mem 0 0 0 ≡ no_room
      → alloc_in needed ns ≡ missed
      → alloc_in needed (n ∷ ns) ≡ missed
  unfolding alloc_in
  alloc_in_missed e f = rw (e, f, alloc_in) refl

  alloc_in_later :
      (ns' : List Node) (a : ℕ)
      → search (n.bitmap_size + 1) needed n.bitmap_size n.mem 0 0 0 ≡ no_room
      → alloc_in needed ns ≡ hit (ns', a)
      → alloc_in needed (n ∷ ns) ≡ hit (n ∷ ns', a)
  unfolding alloc_in
  alloc_in_later ns' a e f = rw (e, f, alloc_in) refl

pub Allocated-returns : (needed : ℕ) (ns : List Node) → Allocated needed ns endless → ⊥
Allocated-returns needed [] h = h
Allocated-returns needed (n ∷ ns) h = h

-- Allocation in a list of nodes of 64 to 2 ^ 35 sections each does what `Allocated` says: it returns the
-- first free run of the first node that has one, and marks it, or says that there is none.
pub alloc_in-Allocated :
    (needed : ℕ) (ns : List Node)
    → 0 < needed
    → AllNodes ns
    → Allocated needed ns (alloc_in needed ns)
alloc_in-Allocated needed [] pos v = unfold alloc_in in tt
alloc_in-Allocated needed (n ∷ ns) pos (v, vs) =
    let fit = search-IsFirstFit needed n.mem n.bitmap_size v.big (omega (arith, v.small)) pos in
    let P = Allocated needed (n ∷ ns) in
    let fits = IsFirstFit needed n.mem n.bitmap_size in
    elim (Found-cases (search (n.bitmap_size + 1) needed n.bitmap_size n.mem 0 0 0)) [
      | inl (s, e) ↦
          let here = subst fits e fit in
          let inside : s + needed ≤ 2 ^ 35 = omega (arith, here.0, v.small) in
          let (mem', f, marked) = mark_bitmap-Marked s needed true n.mem v.bytes pos inside in
          subst P (sym (alloc_in_here needed n ns s mem' e f))
            (inl (s, here, refl, refl, refl, marked, refl, refl))
      | inr (inl e) ↦
          let here = subst fits e fit in
          let rest = alloc_in-Allocated needed ns pos vs in
          elim (Walk-cases (alloc_in needed ns)) [
            | inl out ↦
                subst P (sym (alloc_in_missed needed n ns e out))
                  (here, subst (Allocated needed ns) out rest)
            | inr (inl never) ↦
                absurd (Allocated-returns needed ns (subst (Allocated needed ns) never rest))
            | inr (inr (ns', a, got)) ↦
                subst P (sym (alloc_in_later needed n ns ns' a e got))
                  (inr (here, refl, subst (Allocated needed ns) got rest))
          ]
      | inr (inr e) ↦ absurd (subst fits e fit)
    ]

-- The nodes stay nodes.
pub Allocated-AllNodes :
    (needed : ℕ) (ns ns' : List Node) (a : ℕ)
    → Allocated needed ns (hit (ns', a))
    → AllNodes ns
    → AllNodes ns'
Allocated-AllNodes needed [] ns' a h v = absurd h
Allocated-AllNodes needed (n ∷ ns) [] a h v = absurd h
Allocated-AllNodes needed (n ∷ ns) (n' ∷ ns') a (inl (s, f, e1, e2, e3, m, e4, e5)) (v, vs) = (
  record { big = omega (arith, e2, v.big); small = omega (arith, e2, v.small); bytes = m.0 },
  subst AllNodes (sym e4) vs,
)
Allocated-AllNodes needed (n ∷ ns) (n' ∷ ns') a (inr (f, e, h)) (v, vs) =
    (subst IsNode (sym e) v, Allocated-AllNodes needed ns ns' a h vs)

-- With a last node that is all free and has room, an allocation succeeds.
pub Allocated-last :
    (needed : ℕ) (ns : List Node) (n : Node)
    → needed ≤ n.bitmap_size
    → Free n.mem 0 n.bitmap_size
    → Allocated needed (ns ++ n ∷ []) missed
    → ⊥
Allocated-last needed [] n room free (none_here, _) =
    none_here 0 (omega arith) (λ q a b. free q a (omega arith))
Allocated-last needed (m ∷ ms) n room free (_, h) = Allocated-last needed ms n room free h

pub AllNodes-append : (ns : List Node) (n : Node) → AllNodes ns → IsNode n → AllNodes (ns ++ n ∷ [])
AllNodes-append [] n v w = (w, tt)
AllNodes-append (m ∷ ms) n (v, vs) w = (v, AllNodes-append ms n vs w)
