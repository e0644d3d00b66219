-- ===== src/Mem/Pmm/Split.antt =====
-- `pmm_init_final` of src/mem/pmm.c: the list of all pages, cut at the first page from 2 GiB on.
use lios.Prelude.{
  ℕ, zero, suc, ◌+◌, ◌≤◌, ◌<◌, ◌≡◌, ◌≢◌, refl, arith, List, [], ◌∷◌, ◌++◌, length, sym,
}
use mathlib.Core.Path.{subst}
use lios.Mem.Pmm.{Pmm, ok, write, two_gb, split_from, pmm_init_final}
use lios.Mem.Pmm.Chain.{Chain, NotIn, Chain-write, write_self, write_other}

-- The pages of all nodes of the list lie below 2 GiB.
abbrev pub AllLow : (ℕ → ℕ) → List ℕ → Type 0
AllLow addr [] = Unit {0}
AllLow addr (n ∷ ns) = (addr n < two_gb) × AllLow addr ns

-- The last node before the cut.
last : ℕ → List ℕ → ℕ
last n [] = n
last n (m ∷ ms) = last m ms

split_from-cut :
    (fuel n h : ℕ) (s : Pmm) (ns hs : List ℕ)
    → Chain s.next n (n ∷ (ns ++ h ∷ hs))
    → AllLow s.addr ns
    → two_gb ≤ s.addr h
    → length ns + 1 < fuel
    → split_from fuel n s ≡ ok (record s { high = h; next = write s.next (last n ns) 0 })
unfolding split_from last
split_from-cut zero n h s ns hs c low big f = elim f [ ]
split_from-cut (suc fuel) n h s [] hs (a, z, (e, z', c)) low big f = rw e (ground arith)
split_from-cut (suc fuel) n h s (m ∷ ms) hs (a, z, (e, z', c)) (x, low) big f =
    rw e (ground (arith, split_from-cut fuel m h s ms hs (refl, z', c) low big (omega arith)))

-- All nodes of the list are different.
abbrev pub Distinct : List ℕ → Type 0
Distinct [] = Unit {0}
Distinct (n ∷ ns) = NotIn n ns × Distinct ns

last-ne : (n m : ℕ) (ms hs : List ℕ) → NotIn n (m ∷ (ms ++ hs)) → last m ms ≢ n
unfolding last
last-ne n m [] hs (e, o) = e
last-ne n m (k ∷ ks) hs (e, o) = last-ne n k ks hs o

last-NotIn : (n : ℕ) (ns hs : List ℕ) → Distinct (n ∷ (ns ++ hs)) → NotIn (last n ns) hs
unfolding last
last-NotIn n [] hs d = d.0
last-NotIn n (m ∷ ms) hs d = last-NotIn m ms hs d.1

low_part :
    (next : ℕ → ℕ) (p n : ℕ) (ns hs : List ℕ)
    → Chain next p (n ∷ (ns ++ hs))
    → Distinct (n ∷ (ns ++ hs))
    → Chain (write next (last n ns) 0) p (n ∷ ns)
unfolding last
low_part next p n [] hs (e, z, c) d = (e, z, write_self next n 0)
low_part next p n (m ∷ ms) hs (e, z, c) d = (
  e,
  z,
  rw (write_other next (last m ms) 0 n (λ x. last-ne n m ms hs d.0 (sym x)))
      (low_part next (next n) m ms hs c d.1),
)

high_part :
    (next : ℕ → ℕ) (p n h : ℕ) (ns hs : List ℕ)
    → Chain next p (n ∷ (ns ++ h ∷ hs))
    → Chain next h (h ∷ hs)
high_part next p n h [] hs (e, z, (e', z', c)) = (refl, z', c)
high_part next p n h (m ∷ ms) hs (e, z, c) = high_part next (next n) m h ms hs c

-- `pmm_init_final` on a list of different nodes, whose pages after the first lie below 2 GiB up to a
-- node with a page at or above 2 GiB: it returns, the low list is what stands before that node, and
-- the high list begins with it. No address changes.
pub pmm_init_final-lists :
    (fuel n h : ℕ) (s : Pmm) (ns hs : List ℕ)
    → Chain s.next s.low (n ∷ (ns ++ h ∷ hs))
    → Distinct (n ∷ (ns ++ h ∷ hs))
    → AllLow s.addr ns
    → two_gb ≤ s.addr h
    → length ns + 1 < fuel
    → (s' : Pmm) × (pmm_init_final fuel s ≡ ok s')
      × Chain s'.next s'.low (n ∷ ns)
      × Chain s'.next s'.high (h ∷ hs)
      × (s'.addr ≡ s.addr)
unfolding pmm_init_final
pmm_init_final-lists fuel n h s ns hs c d low big f =
    let cut = write s.next (last n ns) 0 in
    (
      record s { high = h; next = cut },
      subst (λ p. split_from fuel p s ≡ ok (record s { high = h; next = cut })) (sym c.0)
          (split_from-cut fuel n h s ns hs (refl, c.1, c.2) low big f),
      low_part s.next s.low n ns (h ∷ hs) c d,
      Chain-write s.next h (last n ns) 0 (h ∷ hs) (high_part s.next s.low n h ns hs c)
          (last-NotIn n ns (h ∷ hs) d),
      refl,
    )
