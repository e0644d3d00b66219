-- ===== src/Mem/Vmalloc/Release/RoundTrip.antt =====
-- `vfree` of what `vmalloc` has just returned, in src/mem/vmalloc.c.
use lios.Prelude.{
  ℕ, zero, suc, ◌+◌, ◌-◌, ◌*◌, ◌/◌, ◌%◌, ◌≤◌, ◌<◌, ◌^◌, ◌≡◌, refl, arith, Bool, true, false, ◌==◌,
  Option, none, some, List, [], ◌∷◌, ◌⊎◌, inl, inr, ◌∙◌, sym, ap, ap₂, Bool-cases, bit-zero,
}
use lios.Util.KMath.{ceil_u64_div}
use lios.Util.KMath.Rounding.{ceil_u64_div_least}
use lios.Mem.Vmalloc.{
  block_header, Node, mark_bitmap, section_addr, is_used, is_clear, node_header, hit,
}
use lios.Mem.Vmalloc.Bitmap.{Marked, mark_bitmap-Marked, is_used-bit}
use lios.Mem.Vmalloc.Search.{Free}
use lios.Mem.Vmalloc.Allocation.{AllNodes, Allocated}
use lios.Mem.Vmalloc.Release.{first_section, holds, release_if_unused, free_in}

-- The same node, with the same sections in use.
abbrev pub SameNode : Node → Node → Type 0
SameNode n n' =
    (n'.addr ≡ n.addr)
    × (n'.bitmap_size ≡ n.bitmap_size)
    × (n'.total_size ≡ n.total_size)
    × ((q : ℕ) → is_used n'.mem q ≡ is_used n.mem q)

-- The nodes are the same, but that one, other than the first, may have been given back: it had no
-- section in use.
pub data Restored : List Node → List Node → Option ℕ → Type 0 where
  done : Restored [] [] none
  keep :
      {n n' : Node} {ns ns' : List Node} {o : Option ℕ}
      → SameNode n n'
      → Restored ns ns' o
      → Restored (n ∷ ns) (n' ∷ ns') o
  drop :
      {n : Node} {ns ns' : List Node} {a : ℕ}
      → a ≡ n.addr
      → Free n.mem 0 n.bitmap_size
      → Restored ns ns' none
      → Restored (n ∷ ns) ns' (some a)

-- The sections of a node lie in it, and the sections of a later node lie behind its end, or in front of
-- its own sections. Nodes of 504 sections on pages that follow each other are such nodes, though the last
-- sections of the one overlap the header of the other.
abbrev pub Apart : Node → List Node → Type 0
Apart n [] = Unit {0}
Apart n (m ∷ ms) =
    ((n.addr + node_header + n.total_size < first_section m)
      ⊎ (m.addr + node_header + m.total_size < first_section n))
    × Apart n ms

abbrev pub AllApart : List Node → Type 0
AllApart [] = Unit {0}
AllApart (n ∷ ns) =
    (ceil_u64_div n.bitmap_size 8 + 8 * n.bitmap_size ≤ n.total_size) × Apart n ns × AllApart ns

-- The header of a block does not lie in the header or the bitmap of a node.
abbrev pub ClearOf : (block : ℕ) → List Node → Type 0
ClearOf block [] = Unit {0}
ClearOf block (n ∷ ns) =
    ((block + block_header ≤ n.addr) ⊎ (first_section n ≤ block)) × ClearOf block ns

Restored-same : (ns : List Node) → Restored ns ns none
Restored-same [] = done
Restored-same (n ∷ ns) = keep (refl, refl, refl, λ q. refl) (Restored-same ns)

-- A bitmap of zeros: all sections are free.
is_clear-Free :
    (rounds i : ℕ) (mem : ℕ → ℕ) (q : ℕ)
    → is_clear rounds i mem ≡ true
    → i ≤ q / 8
    → q / 8 < i + rounds
    → is_used mem q ≡ false
unfolding is_clear
is_clear-Free zero i mem q e a b = absurd (omega arith)
is_clear-Free (suc n) i mem q e a b = elim (Bool-cases (q / 8 == i)) [
  | inl here ↦
      let byte : mem (q / 8) ≡ 0 = ground arith in
      is_used-bit mem q ∙ rw (byte, bit-zero (7 - q % 8)) refl
  | inr later ↦ is_clear-Free n (i + 1) mem q (ground arith) (ground arith) (omega arith)
]

-- After the marks of an allocation are taken away again, the sections are as before.
unmarked :
    (n n' : Node) (s needed : ℕ)
    → s + needed ≤ 2 ^ 35
    → 0 < needed
    → Free n.mem s (s + needed)
    → Marked true s (s + needed) n.mem n'.mem
    → (mem' : ℕ → ℕ) × (mark_bitmap s needed false n'.mem ≡ some mem')
      × ((q : ℕ) → is_used mem' q ≡ is_used n.mem q)
unmarked n n' s needed small pos free (bytes, m) =
    let (mem', e, (_, back)) = mark_bitmap-Marked s needed false n'.mem bytes pos small in
    (mem', e, λ q. ground (arith, m q, back q, free q))

module _ (needed : ℕ) (pos : 0 < needed) where
  -- The node of the allocation holds its address, at the section that was found.
  here_holds :
      (n n' : Node) (s : ℕ)
      → n.bitmap_size ≤ 2 ^ 35
      → ceil_u64_div n.bitmap_size 8 + 8 * n.bitmap_size ≤ n.total_size
      → s + needed ≤ n.bitmap_size
      → n'.addr ≡ n.addr
      → n'.bitmap_size ≡ n.bitmap_size
      → n'.total_size ≡ n.total_size
      → (holds n' (section_addr n s) ≡ true) × ((section_addr n s - first_section n') / 8 ≡ s)
  unfolding holds first_section section_addr
  here_holds n n' s small room fits a b c =
      let same = ap (λ t. ceil_u64_div t 8) b in (ground (arith, same), omega (arith, same, a))

  -- An earlier node that lies apart does not hold it.
  elsewhere :
      (n : Node) (ns ns' : List Node) (a : ℕ)
      → Apart n ns
      → AllApart ns
      → Allocated needed ns (hit (ns', a))
      → holds n a ≡ false
  unfolding holds first_section section_addr
  elsewhere n [] ns' a p v h = absurd h
  elsewhere n (m ∷ ms) [] a p v h = absurd h
  elsewhere n (m ∷ ms) (m' ∷ ms') a (p, _) (fits, _, _) (inl (s, (room, _, _), _, _, _, _, _, e)) =
      ground (arith, p, fits, e)
  elsewhere n (m ∷ ms) (m' ∷ ms') a (_, p) (_, _, v) (inr (_, _, h)) = elsewhere n ms ms' a p v h

  -- The release at a node of the list: what is in front, and what is given back.
  here_restored :
      (is_head : Bool) (n n'' : Node) (ns : List Node)
      → n.bitmap_size ≤ 2 ^ 35
      → SameNode n n''
      → (ns'' : List Node) × (o : Option ℕ) × (release_if_unused is_head n'' ns ≡ (ns'', o))
        × Restored (n ∷ ns) ns'' o
  unfolding release_if_unused
  here_restored true n n'' ns small same = (n'' ∷ ns, none, refl, keep same (Restored-same ns))
  here_restored false n n'' ns small (e1, e2, e3, bits) =
      elim (Bool-cases (is_clear (ceil_u64_div n''.bitmap_size 8) 0 n''.mem)) [
        | inl clear ↦ (
          ns,
          some n''.addr,
          rw clear refl,
          drop e1
              (λ q a b.
                sym (bits q)
                ∙ is_clear-Free (ceil_u64_div n''.bitmap_size 8) 0 n''.mem q clear (omega arith)
                    (omega (arith, e2, ceil_u64_div_least n''.bitmap_size 8)))
              (Restored-same ns),
        )
        | inr used ↦ (n'' ∷ ns, none, rw used refl, keep (e1, e2, e3, bits) (Restored-same ns))
      ]

  free_here :
      (is_head : Bool) (n : Node) (ns : List Node) (a s : ℕ) (mem' : ℕ → ℕ)
      → holds n a ≡ true
      → (a - first_section n) / 8 ≡ s
      → mark_bitmap s needed false n.mem ≡ some mem'
      → free_in is_head a needed (n ∷ ns)
        ≡ hit (release_if_unused is_head (record n { mem = mem' }) ns)
  unfolding free_in
  free_here is_head n ns a s mem' h e f = rw (h, e, f, free_in) refl

  free_there :
      (is_head : Bool) (n : Node) (ns ns'' : List Node) (a : ℕ) (o : Option ℕ)
      → holds n a ≡ false
      → free_in false a needed ns ≡ hit (ns'', o)
      → free_in is_head a needed (n ∷ ns) ≡ hit (n ∷ ns'', o)
  unfolding free_in
  free_there is_head n ns ns'' a o h e = rw (h, e, free_in) refl

  -- To release what an allocation returned brings back the nodes, as `Restored` says.
  pub free_in-Restored :
      (is_head : Bool) (ns ns' : List Node) (a : ℕ)
      → AllNodes ns
      → AllApart ns
      → Allocated needed ns (hit (ns', a))
      → (ns'' : List Node) × (o : Option ℕ) × (free_in is_head a needed ns' ≡ hit (ns'', o))
        × Restored ns ns'' o
  free_in-Restored is_head [] ns' a v p h = absurd h
  free_in-Restored is_head (n ∷ ns) [] a v p h = absurd h
  free_in-Restored is_head (n ∷ ns) (n' ∷ ns') a (v, vs) (fits, p, ps)
        (inl (s, (room, free, _), e1, e2, e3, m, e4, e5)) =
      let (held, at_s) = here_holds n n' s v.small fits room e1 e2 e3 in
      let (mem', f, bits) = unmarked n n' s needed (omega (arith, room, v.small)) pos free m in
      let same : SameNode n (record n' { mem = mem' }) = (e1, e2, e3, bits) in
      let (ns'', o, e, r) = here_restored is_head n _ ns v.small same in
      (
        ns'',
        o,
        ap₂ (λ x l. free_in is_head x needed (n' ∷ l)) e5 e4
            ∙ (free_here is_head n' ns (section_addr n s) s mem' held at_s f ∙ ap hit e),
        r,
      )
  free_in-Restored is_head (n ∷ ns) (n' ∷ ns') a (v, vs) (fits, p, ps) (inr (full, e, h)) =
      let (ns'', o, f, r) = free_in-Restored false ns ns' a vs ps h in
      let out = elsewhere n ns ns' a p ps h in
      (
        n ∷ ns'',
        o,
        rw e (free_there is_head n ns' ns'' a o out f),
        keep (refl, refl, refl, λ q. refl) r,
      )
