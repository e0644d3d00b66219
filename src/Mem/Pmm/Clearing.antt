-- ===== src/Mem/Pmm/Clearing.antt =====
-- `pmm_clear_blocks` of src/mem/pmm.c, which takes a range of addresses out of the high list.
use lios.Prelude.{
  ℕ, zero, suc, ◌+◌, ◌-◌, ◌^◌, ◌≤◌, ◌<◌, ◌≡◌, ◌≢◌, refl, arith, true, false, leb, ◌==◌,
  if◌then◌else◌, List, [], ◌∷◌, ◌++◌, length, append_assoc, sub_u64, subst,
}
use lios.Mem.Page.{page_size}
use lios.Mem.Pmm.{Pmm, ok, write, find_range, pmm_clear_blocks}
use lios.Mem.Pmm.Chain.{Chain, NotIn, Chain-redirect}

-- The pages of the nodes begin below an address, and behind one.
abbrev pub AllBelow : (ℕ → ℕ) → (end : ℕ) → List ℕ → Type 0
AllBelow addr end [] = Unit {0}
AllBelow addr end (n ∷ ns) = (addr n < end) × AllBelow addr end ns

abbrev pub AllAbove : (ℕ → ℕ) → (limit : ℕ) → List ℕ → Type 0
AllAbove addr limit [] = Unit {0}
AllAbove addr limit (n ∷ ns) = (limit < addr n) × AllAbove addr limit ns

-- The last node at or below `limit`, or else the node from before.
last_below : (ℕ → ℕ) → (limit before : ℕ) → List ℕ → ℕ
last_below addr limit before [] = before
last_below addr limit before (n ∷ ns) =
    last_below addr limit (if leb (addr n) limit then n else before) ns

find_range-found :
    (fuel limit end p e before : ℕ) (s : Pmm) (ns post : List ℕ)
    → Chain s.next p (ns ++ e ∷ post)
    → AllBelow s.addr end ns
    → end ≤ s.addr e
    → limit < end
    → length ns < fuel
    → find_range fuel limit end p before s ≡ ok (last_below s.addr limit before ns, e)
unfolding find_range last_below
find_range-found zero limit end p e before s ns post c a b g f = elim f [ ]
find_range-found (suc fuel) limit end p e before s [] post (x, z, c) a b g f = ground arith
find_range-found (suc fuel) limit end p e before s (n ∷ ns) post (x, z, c) (y, a) b g f =
    let here : (p == 0) ≡ false = ground arith in
    let below : leb end (s.addr n) ≡ false = ground arith in
    let before' = if leb (s.addr n) limit then n else before in
    let rest =
      find_range-found fuel limit end (s.next n) e before' s ns post c a b g (omega arith) in
    rw x (rw (below, rest) (ground arith))

find_range-none :
    (fuel limit end p before : ℕ) (s : Pmm) (ns : List ℕ)
    → Chain s.next p ns
    → AllBelow s.addr end ns
    → length ns < fuel
    → find_range fuel limit end p before s ≡ ok (last_below s.addr limit before ns, 0)
unfolding find_range last_below
find_range-none zero limit end p before s ns c a f = elim f [ ]
find_range-none (suc fuel) limit end p before s [] c a f = ground arith
find_range-none (suc fuel) limit end p before s (n ∷ ns) (x, z, c) (y, a) f =
    let below : leb end (s.addr n) ≡ false = ground arith in
    let before' = if leb (s.addr n) limit then n else before in
    let rest = find_range-none fuel limit end (s.next n) before' s ns c a (omega arith) in
    rw x (rw (below, rest) (ground arith))

last_below-above :
    (addr : ℕ → ℕ) (limit before : ℕ) (mid : List ℕ)
    → AllAbove addr limit mid
    → last_below addr limit before mid ≡ before
unfolding last_below
last_below-above addr limit before [] c = refl
last_below-above addr limit before (n ∷ ns) (x, c) =
    let no_page : leb (addr n) limit ≡ false = ground arith in
    rw (no_page, last_below) (last_below-above addr limit before ns c)

last_below-at :
    (addr : ℕ → ℕ) (limit before a : ℕ) (pre mid : List ℕ)
    → addr a ≤ limit
    → AllAbove addr limit mid
    → last_below addr limit before (pre ++ a ∷ mid) ≡ a
unfolding last_below
last_below-at addr limit before a [] mid b c =
    let here : leb (addr a) limit ≡ true = ground arith in
    rw (here, last_below) (last_below-above addr limit a mid c)
last_below-at addr limit before a (n ∷ ns) mid b c =
    last_below-at addr limit (if leb (addr n) limit then n else before) a ns mid b c

-- A node of the list is not null, and the list goes on behind it.
Chain-middle :
    (next : ℕ → ℕ) (p n : ℕ) (pre post : List ℕ)
    → Chain next p (pre ++ n ∷ post)
    → (n ≢ 0) × Chain next (next n) post
Chain-middle next p n [] post (e, z, c) = (z, c)
Chain-middle next p n (m ∷ ms) post (e, z, c) = Chain-middle next (next m) n ms post c

-- When the high list has a page that ends at or below `start`, behind it pages that do not and that
-- begin below `end`, and then a page that begins at or above `end`: what stands between the first and
-- the last of these is taken out, and the last one with it. The rest stays in order, and no address
-- changes. With more fuel than there are pages below `end`.
pub pmm_clear_blocks-lists :
    (fuel start end a e : ℕ) (s : Pmm) (pre mid post : List ℕ)
    → Chain s.next s.high ((pre ++ a ∷ mid) ++ e ∷ post)
    → NotIn a pre
    → NotIn a post
    → start ≤ end
    → end < 2 ^ 64
    → s.addr a + page_size ≤ start
    → AllAbove s.addr (start - page_size) mid
    → AllBelow s.addr end (pre ++ a ∷ mid)
    → end ≤ s.addr e
    → length (pre ++ a ∷ mid) < fuel
    → (s' : Pmm) × (pmm_clear_blocks fuel start end s ≡ ok s')
      × Chain s'.next s'.high (pre ++ a ∷ post)
      × (s'.addr ≡ s.addr)
      × (s'.low ≡ s.low)
unfolding pmm_clear_blocks
pmm_clear_blocks-lists fuel start end a e s pre mid post c o o' r b fits above below big f =
    let limit : sub_u64 start page_size ≡ start - page_size = omega arith in
    let found =
      find_range-found fuel (start - page_size) end s.high e 0 s (pre ++ a ∷ mid) post c below big
        (omega arith) f in
    let at = last_below-at s.addr (start - page_size) 0 a pre mid (omega arith) above in
    let c' = subst (λ l. Chain s.next s.high l) (append_assoc pre (a ∷ mid) (e ∷ post)) c in
    let (y, behind) = Chain-middle s.next s.high a pre (mid ++ e ∷ post) c' in
    let (z, tail) = Chain-middle s.next s.high e (pre ++ a ∷ mid) post c in
    let a_there : (a == 0) ≡ false = ground arith in
    let e_there : (e == 0) ≡ false = ground arith in
    (
      record s { next = write s.next a (s.next e) },
      rw (limit, found, at, a_there, e_there, pmm_clear_blocks) refl,
      Chain-redirect s.next s.high a (s.next e) pre (mid ++ e ∷ post) post c' o o' tail,
      refl,
      refl,
    )

-- When every page of the high list begins below `end`, so also when the range reaches to its last page,
-- nothing is taken out.
pub pmm_clear_blocks-nothing :
    (fuel start end : ℕ) (s : Pmm) (ns : List ℕ)
    → Chain s.next s.high ns
    → AllBelow s.addr end ns
    → length ns < fuel
    → pmm_clear_blocks fuel start end s ≡ ok s
unfolding pmm_clear_blocks
pmm_clear_blocks-nothing fuel start end s ns c below f =
    let found = find_range-none fuel (sub_u64 start page_size) end s.high 0 s ns c below f in
    rw (found, pmm_clear_blocks) (ground arith)
