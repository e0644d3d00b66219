-- ===== src/Mem/Vmm/Ranges.antt =====
-- The free list of src/mem/vmm.c as a list of ranges, and the first fit on it.
use lios.Prelude.{
  ℕ, ◌+◌, ◌-◌, ◌<◌, ◌≤◌, ◌≡◌, ◌≢◌, refl, arith, true, false, leb, ◌==◌, if◌then◌else◌, List, [],
  ◌∷◌, ◌++◌, Option, none, some, u64,
}
use lios.Mem.Pmm.{write}
use lios.Mem.Pmm.Chain.{NotIn, write_other}

-- The ranges of the nodes that are not empty: an address and a size.
abbrev pub ranges : (start size : ℕ → ℕ) → List ℕ → List (ℕ × ℕ)
ranges start size [] = []
ranges start size (n ∷ ns) =
    let rest = ranges start size ns in if size n == 0 then rest else (start n, size n) ∷ rest

-- A range that is used up goes away, another one loses its first addresses.
abbrev pub shrunk : (request start size : ℕ) → List (ℕ × ℕ) → List (ℕ × ℕ)
shrunk request start size rs =
    if size == request then rs else (u64 (start + request), size - request) ∷ rs

-- The first range that is large enough gives its first addresses.
abbrev pub reserve : (request : ℕ) → List (ℕ × ℕ) → Option (ℕ × List (ℕ × ℕ))
reserve request [] = none
reserve request ((start, size) ∷ rs) =
    let rest = reserve request rs in
    if leb request size
    then some (start, shrunk request start size rs)
    else elim rest [ none ↦ none | some (a, rs') ↦ some (a, (start, size) ∷ rs') ]

abbrev pub Small : (size : ℕ → ℕ) (request : ℕ) → List ℕ → Type 0
Small size request [] = Unit {0}
Small size request (n ∷ ns) = (size n < request) × Small size request ns

pub ranges-append :
    (start size : ℕ → ℕ) (ns ms : List ℕ)
    → ranges start size (ns ++ ms) ≡ ranges start size ns ++ ranges start size ms
ranges-append start size [] ms = refl
ranges-append start size (n ∷ ns) ms = ground (arith, ranges-append start size ns ms)

pub ranges-write :
    (start size : ℕ → ℕ) (n u v : ℕ) (ns : List ℕ)
    → NotIn n ns
    → ranges (write start n u) (write size n v) ns ≡ ranges start size ns
ranges-write start size n u v [] o = refl
ranges-write start size n u v (m ∷ ms) (ne, o) =
    rw (write_other start n u m ne, write_other size n v m ne, ranges-write start size n u v ms o)
      refl

pub reserve-none :
    (start size : ℕ → ℕ) (request : ℕ) (ns : List ℕ)
    → Small size request ns
    → reserve request (ranges start size ns) ≡ none
reserve-none start size request [] c = refl
reserve-none start size request (n ∷ ns) (f, c) =
    ground (arith, reserve-none start size request ns c)

pub reserve-first :
    (start size : ℕ → ℕ) (request n : ℕ) (pre post : List ℕ)
    → Small size request pre
    → request ≤ size n
    → request ≢ 0
    → reserve request (ranges start size (pre ++ n ∷ post))
      ≡ some (
        start n,
        ranges start size pre ++ shrunk request (start n) (size n) (ranges start size post),
      )
reserve-first start size request n [] post c f y =
    let e : (size n == 0) ≡ false = ground arith in
    let e' : leb request (size n) ≡ true = ground arith in rw (e, e') refl
reserve-first start size request n (m ∷ ms) post (g, c) f y =
    ground (arith, reserve-first start size request n ms post c f y)
