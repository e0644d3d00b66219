-- ===== src/Mem/Pmm/Release.antt =====
-- `pmm_free` of src/mem/pmm.c on lists, and what it does to the list of allocated nodes.
use lios.Prelude.{ℕ, ◌+◌, ◌<◌, ◌≡◌, ◌≢◌, refl, arith, List, [], ◌∷◌, ◌++◌, length, length-append}
use lios.Mem.Pmm.{Pmm, ok, panic, write, two_gb, find_node, release_node, pmm_free}
use lios.Mem.Pmm.Chain.{
  Chain, NotIn, NoneAt, Chain-write, Chain-redirect, write_self, find_node-found, find_node-missing,
}

NoneAt-write :
    (addr : ℕ → ℕ) (n mem a : ℕ) (ns : List ℕ)
    → mem ≢ a
    → NoneAt addr a ns
    → NoneAt (write addr n mem) a ns
NoneAt-write addr n mem a [] ne h = tt
NoneAt-write addr n mem a (m ∷ ms) ne (x, h) = (ground arith, NoneAt-write addr n mem a ms ne h)

NoneAt-append :
    (addr : ℕ → ℕ) (a : ℕ) (xs ys : List ℕ)
    → NoneAt addr a xs
    → NoneAt addr a ys
    → NoneAt addr a (xs ++ ys)
NoneAt-append addr a [] ys h k = k
NoneAt-append addr a (x ∷ xs) ys (e, h) k = (e, NoneAt-append addr a xs ys h k)

missing_panics :
    (fuel a : ℕ) (s : Pmm) → find_node fuel a s.free_list s ≡ ok 0 → pmm_free fuel a s ≡ panic
unfolding pmm_free
missing_panics fuel a s e = rw (e, pmm_free)

module _ (fuel mem : ℕ) (s : Pmm) (n : ℕ) (pre post low : List ℕ)
    (taken : Chain s.next s.free_list (pre ++ n ∷ post)) (free : Chain s.next s.low low)
    (away : NoneAt s.addr mem pre) (here : s.addr n ≡ mem) (not_pre : NotIn n pre)
    (not_low : NotIn n low) (is_low : mem < two_gb) (enough : length pre < fuel) where
  node_nonzero : (p : ℕ) (xs : List ℕ) → Chain s.next p (xs ++ n ∷ post) → n ≢ 0
  node_nonzero p [] (e, z, c) = z
  node_nonzero p (x ∷ xs) (e, z, c) = node_nonzero (s.next x) xs c

  -- For a page below 2 GiB whose node is among the allocated ones, `pmm_free` returns, and the node
  -- is in front of the low list again. The node is not taken out of the list of allocated nodes: that
  -- list now goes on from the node into the low list, and the nodes behind it are lost.
  pub pmm_free-lists :
      (s' : Pmm) × (pmm_free fuel mem s ≡ ok s')
      × Chain s'.next s'.low (n ∷ low)
      × Chain s'.next s'.free_list (pre ++ n ∷ low)
      × (s'.addr ≡ write s.addr n mem)
  unfolding pmm_free release_node
  pmm_free-lists =
      let z = node_nonzero s.free_list pre taken in
      (
        record s { low = n; next = write s.next n s.low; addr = write s.addr n mem },
        rw (find_node-found fuel mem s.free_list n s pre post taken away here enough, pmm_free)
            (ground arith),
        (
          refl,
          z,
          rw (write_self s.next n s.low) (Chain-write s.next s.low n s.low low free not_low),
        ),
        Chain-redirect s.next s.free_list n s.low pre post low taken not_pre not_low free,
        refl,
      )

  -- After `pmm_free` of a page below 2 GiB whose node is among the allocated ones, freeing another
  -- page panics, with enough fuel, if no node before the freed one among the allocated nodes and no
  -- node of the low list holds it: so a page allocated before the freed one can no longer be freed.
  pub pmm_free_forgets :
      (fuel' a : ℕ)
      → mem ≢ a
      → NoneAt s.addr a pre
      → NoneAt s.addr a low
      → length pre + length low + 1 < fuel'
      → (s' : Pmm) × (pmm_free fuel mem s ≡ ok s') × (pmm_free fuel' a s' ≡ panic)
  pmm_free_forgets fuel' a ne b c f =
      let (s', e, l, t, x) = pmm_free-lists in
      let missing =
        find_node-missing fuel' a s'.free_list s' (pre ++ n ∷ low) t
          (rw x (
            NoneAt-append (write s.addr n mem) a pre (n ∷ low)
              (NoneAt-write s.addr n mem a pre ne b)
              (rw (write_self s.addr n mem) ne, NoneAt-write s.addr n mem a low ne c)))
          (omega (arith, length-append pre (n ∷ low))) in
      (s', e, missing_panics fuel' a s' missing)
