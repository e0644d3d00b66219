-- ===== src/Mem/Pmm/Alloc.antt =====
-- `pmm_alloc_low` and `pmm_alloc_high` of src/mem/pmm.c on lists.
use lios.Prelude.{ℕ, ◌≡◌, refl, arith, List, ◌∷◌}
use lios.Mem.Pmm.{Pmm, Result, ok, write, pmm_alloc_low, pmm_alloc_high}
use lios.Mem.Pmm.Chain.{Chain, NotIn, Chain-write, write_self}

-- The lists of low and of high free pages and of allocated nodes.
pub record Lists (s : Pmm) (low high taken : List ℕ) : Type 0 where
  pub low_chain : Chain s.next s.low low
  pub high_chain : Chain s.next s.high high
  pub taken_chain : Chain s.next s.free_list taken

module _ (s : Pmm) (n : ℕ) (ns high taken : List ℕ) where
  -- With a node in front of the low list that no other list holds, `pmm_alloc_low` returns the
  -- address of that node and moves it to the front of the allocated nodes; the addresses and the
  -- other lists stay.
  pub pmm_alloc_low-Lists :
      Lists s (n ∷ ns) high taken
      → NotIn n ns
      → NotIn n high
      → NotIn n taken
      → (s' : Pmm) × (pmm_alloc_low s ≡ ok (s.addr n, s'))
        × Lists s' ns high (n ∷ taken)
        × (s'.addr ≡ s.addr)
  unfolding pmm_alloc_low
  pmm_alloc_low-Lists l a b c =
      let (e, z, rest) = l.low_chain in
      let moved : Pmm = record s {
        low = s.next n;
        next = write s.next n s.free_list;
        free_list = n;
      } in
      (
        moved,
        rw e (ground arith),
        record {
          low_chain = Chain-write s.next (s.next n) n s.free_list ns rest a;
          high_chain = Chain-write s.next s.high n s.free_list high l.high_chain b;
          taken_chain = (
            refl,
            z,
            rw (write_self s.next n s.free_list)
                (Chain-write s.next s.free_list n s.free_list taken l.taken_chain c),
          );
        },
        refl,
      )

module _ (unmap : ℕ → Pmm → Result Pmm) (s : Pmm) (n : ℕ) (low ns taken : List ℕ) where
  -- With a node in front of the high list that no other list holds, `pmm_alloc_high` returns the
  -- address of that node and moves it to the front of the allocated nodes; the addresses and the
  -- other lists stay.
  pub pmm_alloc_high-Lists :
      Lists s low (n ∷ ns) taken
      → NotIn n ns
      → NotIn n low
      → NotIn n taken
      → (s' : Pmm) × (pmm_alloc_high unmap s ≡ ok (s.addr n, s'))
        × Lists s' low ns (n ∷ taken)
        × (s'.addr ≡ s.addr)
  unfolding pmm_alloc_high
  pmm_alloc_high-Lists l a b c =
      let (e, z, rest) = l.high_chain in
      let moved : Pmm = record s {
        high = s.next n;
        next = write s.next n s.free_list;
        free_list = n;
      } in
      (
        moved,
        rw e (ground arith),
        record {
          low_chain = Chain-write s.next s.low n s.free_list low l.low_chain b;
          high_chain = Chain-write s.next (s.next n) n s.free_list ns rest a;
          taken_chain = (
            refl,
            z,
            rw (write_self s.next n s.free_list)
                (Chain-write s.next s.free_list n s.free_list taken l.taken_chain c),
          );
        },
        refl,
      )
