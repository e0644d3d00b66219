-- ===== src/Mem/Vmm/Allocated.antt =====
-- The list of allocated blocks in src/mem/vmm.c: what is added is found and taken away again.
use lios.Prelude.{ℕ, ◌≢◌, List, [], ◌∷◌, ◌⊎◌}
use lios.Mem.Pmm.Chain.{Chain}
use lios.Mem.Vmm.{AllocList}

-- The nodes hold a block, and none at this address.
abbrev pub Others : AllocList → (start : ℕ) → List ℕ → Type 0
Others l start [] = Unit {0}
Others l start (n ∷ ns) =
    ((l.start n ≢ 0) ⊎ (l.size n ≢ 0)) × (l.start n ≢ start) × Others l start ns
