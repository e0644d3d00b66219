-- ===== src/Mem/Vmm/Startup.antt =====
-- `vmm_init` of src/mem/vmm.c: the free list that it makes of a page.
use lios.Prelude.{ℕ, ◌≡◌, List, [], ◌∷◌, length}
use lios.Mem.Vmm.{FreeList, Vmm}
use lios.Mem.Vmm.Linked.{Linked}
use lios.Mem.Vmm.Fit.{IsFree}
use lios.Mem.Vmm.Ranges.{ranges}

-- A free list of `count` nodes, the last one empty, that hold one range.
abbrev pub OneRange : FreeList → (count start size : ℕ) → Type 0
OneRange l count start size =
    (ns : List ℕ) × (length ns ≡ count)
    × IsFree l ns
    × (ranges l.start l.size ns ≡ (start, size) ∷ [])
