-- ===== src/Mem/Vmm/Release/Merging.antt =====
-- The search of `vmm_free` of src/mem/vmm.c for a free neighbour of the freed block.
use lios.Mem.Pmm.Chain.{Chain}
