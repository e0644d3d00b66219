-- ===== src/Mem.antt =====
-- The files of src/mem: the page tables, the physical and virtual page allocators and the heap.
pub mod Page
pub mod Pmm
pub mod Vmalloc
pub mod Vmm
