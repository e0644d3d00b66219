-- ===== src/Proc.antt =====
-- The files of src/proc: the program loader and the process table.
pub mod Elf
pub mod Table
