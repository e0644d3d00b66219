-- ===== src/Int.antt =====
-- The files of src/int: the keyboard, the interrupt tables and the system calls.
pub mod Interrupt
pub mod Keyboard
pub mod Syscall
