-- ===== src/Checks.antt =====
-- Runs of the models on concrete inputs.
mod Utilities
mod Printing
mod Screen
mod Interrupts
mod Files
mod Lookups
mod Memories
mod Heap
mod Programs
mod Ranges
mod Startup
mod Disks
