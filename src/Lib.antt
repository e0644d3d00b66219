-- ===== src/Lib.antt =====
-- LiOS, a small 64-bit kernel in C: models of its memory management, its file system, its interrupt
-- handling, its program loader and its library routines.
--
-- At the start (src/kmain.c) the memory map of the boot loader gives the physical allocator its pages, and
-- the firmware's tables (src/file/acpi.c) lead to the disk controller (src/file/nvme.c).
--
-- The kernel maps pages through four levels of tables (src/mem/page.c), whose frames come from the
-- physical allocator (src/mem/pmm.c). It reads a GPT disk (src/file/gpt.c) with a FAT32 volume
-- (src/file/fat32.c). Interrupts are dispatched by tables (src/int/interrupt.c) to the keyboard driver
-- (src/int/keyboard.c) and the system calls (src/int/syscall.c), which read what the keyboard recorded.
-- The heap (src/mem/vmalloc.c) takes its pages from the virtual page allocator (src/mem/vmm.c), and the
-- program loader (src/proc/elf.c) its memory from the heap.
-- All of it uses the routines of src/util and prints by src/io/output.c.
--
-- Files, with the code that each models:
--   Prelude       shared names, lists and words over the native numbers, bit operations as arithmetic
--   Util/KMath    src/util/kmath.c: the rounded divisions
--   Util/Misc     src/util/misc.c: memcpy, memset, strlen, strcmp, strncmp, toupper
--   Util/ArrayList  src/util/arraylist.c: new, add, remove and free, on the bytes of the block
--   Util/Const    src/util/const.c: the tables of key codes and messages
--   Io/Format     src/io/output.c: printf, as the list of the characters it prints
--   Io/Output     src/io/output.c: the destinations and the messages to the serial port
--   Io/Vga        src/io/vga.c: the cursor and the characters of the console
--   Int/Keyboard  src/int/keyboard.c: the state of the driver, and one scan code as one step
--   Int/Interrupt src/int/interrupt.c: the gates, the routine table and the dispatch
--   Int/Syscall   src/int/syscall.c: the read and the write call
--   File/Gpt      src/file/gpt.c: the search for the basic data partition
--   File/Fat32    src/file/fat32.c: mounting, lookup, reading and creation of files
--   Mem/Page      src/mem/page.c and kcalloc_page, kfree_page of src/mem/kmalloc.c
--   Mem/Vmalloc   src/mem/vmalloc.c: the heap of bitmap nodes; Release has vfree and the calls made of both
--   Mem/Vmm       src/mem/vmm.c: the free and the allocated ranges of virtual pages; Release has vmm_free
--   Proc/Elf      src/proc/elf.c: the checks on a program file and the loading of its segments
--   Proc/Table    src/proc/proc.c: the process table
--   Util/Hexdump  src/util/hexdump.c: the lines of a dump
--   Mem/Pmm       src/mem/pmm.c: the lists of free and of allocated pages
--   Boot          src/kmain.c: the two passes over the memory map; Boot/Tss has the segment descriptor
--   File/Nvme     src/file/nvme.c: the set-up, reads and writes; File/Nvme/Pci has the search
--   File/Acpi     src/file/acpi.c: the search for the MCFG table
--   Io/Serial     src/io/serial.c: the set-up of the port and one character
--   Io/Vga/Drawing  src/io/vga.c: the cells that the console draws
--   Io/Vga/Pixels src/io/vga.c: drawing a character and clearing the screen
--   Checks        runs on concrete inputs
--
-- State is passed explicitly: a record for the globals of a file, a function for memory or the disk,
-- with a panic, a halt or a write out of bounds as a result of its own. Integers of the C types keep
-- their wrap-around (u8, u32, u64 of Prelude/Word).
--
-- Fuel: loops with a bound in the code are recursion on the number of rounds. Loops along a chain of
-- pointers or clusters take fuel, and `stuck` or `none` says that it ran out; the theorems on them ask
-- for more fuel than the chain is long, and state that the result is then returned. Two loops count with
-- 32 bits up to a bound of 64 bits, in mark_bitmap and in the growth of the recording: their
-- fuel is one round more than the counter has values, and where it runs out the result is `none` or
-- `endless`.
--
-- Not modelled: assembly; the order of the calls in kmain behind the set-up of the page lists;
-- messages that are only logged; what panic prints. The
-- header src/util/multiboot2.h is copied from the boot protocol, and the font is generated: the model of
-- the pixels takes it as a parameter, with the words in front of it.
-- Components are given to each other as parameters: `Frames` for the page allocator of the page tables,
-- with one hypothesis, that it hands out aligned frames of the direct map; `Pages` for the pages under
-- the heap; `Kernel` for the frames and mappings under the virtual page allocator; `Machine` for the
-- heap and the paging that the program loader uses, with what the new frames hold; `Controller` for the disk controller and the memory
-- that it shares; `Pci` for the paging under the search for it; `Screens` for the paging under the frame
-- buffer; and the values of the line status port. What a fresh block of the heap holds is a parameter
-- of its length only.
pub mod Boot
pub mod Prelude
pub mod Util
pub mod Io
pub mod Int
pub mod File
pub mod Mem
pub mod Proc
pub mod Checks
