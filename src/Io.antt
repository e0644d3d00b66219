-- ===== src/Io.antt =====
-- The files of src/io: formatted output and the console in the frame buffer.
pub mod Format
pub mod Vga
pub mod Output
pub mod Serial
