-- ===== src/Util.antt =====
-- The files of src/util: arithmetic helpers, the C string functions and the array list.
pub mod KMath
pub mod Misc
pub mod ArrayList
pub mod Const
pub mod Hexdump
