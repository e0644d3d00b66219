-- ===== src/File.antt =====
-- The files of src/file: the FAT32 file system, the partition table, the NVMe driver and the firmware tables.
pub mod Fat32
pub mod Nvme
pub mod Acpi
pub mod Gpt
