-- ===== src/File/Acpi.antt =====
-- The search of src/file/acpi.c for the MCFG table. The firmware's tables lie in memory, a byte at each
-- virtual address; the configuration table is the list of its entries, a GUID and the physical address of
-- a vendor table. `none` is a panic.
use lios.Prelude.{
  ℕ, zero, suc, ◌+◌, ◌*◌, ◌/◌, Bool, true, false, ◌&&◌, ◌==◌, if◌then◌else◌, Option, none, some,
  List, [], ◌∷◌, u32, u64, sub_u64,
}
use lios.File.Fat32.{Block, le_u32}
use lios.File.Gpt.{le_u64}
use lios.Mem.Page.{kernel_offset}

record Guid : Type 0 where
  data1 : ℕ
  data2 : ℕ
  data3 : ℕ
  data4 : ℕ → ℕ

-- The loop over `Data4` from `i` on.
unfoldable same_from : (rounds i : ℕ) → Guid → Guid → Bool
same_from zero i a b = true
same_from (suc n) i a b =
    let rest = same_from n (i + 1) a b in if a.data4 i == b.data4 i then rest else false

unfoldable is_same_guid : Guid → Guid → Bool
is_same_guid a b =
    same_from 8 0 a b && (a.data1 == b.data1 && (a.data2 == b.data2 && a.data3 == b.data3))

abbrev bytes_at : (ℕ → ℕ) → ℕ → Block
bytes_at mem p i = mem (p + i)

-- The address of the RSDP: the first entry with the GUID of ACPI 2.0 whose table has the signature.
unfoldable find_rsdp : (acpi_guid2 : Guid) → List (Guid × ℕ) → (ℕ → ℕ) → Option ℕ
find_rsdp acpi_guid2 [] mem = none
find_rsdp acpi_guid2 ((guid, vendor) ∷ rest) mem =
    let vendor_table = u64 (vendor + kernel_offset) in
    if is_same_guid guid acpi_guid2 && le_u64 (bytes_at mem vendor_table) 0 == 0x2052545020445352
    then some vendor_table
    else find_rsdp acpi_guid2 rest mem

-- The first table with the signature of MCFG, among the entries of the XSDT from entry `i` on.
unfoldable find_mcfg : (rounds i xsdt : ℕ) → (ℕ → ℕ) → Option ℕ
find_mcfg zero i xsdt mem = none
find_mcfg (suc n) i xsdt mem =
    let header = u64 (le_u64 (bytes_at mem xsdt) (36 + 8 * i) + kernel_offset) in
    let rest = find_mcfg n (i + 1) xsdt mem in
    if le_u32 (bytes_at mem header) 0 == 0x4746434D then some header else rest

-- The length and the address of the XSDT are fields of it and of the RSDP.
unfoldable find_acpi : (acpi_guid2 : Guid) → List (Guid × ℕ) → (ℕ → ℕ) → Option ℕ
find_acpi acpi_guid2 config_table mem = elim (find_rsdp acpi_guid2 config_table mem) [
  | none ↦ none
  | some rsdp ↦
      let xsdt = u64 (le_u64 (bytes_at mem rsdp) 24 + kernel_offset) in
      find_mcfg (u32 (sub_u64 (le_u32 (bytes_at mem xsdt) 4) 36 / 8)) 0 xsdt mem
]
