-- ===== src/File/Nvme/Pci.antt =====
-- The search of src/file/nvme.c for the controller among the PCI functions. The paging calls and the
-- configuration space that they map are a parameter, `Pci`; `none` is a panic. The entries of the MCFG
-- table are a list.
pub mod Search
use lios.Prelude.{
  ℕ, zero, suc, ◌+◌, ◌-◌, ◌*◌, ◌/◌, ◌%◌, ◌^◌, Bool, true, false, ◌&&◌, ◌==◌, if◌then◌else◌, Option,
  none, some, List, [], ◌∷◌, bit_and, bit_or, u64, ◌<<<◌,
}
use lios.File.Fat32.{Block, le_u16, le_u32}
use lios.Mem.Page.{page_size, ◌>>=◌}

abbrev pub virt_addr : ℕ
virt_addr = 0xFFFF900000000000

-- `256 << 20` bytes
abbrev pub window_pages : ℕ
window_pages = 65536

pub record McfgEntry : Type 0 where
  pub addr : ℕ
  pub start_pci : ℕ
  pub end_pci : ℕ

pub record Pci : Type 1 where
  pub State : Type 0
  pub page_map : (virt phys : ℕ) → State → Option State
  pub page_unmap : ℕ → State → Option State
  pub byte_at : State → ℕ → ℕ
  pub write_u16 : (addr value : ℕ) → State → State

pub pci_get_addr : (base bus device function offset : ℕ) → ℕ
pci_get_addr base bus device function offset =
    u64 (bit_or (bit_or (bus <<< 20) (device <<< 15)) (function <<< 12) + base + offset)

-- A function is there, and its class is that of NVMe.
abbrev pub is_nvme : Block → Bool
is_nvme header =
    if le_u16 header 0 == 0xFFFF then false else header 11 == 1 && (header 10 == 8 && header 9 == 2)

module _ (header_at : ℕ → Block) where
  -- The innermost loop, with the rounds left, and then the two around it: the address of the header of
  -- the function that `goto found_nvme_device` is reached with.
  pub search_functions : (rounds bus device function : ℕ) → Option ℕ
  search_functions zero bus device function = none
  search_functions (suc n) bus device function =
      let header = pci_get_addr virt_addr bus device function 0 in
      let rest = search_functions n bus device (function + 1) in
      if is_nvme (header_at header) then some header else rest

  pub search_devices : (rounds bus device : ℕ) → Option ℕ
  search_devices zero bus device = none
  search_devices (suc n) bus device = elim (search_functions 8 bus device 0) [
    | some header ↦ some header
    | none ↦ search_devices n bus (device + 1)
  ]

  pub search_buses : (rounds bus : ℕ) → Option ℕ
  search_buses zero bus = none
  search_buses (suc n) bus = elim (search_devices 32 bus 0) [
    | some header ↦ some header
    | none ↦ search_buses n (bus + 1)
  ]

-- `((u64) bar1 << 32) | (bar0 & 0xFFFFFFF0)`
unfoldable bar_address : Block → ℕ
bar_address header = bit_or (le_u32 header 20 <<< 32) (bit_and (le_u32 header 16) 0xFFFFFFF0)

module _ (P : Pci) where
  open P use {State, page_map, page_unmap, byte_at, write_u16}

  unfoldable map_window : (rounds i addr : ℕ) → State → Option State
  map_window zero i addr s = some s
  map_window (suc n) i addr s =
      page_map (u64 (virt_addr + i * page_size)) (u64 (addr + i * page_size)) s
      >>= map_window n (i + 1) addr

  unfoldable unmap_window : (rounds i : ℕ) → State → Option State
  unmap_window zero i s = some s
  unmap_window (suc n) i s =
      page_unmap (u64 (virt_addr + i * page_size)) s >>= unmap_window n (i + 1)

  -- Bus mastering and memory space on, interrupts not disabled: the command word of the header, twice.
  unfoldable enable : (header : ℕ) → State → State
  enable header s =
      let s₁ = write_u16 (header + 4) (bit_or (le_u16 (λ i. byte_at s (header + i)) 4) 6) s in
      write_u16 (header + 4) (bit_and (le_u16 (λ i. byte_at s₁ (header + i)) 4) (0xFFFF - 1024)) s₁

  -- The state with the registers of the controller mapped at `virt_addr`, where the driver finds them; no
  -- controller (`0` in the code) if the table has no entry.
  unfoldable nvme_find : List McfgEntry → State → Option (Option ℕ × State)
  nvme_find [] s = some (none, s)
  nvme_find (entry ∷ rest) s = map_window window_pages 0 entry.addr s >>= λ s₁.
      let found =
        search_buses (λ a i. byte_at s₁ (a + i)) (entry.end_pci + 1 - entry.start_pci)
          entry.start_pci in
      let base : ℕ = elim found [
        | none ↦ 0
        | some header ↦ bar_address (λ i. byte_at s₁ (header + i))
      ] in
      let s₂ : State = elim found [ none ↦ s₁ | some header ↦ enable header s₁ ] in
      unmap_window window_pages 0 s₂ >>= λ s₃. page_map virt_addr base s₃ >>= λ s₄.
      page_map (virt_addr + 0x1000) (u64 (base + 0x1000)) s₄ >>= λ s₅. some (some virt_addr, s₅)
