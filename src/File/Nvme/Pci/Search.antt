-- ===== src/File/Nvme/Pci/Search.antt =====
-- Which functions the search of src/file/nvme.c looks at, and where their headers lie.
use lios.Prelude.{
  ℕ, zero, suc, ◌+◌, ◌*◌, ◌/◌, ◌%◌, ◌^◌, ◌≤◌, ◌<◌, ◌≡◌, ◌∙◌, refl, ap, ap₂, arith, true, false,
  Bool-cases, inl, inr, Option, none, some, ◌⊎◌, ℕ_discrete, bit_or, bit_or_fields, bit_or-zero,
  zero-bit_or,
}
use lios.File.Fat32.{Block}
use lios.File.Nvme.Pci.{
  virt_addr, pci_get_addr, is_nvme, search_functions, search_devices, search_buses,
}

-- The fields of an address do not overlap, so `|` is a sum.
pci_get_addr-sum :
    (base bus device function offset : ℕ)
    → base + 2 ^ 28 ≤ 2 ^ 64
    → bus < 256
    → device < 32
    → function < 8
    → offset < 256
    → pci_get_addr base bus device function offset
      ≡ base + bus * 2 ^ 20 + device * 2 ^ 15 + function * 2 ^ 12 + offset
unfolding pci_get_addr
pci_get_addr-sum base bus device function offset b m d f o =
    let first : bit_or (bus * 2 ^ 20) (device * 2 ^ 15) ≡ bus * 2 ^ 20 + device * 2 ^ 15 =
      ap₂ (λ x y. bit_or x y) (omega arith) (omega arith)
      ∙ (bit_or_fields 20 bus 0 0 (device * 2 ^ 15) (omega arith) (omega arith)
          ∙ rw (bit_or-zero bus, zero-bit_or (device * 2 ^ 15)) refl) in
    let pair = bus * 32 + device in
    let second : bit_or (bus * 2 ^ 20 + device * 2 ^ 15) (function * 2 ^ 12)
        ≡ bus * 2 ^ 20 + device * 2 ^ 15 + function * 2 ^ 12 =
      ap₂ (λ x y. bit_or x y) (omega arith) (omega arith)
      ∙ (bit_or_fields 15 pair 0 0 (function * 2 ^ 12) (omega arith) (omega arith)
          ∙ rw (bit_or-zero pair, zero-bit_or (function * 2 ^ 12)) (omega arith)) in
    rw (first, second) (omega arith)

-- The address of a byte in the configuration space of a function lies in the 256 MiB that are mapped,
-- and the bus, the device, the function and the byte can be read off it.
pub pci_get_addr-fields :
    (base bus device function offset : ℕ)
    → base + 2 ^ 28 ≤ 2 ^ 64
    → bus < 256
    → device < 32
    → function < 8
    → offset < 256
    → (a : ℕ) × (pci_get_addr base bus device function offset ≡ base + a)
      × (a < 2 ^ 28)
      × (a / 2 ^ 20 ≡ bus)
      × (a / 2 ^ 15 % 32 ≡ device)
      × (a / 2 ^ 12 % 8 ≡ function)
      × (a % 4096 ≡ offset)
pci_get_addr-fields base bus device function offset b m d f o = (
  bus * 2 ^ 20 + device * 2 ^ 15 + function * 2 ^ 12 + offset,
  pci_get_addr-sum base bus device function offset b m d f o ∙ omega arith,
  omega arith,
  omega arith,
  omega arith,
  omega arith,
  omega arith,
)

no_room : {a b : ℕ} → a ≤ b → b < a + 0 → ⊥
no_room l m = omega arith

-- The header of a function.
abbrev pub header_of : (bus device function : ℕ) → ℕ
header_of bus device function = pci_get_addr virt_addr bus device function 0

same_header :
    {b d f bus device function : ℕ}
    → b ≡ bus
    → d ≡ device
    → f ≡ function
    → header_of b d f ≡ header_of bus device function
same_header x y z = rw (x, y, z) refl

module _ (header_at : ℕ → Block) where
  -- What a search among the functions that fit says: the one found is an NVMe controller that fits, or
  -- none that fits is one.
  abbrev pub Outcome : (Fits : (bus device function : ℕ) → Type 0) → Option ℕ → Type 0
  Outcome Fits none =
      (bus device function : ℕ)
      → Fits bus device function
      → is_nvme (header_at (header_of bus device function)) ≡ false
  Outcome Fits (some header) =
      (bus : ℕ) × (device : ℕ) × (function : ℕ) × Fits bus device function
      × (header ≡ header_of bus device function)
      × (is_nvme (header_at header) ≡ true)

  Outcome-step :
      (Fits Rest : (bus device function : ℕ) → Type 0) (o : Option ℕ)
      → ((b d f : ℕ) → Rest b d f → Fits b d f)
      → ((b d f : ℕ) → Fits b d f → Rest b d f ⊎ (is_nvme (header_at (header_of b d f)) ≡ false))
      → Outcome Rest o
      → Outcome Fits o
  Outcome-step Fits Rest none inside split out =
      λ b d f fits. elim (split b d f fits) [ inl rest ↦ out b d f rest | inr other ↦ other ]
  Outcome-step Fits Rest (some header) inside split (b, d, f, fits, e, is) =
      (b, d, f, inside b d f fits, e, is)

  -- The functions, the devices and the buses that are left in a loop.
  abbrev InFunctions : (n bus device function b d f : ℕ) → Type 0
  InFunctions n bus device function b d f =
      (b ≡ bus) × (d ≡ device) × (function ≤ f) × (f < function + n)

  abbrev InDevices : (n bus device b d f : ℕ) → Type 0
  InDevices n bus device b d f = (b ≡ bus) × (device ≤ d) × (d < device + n) × (f < 8)

  abbrev pub InBuses : (n bus b d f : ℕ) → Type 0
  InBuses n bus b d f = (bus ≤ b) × (b < bus + n) × (d < 32) × (f < 8)

  search_functions-Outcome :
      (n bus device function : ℕ)
      → Outcome
          (InFunctions n bus device function)
          (search_functions header_at n bus device function)
  unfolding search_functions
  search_functions-Outcome zero bus device function = λ b d f r. elim (no_room r.2 r.3) [ ]
  search_functions-Outcome (suc n) bus device function =
      elim (Bool-cases (is_nvme (header_at (header_of bus device function)))) [
        | inl is ↦
            rw (is, search_functions)
              (bus, device, function, (refl, refl, omega arith, omega arith), refl, is)
        | inr other ↦
            rw (other, search_functions)
              (Outcome-step (InFunctions (suc n) bus device function)
                (InFunctions n bus device (function + 1))
                (search_functions header_at n bus device (function + 1)) (λ b d f r. omega arith)
                (λ b d f r. elim (ℕ_discrete f function) [
                  | yes e ↦ inr (ap (λ t. is_nvme (header_at t)) (same_header r.0 r.1 e) ∙ other)
                  | no ne ↦ inl (omega arith)
                ])
                (search_functions-Outcome n bus device (function + 1)))
      ]

  -- A search in two parts.
  Outcome-or :
      (Fits Here Rest : (bus device function : ℕ) → Type 0) (o rest : Option ℕ)
      → ((b d f : ℕ) → Here b d f → Fits b d f)
      → ((b d f : ℕ) → Rest b d f → Fits b d f)
      → ((b d f : ℕ) → Fits b d f → Here b d f ⊎ Rest b d f)
      → Outcome Here o
      → Outcome Rest rest
      → Outcome Fits (elim o as (λ x. Option ℕ) [ some header ↦ some header | none ↦ rest ])
  Outcome-or Fits Here Rest none rest here there split found others =
      Outcome-step Fits Rest rest there
        (λ b d f fits. elim (split b d f fits) [ inl h ↦ inr (found b d f h) | inr r ↦ inl r ])
        others
  Outcome-or Fits Here Rest (some header) rest here there split (b, d, f, fits, e, is) others =
      (b, d, f, here b d f fits, e, is)

  search_devices-Outcome :
      (n bus device : ℕ) → Outcome (InDevices n bus device) (search_devices header_at n bus device)
  unfolding search_devices
  search_devices-Outcome zero bus device = λ b d f r. elim (no_room r.1 r.2) [ ]
  search_devices-Outcome (suc n) bus device =
      Outcome-or (InDevices (suc n) bus device) (InFunctions 8 bus device 0)
        (InDevices n bus (device + 1)) (search_functions header_at 8 bus device 0)
        (search_devices header_at n bus (device + 1)) (λ b d f r. omega arith)
        (λ b d f r. omega arith)
        (λ b d f r. elim (ℕ_discrete d device) [
          | yes e ↦ inl (omega arith)
          | no ne ↦ inr (omega arith)
        ])
        (search_functions-Outcome 8 bus device 0) (search_devices-Outcome n bus (device + 1))

  -- The three nested loops over `n` buses from `bus` on: a header that is found is that of an NVMe
  -- controller on one of these buses, and if none is found, no function on them is one.
  pub search_buses-Outcome : (n bus : ℕ) → Outcome (InBuses n bus) (search_buses header_at n bus)
  unfolding search_buses
  search_buses-Outcome zero bus = λ b d f r. elim (no_room r.0 r.1) [ ]
  search_buses-Outcome (suc n) bus =
      Outcome-or (InBuses (suc n) bus) (InDevices 32 bus 0) (InBuses n (bus + 1))
        (search_devices header_at 32 bus 0) (search_buses header_at n (bus + 1))
        (λ b d f r. omega arith) (λ b d f r. omega arith)
        (λ b d f r. elim (ℕ_discrete b bus) [
          | yes e ↦ inl (omega arith)
          | no ne ↦ inr (omega arith)
        ])
        (search_devices-Outcome 32 bus 0) (search_buses-Outcome n (bus + 1))
