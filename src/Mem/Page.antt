-- ===== src/Mem/Page.antt =====
-- The page tables of src/mem/page.c. Memory is a map from an address to the 64-bit word there, and
-- the entry at index i of a table is the word at 8 * i. The four kinds of entries have the same
-- accessors in the source; here they share one set. The low page allocator is a parameter: `alloc`
-- is `pmm_alloc_low` and `release` is `pmm_free`, where `none` is a panic. The flush of the
-- translation buffer has no effect on this state.
pub mod Entry
pub mod Walk
pub mod Translate
pub mod Unmap
use lios.Prelude.{
  ℕ, zero, suc, ◌+◌, ◌-◌, ◌*◌, ◌/◌, ◌%◌, ◌^◌, Bool, true, false, not, ◌&&◌, ◌||◌, ◌==◌,
  if◌then◌else◌, bit_and, bit_or, Option, none, some, u64, sub_u64, not_u64, ◌>>>◌,
}

abbrev pub kernel_offset : ℕ
kernel_offset = 0xFFFFFFFF80000000

abbrev pub page_size : ℕ
page_size = 4096

unfoldable pub virt_addr_get_pml4e : ℕ → ℕ
virt_addr_get_pml4e addr = bit_and (addr >>> 39) 0x1FF

unfoldable pub virt_addr_get_pdpe : ℕ → ℕ
virt_addr_get_pdpe addr = bit_and (addr >>> 30) 0x1FF

unfoldable pub virt_addr_get_pde : ℕ → ℕ
virt_addr_get_pde addr = bit_and (addr >>> 21) 0x1FF

unfoldable pub virt_addr_get_pte : ℕ → ℕ
virt_addr_get_pte addr = bit_and (addr >>> 12) 0x1FF

unfoldable pub virt_addr_get_offset : ℕ → ℕ
virt_addr_get_offset addr = bit_and addr 0xFFF

-- The flags PRESENT, WRITABLE and USER have the same values at every level.
abbrev pub present : ℕ
present = 1

abbrev pub writable : ℕ
writable = 2

abbrev pub user : ℕ
user = 4

abbrev pub addr_mask : ℕ
addr_mask = 0xFFFFFFFFFF000

unfoldable pub set_flag : ℕ → ℕ → ℕ
set_flag entry flag = bit_or entry flag

unfoldable pub unset_flag : ℕ → ℕ → ℕ
unset_flag entry flag = bit_and entry (not_u64 flag)

unfoldable pub query_flag : ℕ → ℕ → Bool
query_flag entry flag = bit_and entry flag == flag

unfoldable pub get_addr : ℕ → ℕ
get_addr entry = bit_and entry addr_mask

unfoldable pub clear_addr : ℕ → ℕ
clear_addr entry = bit_and entry 0xFFF

pub set_addr : ℕ → ℕ → ℕ
set_addr entry addr = bit_or (bit_and entry (not_u64 addr_mask)) (bit_and addr addr_mask)

abbrev pub Memory : Type 0
Memory = ℕ → ℕ

abbrev pub store : Memory → ℕ → ℕ → Memory
store m p v x = if x == p then v else m x

-- The entry of a table at an index, and the table that an entry refers to in the direct map.
abbrev pub slot : (table index : ℕ) → ℕ
slot table index = table + 8 * index

abbrev pub direct : ℕ → ℕ
direct phys = u64 (phys + kernel_offset)

-- The low page allocator.
pub record Frames : Type 1 where
  pub Pool : Type 0
  pub alloc : Pool → Option (ℕ × Pool)
  pub release : ℕ → Pool → Option Pool

infixl 5 ◌>>=◌
abbrev pub ◌>>=◌ {ℓ κ} : {A : Type ℓ} {B : Type κ} → Option A → (A → Option B) → Option B
none >>= f = none
some a >>= f = f a

-- Zeroes `rounds` words from `p` on.
pub zero_words : (rounds p : ℕ) → Memory → Memory
zero_words zero p m = m
zero_words (suc rounds) p m = zero_words rounds (p + 8) (store m p 0)

unfoldable pub page_virt_to_phys_addr : Memory → (pml4_addr virt : ℕ) → ℕ
page_virt_to_phys_addr m pml4_addr virt =
    let pml4e = m (slot pml4_addr (virt_addr_get_pml4e virt)) in
    let pdpe = m (slot (direct (get_addr pml4e)) (virt_addr_get_pdpe virt)) in
    let pde = m (slot (direct (get_addr pdpe)) (virt_addr_get_pde virt)) in
    let pte = m (slot (direct (get_addr pde)) (virt_addr_get_pte virt)) in
    if not (query_flag pml4e present)
    then 0
    else (if not (query_flag pdpe present)
        then 0
        else (if not (query_flag pde present)
            then 0
            else (if not (query_flag pte present)
                then 0
                else get_addr pte + bit_and virt (page_size - 1))))

-- The entry that is made for a new table, or for the page itself.
pub linked : (entry phys : ℕ) (kernel : Bool) → ℕ
linked entry phys kernel =
    let e = set_flag (set_flag (set_addr entry phys) present) writable in
    if kernel then unset_flag e user else set_flag e user

module _ (F : Frames) where
  open F use {Pool, alloc, release}

  pub kcalloc_page : Memory × Pool → Option (ℕ × (Memory × Pool))
  kcalloc_page (m, pool) = do
    (frame, pool') ← alloc pool
    some (direct frame, (zero_words (page_size / 8) (direct frame) m, pool'))

  -- One level of `page_map`: the table behind an entry, allocated and linked if it is missing.
  unfoldable pub next_table :
      (entry : ℕ) (kernel : Bool) → Memory × Pool → Option (ℕ × (Memory × Pool))
  next_table entry kernel (m, pool) =
      if not (query_flag (m entry) present)
      then (do
        (table, (m', pool')) ← kcalloc_page (m, pool)
        some (
          table,
          (store m' entry (linked (m' entry) (sub_u64 table kernel_offset) kernel), pool'),
        ))
      else some (direct (get_addr (m entry)), (m, pool))

  -- The page tables on the way to the page, from the highest to the lowest.
  unfoldable pub walk :
      (pml4_addr virt : ℕ) (kernel : Bool) → Memory × Pool → Option (ℕ × ℕ × ℕ × (Memory × Pool))
  walk pml4_addr virt kernel s = do
    (pdpt, s) ← next_table (slot pml4_addr (virt_addr_get_pml4e virt)) kernel s
    (pdt, s) ← next_table (slot pdpt (virt_addr_get_pdpe virt)) kernel s
    (pt, s) ← next_table (slot pdt (virt_addr_get_pde virt)) kernel s
    some (pdpt, pdt, pt, s)

  pub page_map : (pml4_addr virt phys : ℕ) (kernel : Bool) → Memory × Pool → Option (Memory × Pool)
  page_map pml4_addr virt phys kernel s = do
    (pdpt, pdt, pt, (m, pool)) ← walk pml4_addr virt kernel s
    let e = slot pt (virt_addr_get_pte virt)
    some (store m e (linked (m e) phys kernel), pool)

  -- Whether one of the first `rounds` entries of a table, other than `skip`, is present.
  unfoldable pub used : Memory → (rounds table skip : ℕ) → Bool
  used m zero table skip = false
  used m (suc i) table skip =
      used m i table skip || (query_flag (m (slot table i)) present && not (i == skip))

  unfoldable pub kfree_page : ℕ → Pool → Option Pool
  kfree_page addr pool = release (sub_u64 addr kernel_offset) pool

  abbrev free_if : Bool → ℕ → Pool → Option Pool
  free_if b table pool = if b then kfree_page table pool else some pool

  -- The tables that hold nothing else are given back, each to the low allocator.
  unfoldable pub release_tables : Memory → (virt pdpt pdt pt : ℕ) → Pool → Option Pool
  release_tables m virt pdpt pdt pt pool =
      let pdpt_used = used m 512 pdpt (virt_addr_get_pdpe virt) in
      let pdt_used = used m 512 pdt (virt_addr_get_pde virt) in
      let pt_used = used m 512 pt (virt_addr_get_pte virt) in
      do
        pool ← free_if (not pdpt_used && (not pdt_used && not pt_used)) pdpt pool
        pool ← free_if (not pdt_used && not pt_used) pdt pool
        free_if (not pt_used) pt pool

  unfoldable pub page_unmap : (pml4_addr virt : ℕ) → Memory × Pool → Option (Memory × Pool)
  page_unmap pml4_addr virt (m, pool) =
      let pml4e = m (slot pml4_addr (virt_addr_get_pml4e virt)) in
      let pdpt = direct (get_addr pml4e) in
      let pdpe = m (slot pdpt (virt_addr_get_pdpe virt)) in
      let pdt = direct (get_addr pdpe) in
      let pde = m (slot pdt (virt_addr_get_pde virt)) in
      let pt = direct (get_addr pde) in
      let pte = slot pt (virt_addr_get_pte virt) in
      if query_flag pml4e present && (query_flag pdpe present && query_flag pde present)
      then (do
        pool ← release_tables m virt pdpt pdt pt pool
        some (if query_flag (m pte) present then store m pte 0 else m, pool))
      else some (m, pool)
