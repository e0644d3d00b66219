-- ===== src/Mem/Page/Unmap.antt =====
-- `page_unmap` followed by `page_virt_to_phys_addr` in src/mem/page.c.
use lios.Prelude.{
  ℕ, ◌≡◌, ◌≢◌, refl, arith, Bool, true, false, ◌&&◌, ◌∙◌, ap, Option, none, some, if◌then◌else◌,
}
use mathlib.Core.Path.{subst}
use lios.Mem.Page.{
  Memory, store, slot, direct, present, get_addr, query_flag, Frames, release_tables, page_unmap,
  page_virt_to_phys_addr, virt_addr_get_pml4e, virt_addr_get_pdpe, virt_addr_get_pde,
  virt_addr_get_pte, ◌>>=◌,
}
use lios.Mem.Page.Translate.{TablesApart, pml4e-lt, pdpe-lt, pde-lt, pte-lt, slot-Apart}

module _ (m : Memory) (pml4 virt : ℕ) where
  abbrev pub pml4_slot : ℕ
  pml4_slot = slot pml4 (virt_addr_get_pml4e virt)

  abbrev pub pdpt_of : ℕ
  pdpt_of = direct (get_addr (m pml4_slot))

  abbrev pub pdpt_slot : ℕ
  pdpt_slot = slot pdpt_of (virt_addr_get_pdpe virt)

  abbrev pub pdt_of : ℕ
  pdt_of = direct (get_addr (m pdpt_slot))

  abbrev pub pdt_slot : ℕ
  pdt_slot = slot pdt_of (virt_addr_get_pde virt)

  abbrev pub pt_of : ℕ
  pt_of = direct (get_addr (m pdt_slot))

  abbrev pub pt_slot : ℕ
  pt_slot = slot pt_of (virt_addr_get_pte virt)

  abbrev tables_present : Bool
  tables_present =
      query_flag (m pml4_slot) present
      && (query_flag (m pdpt_slot) present && query_flag (m pdt_slot) present)

  -- The memory that `page_unmap` leaves: only the entry of the page is cleared.
  abbrev pub cleared : Memory
  cleared =
      if tables_present
      then (if query_flag (m pt_slot) present then store m pt_slot 0 else m)
      else m

  absent-zero : query_flag 0 present ≡ false
  unfolding query_flag
  absent-zero = refl

  -- In the memory that is left the address has no translation.
  cleared-untranslated :
      TablesApart pml4 pdpt_of pdt_of pt_of → page_virt_to_phys_addr cleared pml4 virt ≡ 0
  unfolding page_virt_to_phys_addr
  cleared-untranslated apart =
      let a = (slot-Apart pml4 pt_of _ _ apart.pml4_pt (pml4e-lt virt) (pte-lt virt)).0 in
      let b = (slot-Apart pdpt_of pt_of _ _ apart.pdpt_pt (pdpe-lt virt) (pte-lt virt)).0 in
      let c = (slot-Apart pdt_of pt_of _ _ apart.pdt_pt (pde-lt virt) (pte-lt virt)).0 in
      ground (arith, absent-zero)

-- What is left of the memory, where the call returns.
abbrev Outcome : {P : Type 0} → Memory → Option (Memory × P) → Type 0
Outcome X none = Unit {0}
Outcome X (some (m', _)) = m' ≡ X

Outcome-bind : {P : Type 0} (X : Memory) (o : Option P) → Outcome X (o >>= λ pool. some (X, pool))
Outcome-bind X none = tt
Outcome-bind X (some p) = refl

page_unmap-Outcome :
    (F : Frames) (m : Memory) (pml4 virt : ℕ) (pool : F.Pool)
    → Outcome (cleared m pml4 virt) (page_unmap F pml4 virt (m, pool))
unfolding page_unmap
page_unmap-Outcome F m pml4 virt pool =
    go (tables_present m pml4 virt)
      (if query_flag (m (pt_slot m pml4 virt)) present then store m (pt_slot m pml4 virt) 0 else m)
  where
    go :
        (b : Bool) (X : Memory)
        → Outcome (if b then X else m) (
            if b
            then (release_tables F m virt
                  (pdpt_of m pml4 virt)
                  (pdt_of m pml4 virt)
                  (pt_of m pml4 virt)
                  pool
                >>= λ pool. some (X, pool))
            else some (m, pool))
    go true X = Outcome-bind X _
    go false X = refl

-- Where `page_unmap` returns, and the tables on the way to the page do not overlap, the address has
-- no translation any more, and every word of memory but the entry of the page is as before. So the
-- entries that lead to the page table stay, also where that table has been given back.
pub page_unmap-untranslated :
    (F : Frames) (m : Memory) (pml4 virt : ℕ) (pool : F.Pool) (m' : Memory) (pool' : F.Pool)
    → page_unmap F pml4 virt (m, pool) ≡ some (m', pool')
    → TablesApart pml4 (pdpt_of m pml4 virt) (pdt_of m pml4 virt) (pt_of m pml4 virt)
    → (page_virt_to_phys_addr m' pml4 virt ≡ 0) × ((x : ℕ) → x ≢ pt_slot m pml4 virt → m' x ≡ m x)
page_unmap-untranslated F m pml4 virt pool m' pool' eq apart =
    let left : m' ≡ cleared m pml4 virt =
      subst (Outcome (cleared m pml4 virt)) eq (page_unmap-Outcome F m pml4 virt pool) in
    (
      ap (λ n. page_virt_to_phys_addr n pml4 virt) left ∙ cleared-untranslated m pml4 virt apart,
      λ x ne. ap (λ (n : Memory). n x) left ∙ ground arith,
    )
