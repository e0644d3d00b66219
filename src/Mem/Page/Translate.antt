-- ===== src/Mem/Page/Translate.antt =====
-- `page_map` followed by `page_virt_to_phys_addr` in src/mem/page.c.
use lios.Prelude.{
  ℕ, ◌+◌, ◌/◌, ◌%◌, ◌^◌, ◌≤◌, ◌<◌, ◌≡◌, ◌≢◌, arith, Bool, inl, inr, ◌⊎◌, ◌∙◌, ap, Option, none,
  some, bit_and_mask, Option-cases, ==_refl,
}
use mathlib.Core.Path.{subst}
use lios.Mem.Page.{
  Memory, store, slot, get_addr, linked, Frames, next_table, walk, page_map, page_virt_to_phys_addr,
  virt_addr_get_pml4e, virt_addr_get_pdpe, virt_addr_get_pde, virt_addr_get_pte,
}
use lios.Mem.Page.Entry.{get_addr-frame, frame-linked, linked-present}
use lios.Mem.Page.Walk.{Leads, Step, HandsOutLow, next_table_lem, translate_along}

-- Two tables do not overlap.
abbrev pub Apart : ℕ → ℕ → Type 0
Apart a b = (a + 4096 ≤ b) ⊎ (b + 4096 ≤ a)

-- The four tables on the way to a page do not overlap.
pub record TablesApart (pml4 pdpt pdt pt : ℕ) : Type 0 where
  pub pml4_pdpt : Apart pml4 pdpt
  pub pml4_pdt : Apart pml4 pdt
  pub pml4_pt : Apart pml4 pt
  pub pdpt_pdt : Apart pdpt pdt
  pub pdpt_pt : Apart pdpt pt
  pub pdt_pt : Apart pdt pt

pub pml4e-lt : (v : ℕ) → virt_addr_get_pml4e v < 512
unfolding virt_addr_get_pml4e
pml4e-lt v = omega (arith, bit_and_mask 9 (v / 2 ^ 39))

pub pdpe-lt : (v : ℕ) → virt_addr_get_pdpe v < 512
unfolding virt_addr_get_pdpe
pdpe-lt v = omega (arith, bit_and_mask 9 (v / 2 ^ 30))

pub pde-lt : (v : ℕ) → virt_addr_get_pde v < 512
unfolding virt_addr_get_pde
pde-lt v = omega (arith, bit_and_mask 9 (v / 2 ^ 21))

pub pte-lt : (v : ℕ) → virt_addr_get_pte v < 512
unfolding virt_addr_get_pte
pte-lt v = omega (arith, bit_and_mask 9 (v / 2 ^ 12))

Leads-keep : (m m' : Memory) (e t : ℕ) → m' e ≡ m e → Leads m e t → Leads m' e t
Leads-keep m m' e t same (a, b) = (rw same a, rw same b)

-- The slots of tables that do not overlap are different, and lie outside the other table.
pub slot-Apart :
    (a b i j : ℕ)
    → Apart a b
    → i < 512
    → j < 512
    → (slot a i ≢ slot b j) × ((slot a i < b) ⊎ (b + 4096 ≤ slot a i))
slot-Apart a b i j (inl h) p q = (λ e. omega arith, omega arith)
slot-Apart a b i j (inr h) p q = (λ e. omega arith, omega arith)

module _ (F : Frames) (low : HandsOutLow F) (pml4 virt : ℕ) (kernel : Bool) where
  abbrev e4 : ℕ
  e4 = slot pml4 (virt_addr_get_pml4e virt)

  abbrev e3 : ℕ → ℕ
  e3 t = slot t (virt_addr_get_pdpe virt)

  abbrev e2 : ℕ → ℕ
  e2 t = slot t (virt_addr_get_pde virt)

  abbrev e1 : ℕ → ℕ
  e1 t = slot t (virt_addr_get_pte virt)

  -- After three levels that each did their step, all three entries lead on.
  three_steps :
      (m m1 m2 m3 : Memory) (t3 t2 t1 : ℕ)
      → TablesApart pml4 t3 t2 t1
      → Step e4 m t3 m1
      → Step (e3 t3) m1 t2 m2
      → Step (e2 t2) m2 t1 m3
      → Leads m3 e4 t3 × Leads m3 (e3 t3) t2 × Leads m3 (e2 t2) t1
  three_steps m m1 m2 m3 t3 t2 t1 apart (l4, k1) (l3, k2) (l2, k3) =
      let a43 = slot-Apart pml4 t3 _ _ apart.pml4_pdpt (pml4e-lt virt) (pdpe-lt virt) in
      let a42 = slot-Apart pml4 t2 _ _ apart.pml4_pdt (pml4e-lt virt) (pde-lt virt) in
      let a41 = slot-Apart pml4 t1 _ _ apart.pml4_pt (pml4e-lt virt) (pte-lt virt) in
      let a32 = slot-Apart t3 t2 _ _ apart.pdpt_pdt (pdpe-lt virt) (pde-lt virt) in
      let a31 = slot-Apart t3 t1 _ _ apart.pdpt_pt (pdpe-lt virt) (pte-lt virt) in
      (
        Leads-keep m1 m3 e4 t3 (k3 e4 a42.0 a41.1 ∙ k2 e4 a43.0 a42.1) l4,
        Leads-keep m2 m3 (e3 t3) t2 (k3 (e3 t3) a32.0 a31.1) l3,
        l2,
      )

  -- What holds of a walk that returns.
  abbrev Outcome : Option (ℕ × ℕ × ℕ × (Memory × F.Pool)) → Type 0
  Outcome none = Unit {0}
  Outcome (some (t3, t2, t1, (m, _))) =
      TablesApart pml4 t3 t2 t1 → Leads m e4 t3 × Leads m (e3 t3) t2 × Leads m (e2 t2) t1

  walk-Outcome : (m : Memory) (pool : F.Pool) → Outcome (walk F pml4 virt kernel (m, pool))
  unfolding walk
  walk-Outcome m pool = elim (Option-cases (next_table F e4 kernel (m, pool))) [
    | inl a ↦ rw a tt
    | inr ((u3, (m1, p1)), a) ↦ rw a (elim (Option-cases (next_table F (e3 u3) kernel (m1, p1))) [
      | inl b ↦ rw b tt
      | inr ((u2, (m2, p2)), b) ↦ rw b (elim (Option-cases (next_table F (e2 u2) kernel (m2, p2))) [
        | inl c ↦ rw c tt
        | inr ((u1, (m3, p3)), c) ↦ rw c (λ apart.
            three_steps m m1 m2 m3 u3 u2 u1 apart (next_table_lem F low e4 kernel m pool u3 m1 p1 a)
              (next_table_lem F low (e3 u3) kernel m1 p1 u2 m2 p2 b)
              (next_table_lem F low (e2 u2) kernel m2 p2 u1 m3 p3 c))
      ])
    ])
  ]

  -- The entry of the page itself is outside the three entries that lead to it.
  last_store :
      (m : Memory) (t3 t2 t1 v : ℕ)
      → TablesApart pml4 t3 t2 t1
      → Leads m e4 t3 × Leads m (e3 t3) t2 × Leads m (e2 t2) t1
      → let m' = store m (e1 t1) v in Leads m' e4 t3 × Leads m' (e3 t3) t2 × Leads m' (e2 t2) t1
  last_store m t3 t2 t1 v apart (l4, l3, l2) =
      let a = (slot-Apart pml4 t1 _ _ apart.pml4_pt (pml4e-lt virt) (pte-lt virt)).0 in
      let b = (slot-Apart t3 t1 _ _ apart.pdpt_pt (pdpe-lt virt) (pte-lt virt)).0 in
      let c = (slot-Apart t2 t1 _ _ apart.pdt_pt (pde-lt virt) (pte-lt virt)).0 in
      (
        Leads-keep m (store m (e1 t1) v) e4 t3 (ground arith) l4,
        Leads-keep m (store m (e1 t1) v) (e3 t3) t2 (ground arith) l3,
        Leads-keep m (store m (e1 t1) v) (e2 t2) t1 (ground arith) l2,
      )

  -- With an allocator that hands out aligned frames of the direct map: where the walk through the
  -- tables returns, with new tables as needed, and the four tables do not overlap, `page_map` returns
  -- too, and then `page_virt_to_phys_addr` takes the virtual address to the page frame, a multiple of
  -- 4096 below 2 ^ 52, plus the offset in the page.
  pub page_map-translate :
      (phys : ℕ) (m : Memory) (pool : F.Pool) (t3 t2 t1 : ℕ) (m3 : Memory) (pool3 : F.Pool)
      → walk F pml4 virt kernel (m, pool) ≡ some (t3, t2, t1, (m3, pool3))
      → TablesApart pml4 t3 t2 t1
      → phys % 4096 ≡ 0
      → phys < 2 ^ 52
      → (m' : Memory) × (page_map F pml4 virt phys kernel (m, pool) ≡ some (m', pool3))
        × (page_virt_to_phys_addr m' pml4 virt ≡ phys + virt % 4096)
  unfolding page_map
  page_map-translate phys m pool t3 t2 t1 m3 pool3 walked apart aligned small =
      let entry = linked (m3 (e1 t1)) phys kernel in
      let m' = store m3 (e1 t1) entry in
      let leads =
        last_store m3 t3 t2 t1 entry apart (subst Outcome walked (walk-Outcome m pool) apart) in
      let here : m' (e1 t1) ≡ entry = rw ==_refl in
      (
        m',
        rw walked,
        translate_along m' pml4 virt t3 t2 t1 leads.0 leads.1 leads.2
              (rw here (linked-present (m3 (e1 t1)) phys kernel))
            ∙ ap (λ x. get_addr x + virt % 4096) here
            ∙ omega (arith, get_addr-frame entry, frame-linked (m3 (e1 t1)) phys kernel),
      )
