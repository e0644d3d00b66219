-- ===== src/Checks/Memories.antt =====
-- Runs of the models of src/mem on concrete inputs.
use lios.Prelude.{
  ℕ, Bool-cases, ap, ◌==◌, leb, ltb, ◌-◌, if◌then◌else◌, ◌+◌, ◌*◌, ◌%◌, ◌^◌, ◌<◌, ◌≡◌, ◌≢◌, refl,
  arith, true, [], ◌∷◌, Option, none, some, inl, inr,
}
use lios.Mem.Page.{
  Memory, store, slot, direct, next_table, get_addr, release_tables, virt_addr_get_pml4e,
  virt_addr_get_pdpe, virt_addr_get_pde, virt_addr_get_pte, Frames, walk, page_map, page_unmap,
  page_virt_to_phys_addr, used, query_flag,
}
use lios.Mem.Page.Walk.{HandsOutLow}
use lios.Mem.Page.Translate.{TablesApart, page_map-translate}
use lios.Mem.Page.Unmap.{pdpt_of, pdt_of, pt_of, pt_slot, page_unmap-untranslated}
use lios.Mem.Pmm.{Pmm, ok, panic, write, pmm_alloc_low, pmm_free, pmm_init_final}
use lios.Mem.Pmm.Chain.{Chain}
use lios.Mem.Pmm.Alloc.{Lists, pmm_alloc_low-Lists}
use lios.Mem.Pmm.Release.{pmm_free-lists, pmm_free_forgets}
use lios.Mem.Pmm.Split.{Distinct, pmm_init_final-lists}

-- Node n leads to node n + 1, up to 4; node n holds page n GiB.
abbrev next : ℕ → ℕ
next n = if n == 4 then 0 else n + 1

abbrev fresh : Pmm
fresh = record {
  next = next;
  addr = λ n. (n - 1) * 0x40000000;
  low = 1;
  high = 0;
  init_temp = 0;
  free_list = 0;
  nodes_needed = 0;
}

pmm_init_final-lists_example :
    (s' : Pmm) × (pmm_init_final 10 fresh ≡ ok s')
    × Chain s'.next s'.low (1 ∷ 2 ∷ [])
    × Chain s'.next s'.high (3 ∷ 4 ∷ [])
    × (s'.addr ≡ fresh.addr)
pmm_init_final-lists_example =
    pmm_init_final-lists 10 1 3 fresh (2 ∷ []) (4 ∷ []) linked_up different (omega arith, tt)
      (omega arith) (omega arith)
  where
    linked_up : Chain fresh.next 1 (1 ∷ 2 ∷ 3 ∷ 4 ∷ [])
    linked_up = (
      refl,
      λ e. omega (arith, e),
      (
        refl,
        λ e. omega (arith, e),
        (refl, λ e. omega (arith, e), (refl, λ e. omega (arith, e), refl)),
      ),
    )

    different : Distinct (1 ∷ 2 ∷ 3 ∷ 4 ∷ [])
    different = (
      (λ e. omega (arith, e), (λ e. omega (arith, e), (λ e. omega (arith, e), tt))),
      (
        (λ e. omega (arith, e), (λ e. omega (arith, e), tt)),
        ((λ e. omega (arith, e), tt), (tt, tt)),
      ),
    )

-- The same nodes, with the low ones split off, and node 5 allocated.
abbrev running : Pmm
running = record {
  next = λ n. if n == 2 then 0 else (if leb 4 n then 0 else n + 1);
  addr = λ n. (n - 1) * 0x40000000;
  low = 1;
  high = 3;
  init_temp = 0;
  free_list = 5;
  nodes_needed = 0;
}

running-Lists : Lists running (1 ∷ 2 ∷ []) (3 ∷ 4 ∷ []) (5 ∷ [])
running-Lists = record {
  low_chain = (refl, λ e. omega (arith, e), (refl, λ e. omega (arith, e), refl));
  high_chain = (refl, λ e. omega (arith, e), (refl, λ e. omega (arith, e), refl));
  taken_chain = (refl, λ e. omega (arith, e), refl);
}

pmm_alloc_low-Lists_example :
    (s' : Pmm) × (pmm_alloc_low running ≡ ok (0, s'))
    × Lists s' (2 ∷ []) (3 ∷ 4 ∷ []) (1 ∷ 5 ∷ [])
    × (s'.addr ≡ running.addr)
pmm_alloc_low-Lists_example =
    pmm_alloc_low-Lists running 1 (2 ∷ []) (3 ∷ 4 ∷ []) (5 ∷ []) running-Lists
      (λ e. omega (arith, e), tt) (λ e. omega (arith, e), (λ e. omega (arith, e), tt))
      (λ e. omega (arith, e), tt)

-- Nodes 1, 2 and 3 are allocated, the latest first, and node 4 is free; all pages are low.
abbrev taken : Pmm
taken = record {
  next = λ n. if leb 3 n then 0 else n + 1;
  addr = λ n. n * 4096;
  low = 4;
  high = 0;
  init_temp = 0;
  free_list = 1;
  nodes_needed = 0;
}

taken-Chain : Chain taken.next 1 (1 ∷ 2 ∷ 3 ∷ [])
taken-Chain = (
  refl,
  λ e. omega (arith, e),
  (refl, λ e. omega (arith, e), (refl, λ e. omega (arith, e), refl)),
)

pmm_free-lists_example :
    (s' : Pmm) × (pmm_free 10 8192 taken ≡ ok s')
    × Chain s'.next s'.low (2 ∷ 4 ∷ [])
    × Chain s'.next s'.free_list (1 ∷ 2 ∷ 4 ∷ [])
    × (s'.addr ≡ write taken.addr 2 8192)
pmm_free-lists_example =
    pmm_free-lists 10 8192 taken 2 (1 ∷ []) (3 ∷ []) (4 ∷ []) taken-Chain
      (refl, λ e. omega (arith, e), refl) (λ e. omega (arith, e), tt) refl
      (λ e. omega (arith, e), tt) (λ e. omega (arith, e), tt) (omega arith) (omega arith)

-- After node 2 is freed, the page of node 3 can no longer be.
pmm_free_forgets_example :
    (s' : Pmm) × (pmm_free 10 8192 taken ≡ ok s') × (pmm_free 10 12288 s' ≡ panic)
pmm_free_forgets_example =
    pmm_free_forgets 10 8192 taken 2 (1 ∷ []) (3 ∷ []) (4 ∷ []) taken-Chain
      (refl, λ e. omega (arith, e), refl) (λ e. omega (arith, e), tt) refl
      (λ e. omega (arith, e), tt) (λ e. omega (arith, e), tt) (omega arith) (omega arith) 10 12288
      (λ e. omega (arith, e)) (λ e. omega (arith, e), tt) (λ e. omega (arith, e), tt) (omega arith)

-- An allocator that hands out the frames from 1 MiB on.
abbrev bump : Frames
bump = record {
  Pool = ℕ;
  alloc = λ p. if ltb p 100 then some (0x100000 + 4096 * p, p + 1) else none;
  release = λ f p. some p;
}

bump-HandsOutLow : HandsOutLow bump
bump-HandsOutLow p p' f e = elim (Bool-cases (ltb p 100)) [
  | inl few ↦ handed few (rw few at e)
  | inr many ↦ absurd (none_left (rw many at e))
]
  where
    frame_of : Option (ℕ × ℕ) → ℕ
    frame_of none = 0
    frame_of (some (a, b)) = a

    none_left : ◌≡◌ {A = Option (ℕ × ℕ)} none (some (f, p')) → ⊥
    none_left x = cc

    handed :
        ltb p 100 ≡ true
        → ◌≡◌ {A = Option (ℕ × ℕ)} (some (0x100000 + 4096 * p, p + 1)) (some (f, p'))
        → (f % 4096 ≡ 0) × (f < 2 ^ 31)
    handed few x = let f_is : 0x100000 + 4096 * p ≡ f = ap frame_of x in ground (arith, f_is, few)

abbrev t4 : ℕ
t4 = direct 0x1000

abbrev t3 : ℕ
t3 = direct 0x2000

abbrev t2 : ℕ
t2 = direct 0x3000

abbrev t1 : ℕ
t1 = direct 0x4000

-- Tables that lead 0x403008 to the frame 0x9000; the page table holds one more page.
abbrev mem : Memory
mem x =
    if x == slot t4 0
    then 0x2003
    else (if x == slot t3 0
        then 0x3003
        else (if x == slot t2 2
            then 0x4003
            else (if x == slot t1 3 then 0x9003 else (if x == slot t1 4 then 0xA003 else 0))))

apart : TablesApart t4 t3 t2 t1
apart = record {
  pml4_pdpt = inl (omega arith);
  pml4_pdt = inl (omega arith);
  pml4_pt = inl (omega arith);
  pdpt_pdt = inl (omega arith);
  pdpt_pt = inl (omega arith);
  pdt_pt = inl (omega arith);
}

walked : walk bump t4 0x403008 true (mem, 0) ≡ some (t3, t2, t1, (mem, 0))
unfolding walk next_table query_flag get_addr virt_addr_get_pml4e virt_addr_get_pdpe
    virt_addr_get_pde
walked = refl

page_map-translate_example :
    (m' : Memory) × (page_map bump t4 0x403008 0x7000 true (mem, 0) ≡ some (m', 0))
    × (page_virt_to_phys_addr m' t4 0x403008 ≡ 0x7000 + 8)
page_map-translate_example =
    page_map-translate bump bump-HandsOutLow t4 0x403008 true 0x7000 mem 0 t3 t2 t1 mem 0 walked
      apart refl (omega arith)

unmapped : page_unmap bump t4 0x403008 (mem, 0) ≡ some (store mem (slot t1 3) 0, 0)
unfolding page_unmap release_tables used query_flag get_addr virt_addr_get_pml4e virt_addr_get_pdpe
    virt_addr_get_pde virt_addr_get_pte
unmapped = refl

same_tables :
    TablesApart t4 (pdpt_of mem t4 0x403008) (pdt_of mem t4 0x403008) (pt_of mem t4 0x403008)
unfolding get_addr virt_addr_get_pml4e virt_addr_get_pdpe virt_addr_get_pde
same_tables = apart

page_unmap-untranslated_example :
    (page_virt_to_phys_addr (store mem (slot t1 3) 0) t4 0x403008 ≡ 0)
    × ((x : ℕ) → x ≢ pt_slot mem t4 0x403008 → store mem (slot t1 3) 0 x ≡ mem x)
page_unmap-untranslated_example =
    page_unmap-untranslated bump mem t4 0x403008 0 (store mem (slot t1 3) 0) 0 unmapped same_tables
