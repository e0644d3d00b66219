-- ===== src/Mem/Page/Walk.antt =====
-- One level of the walk of `page_map` in src/mem/page.c, and the lookup along given tables.
use lios.Prelude.{
  ℕ, zero, suc, ◌+◌, ◌*◌, ◌%◌, ◌^◌, ◌≤◌, ◌<◌, ◌≡◌, ◌≢◌, refl, arith, Bool, true, Bool-cases, inl,
  inr, ◌⊎◌, ap, Option, none, some, sub_u64, bit_and_mask, Option-cases, ==_refl,
}
use lios.Mem.Page.{
  Memory, store, slot, direct, kernel_offset, present, get_addr, query_flag, linked, Frames,
  zero_words, kcalloc_page, next_table, page_virt_to_phys_addr, virt_addr_get_pml4e,
  virt_addr_get_pdpe, virt_addr_get_pde, virt_addr_get_pte,
}
use mathlib.Core.Path.{subst₂}
use lios.Mem.Page.Entry.{get_addr-frame, frame-linked, linked-present}

-- The entry at address `e` is present and refers to the table `t`.
abbrev pub Leads : Memory → (e t : ℕ) → Type 0
Leads m e t = (query_flag (m e) present ≡ true) × (direct (get_addr (m e)) ≡ t)

zero_words_outside :
    (n p : ℕ) (m : Memory) (x : ℕ) → (x < p) ⊎ (p + 8 * n ≤ x) → zero_words n p m x ≡ m x
unfolding zero_words
zero_words_outside zero p m x h = refl
zero_words_outside (suc n) p m x h = ground (arith, zero_words_outside n (p + 8) (store m p 0) x)

-- A frame whose direct address is linked reads back as that address.
link_back :
    (e f : ℕ) (kernel : Bool)
    → f % 4096 ≡ 0
    → f < 2 ^ 31
    → direct (get_addr (linked e (sub_u64 (direct f) kernel_offset) kernel)) ≡ direct f
link_back e f kernel a s = omega (
  arith,
  get_addr-frame (linked e (sub_u64 (direct f) kernel_offset) kernel),
  frame-linked e (sub_u64 (direct f) kernel_offset) kernel,
)

-- The frames that are handed out are aligned and lie in the direct map.
abbrev pub HandsOutLow : Frames → Type 0
HandsOutLow F = (p p' : F.Pool) (f : ℕ) → F.alloc p ≡ some (f, p') → (f % 4096 ≡ 0) × (f < 2 ^ 31)

-- What one level does: the entry leads to the table, and nothing else outside the table changed.
abbrev pub Step : (e : ℕ) → Memory → ℕ → Memory → Type 0
Step e m t m' = Leads m' e t × ((x : ℕ) → x ≢ e → (x < t) ⊎ (t + 4096 ≤ x) → m' x ≡ m x)

none-distinct {ℓ} : {A : Type ℓ} {a : A} → none ≡ some a → ⊥
none-distinct e = cc

pair_parts :
    (P : Type 0) (t t' : ℕ) (m m' : Memory) (p p' : P)
    → ◌≡◌ {A = Option (ℕ × (Memory × P))} (some (t, (m, p))) (some (t', (m', p')))
    → (t ≡ t') × (m ≡ m')
pair_parts P t t' m m' p p' eq = (ap (λ o. first o) eq, ap (λ o. second o) eq)
  where
    first : Option (ℕ × (Memory × P)) → ℕ
    first none = t
    first (some (a, r)) = a

    second : Option (ℕ × (Memory × P)) → Memory
    second none = m
    second (some (a, r)) = r.0

-- A new table: zeroed, and linked from the entry.
new_table :
    (e f : ℕ) (kernel : Bool) (m : Memory)
    → f % 4096 ≡ 0
    → f < 2 ^ 31
    → let m' = zero_words 512 (direct f) m in
      Step e m (direct f) (store m' e (linked (m' e) (sub_u64 (direct f) kernel_offset) kernel))
new_table e f kernel m a s =
    let m' = zero_words 512 (direct f) m in
    (
      rw ==_refl (
        linked-present (m' e) (sub_u64 (direct f) kernel_offset) kernel,
        link_back (m' e) f kernel a s,
      ),
      λ x ne out. ground (arith, zero_words_outside 512 (direct f) m x),
    )

module _ (F : Frames) (low : HandsOutLow F) where
  pub next_table_lem :
      (e : ℕ) (kernel : Bool) (m : Memory) (pool : F.Pool) (t : ℕ) (m' : Memory) (pool' : F.Pool)
      → next_table F e kernel (m, pool) ≡ some (t, (m', pool'))
      → Step e m t m'
  unfolding next_table kcalloc_page
  next_table_lem e kernel m pool t m' pool' eq = elim (Bool-cases (query_flag (m e) present)) [
    | inl here ↦
        let (p, q) = pair_parts F.Pool _ t m m' pool pool' (rw here at eq) in
        subst₂ (λ t m'. Step e m t m') p q ((here, refl), λ x ne out. refl)
    | inr absent ↦ elim (Option-cases (F.alloc pool)) [
      | inl out ↦ absurd (none-distinct (rw (absent, out) at eq))
      | inr ((f, q), got) ↦
          let (x, y) = pair_parts F.Pool _ t _ m' q pool' (rw (absent, got) at eq) in
          let (a, s) = low pool q f got in
          subst₂ (λ t m'. Step e m t m') x y (new_table e f kernel m a s)
    ]
  ]

pub translate_along :
    (m : Memory) (pml4 virt t3 t2 t1 : ℕ)
    → Leads m (slot pml4 (virt_addr_get_pml4e virt)) t3
    → Leads m (slot t3 (virt_addr_get_pdpe virt)) t2
    → Leads m (slot t2 (virt_addr_get_pde virt)) t1
    → query_flag (m (slot t1 (virt_addr_get_pte virt))) present ≡ true
    → page_virt_to_phys_addr m pml4 virt
      ≡ get_addr (m (slot t1 (virt_addr_get_pte virt))) + virt % 4096
unfolding page_virt_to_phys_addr
translate_along m pml4 virt t3 t2 t1 a b c d =
    rw (a.1, b.1, c.1, a.0, b.0, c.0, d, bit_and_mask 12 virt)
