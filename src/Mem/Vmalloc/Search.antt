-- ===== src/Mem/Vmalloc/Search.antt =====
-- The search of `vmalloc` in the bitmap of a node of src/mem/vmalloc.c, against a search that looks at
-- one section after the other.
use lios.Prelude.{
  ℕ, zero, suc, ◌+◌, ◌-◌, ◌/◌, ◌%◌, ◌^◌, ◌≤◌, ◌<◌, ◌≡◌, refl, arith, Bool, true, false, ◌&&◌, ltb,
  ◌==◌, if◌then◌else◌, sub_u64, bit-zero, ◌∙◌, ap, sym, Bool-cases, inl, inr,
}
use lios.Mem.Vmalloc.{is_used, zero_word, Found, found_at, no_room, search}
use lios.Mem.Vmalloc.Bitmap.{is_used-bit}

-- The search without the skips, over `rounds` sections.
unfoldable pub one_by_one : (rounds needed : ℕ) (mem : ℕ → ℕ) (i found start : ℕ) → Found
one_by_one zero needed mem i found start = no_room
one_by_one (suc n) needed mem i found start =
    let used = is_used mem i in
    let start' = if used then start else (if found == 0 then i else start) in
    let found' = if used then 0 else found + 1 in
    let rest = one_by_one n needed mem (i + 1) found' start' in
    if found' == needed then found_at start' else rest

-- The sections from `lo` up to `hi` are free.
abbrev pub Free : (ℕ → ℕ) → (lo hi : ℕ) → Type 0
Free mem lo hi = (q : ℕ) → lo ≤ q → q < hi → is_used mem q ≡ false

-- A word of zeros is 64 free sections.
zero_word-Free :
    (mem : ℕ → ℕ) (i : ℕ) → i % 8 ≡ 0 → zero_word mem (i / 8) ≡ true → Free mem i (i + 64)
unfolding zero_word
zero_word-Free mem i aligned word q a b = is_used-bit mem q ∙ rw (byte, bit-zero (7 - q % 8)) refl
  where
    byte : mem (q / 8) ≡ 0
    byte = ground arith

module _ (needed : ℕ) (mem : ℕ → ℕ) where
  -- A free section that does not complete the run.
  free_step :
      (n i found start : ℕ)
      → is_used mem i ≡ false
      → found + 1 < needed
      → one_by_one (suc n) needed mem i found start
        ≡ one_by_one n needed mem (i + 1) (found + 1) (if found == 0 then i else start)
  unfolding one_by_one
  free_step n i found start free short = rw free (ground arith)

  same :
      (r r' i i' f f' s : ℕ)
      → r ≡ r'
      → i ≡ i'
      → f ≡ f'
      → one_by_one r needed mem i f s ≡ one_by_one r' needed mem i' f' s
  same r r' i i' f f' s a b c = λ t. one_by_one (a t) needed mem (b t) (c t) s

  Free-steps :
      (k r i found start : ℕ)
      → Free mem i (i + k)
      → found + k < needed
      → 0 < found
      → one_by_one (k + r) needed mem i found start
        ≡ one_by_one r needed mem (i + k) (found + k) start
  Free-steps zero r i found start free short pos =
      same (0 + r) r i (i + 0) found (found + 0) start (omega arith) (omega arith) (omega arith)
  Free-steps (suc k) r i found start free short pos =
      same (suc k + r) (suc (k + r)) i i found found start (omega arith) refl refl
      ∙ free_step (k + r) i found start (free i (omega arith) (omega arith)) (omega arith)
      ∙ ap (λ s. one_by_one (k + r) needed mem (i + 1) (found + 1) s) (ground arith)
      ∙ Free-steps k r (i + 1) (found + 1) start (λ q a b. free q (omega arith) (omega arith))
          (omega arith) (omega arith)
      ∙ same r r (i + 1 + k) (i + suc k) (found + 1 + k) (found + suc k) start refl (omega arith)
          (omega arith)

  -- Over a word of free sections that do not complete the run.
  Free-word :
      (r i found start : ℕ)
      → Free mem i (i + 64)
      → found + 64 < needed
      → one_by_one (64 + r) needed mem i found start
        ≡ one_by_one r needed mem (i + 64) (found + 64) (if found == 0 then i else start)
  Free-word r i found start free short =
      same (64 + r) (suc (63 + r)) i i found found start (omega arith) refl refl
      ∙ free_step (63 + r) i found start (free i (omega arith) (omega arith)) (omega arith)
      ∙ Free-steps 63 r (i + 1) (found + 1) (if found == 0 then i else start)
          (λ q a b. free q (omega arith) (omega arith)) (omega arith) (omega arith)
      ∙ same r r (i + 1 + 63) (i + 64) (found + 1 + 63) (found + 64) _ refl (omega arith)
          (omega arith)

  pub plain_step :
      (n i found start : ℕ)
      → is_used mem i ≡ false
      → one_by_one (suc n) needed mem i found start ≡ (
          let start' = if found == 0 then i else start in
          if found + 1 == needed
          then found_at start'
          else one_by_one n needed mem (i + 1) (found + 1) start')
  unfolding one_by_one
  plain_step n i found start free = rw free refl

  pub used_step :
      (n i found start : ℕ)
      → is_used mem i ≡ true
      → 0 < needed
      → one_by_one (suc n) needed mem i found start ≡ one_by_one n needed mem (i + 1) 0 start
  unfolding one_by_one
  used_step n i found start used pos = rw used (ground arith)

  abbrev skips : (size i found : ℕ) → Bool
  skips size i found =
      i % 8 == 0 && (ltb i (sub_u64 size 64) && (ltb (found + 64) needed && zero_word mem (i / 8)))

  skips-facts :
      (size i found : ℕ)
      → 64 ≤ size
      → size < 2 ^ 64
      → skips size i found ≡ true
      → (i + 64 < size) × (found + 64 < needed) × Free mem i (i + 64)
  skips-facts size i found big small e =
      (ground arith, ground arith, zero_word-Free mem i (ground arith) (ground arith))

  module _ (size : ℕ) (big : 64 ≤ size) (small : size < 2 ^ 64) (pos : 0 < needed) where
    -- The search with skips, from section `i` on, with more fuel than sections are left.
    search_from :
        (fuel r i found start : ℕ)
        → i + r ≡ size
        → r < fuel
        → search fuel needed size mem i found start ≡ one_by_one r needed mem i found start
    unfolding search
    search_from zero r i found start e f = elim f [ ]
    search_from (suc fuel) zero i found start e f = unfold one_by_one in ground arith
    search_from (suc fuel) (suc r) i found start e f =
        let inside : ltb i size ≡ true = ground arith in
        elim (Bool-cases (is_used mem i)) [
          | inl used ↦
              rw (used_step r i found start used pos, used, inside)
                (ground (arith, search_from fuel r (i + 1) 0 start))
          | inr free ↦ elim (Bool-cases (skips size i found)) [
            | inl skip ↦
                let (a, b, c) = skips-facts size i found big small skip in
                let start' = if found == 0 then i else start in
                rw (free, inside, skip)
                  (search_from fuel (suc r - 64) (i + 64) (found + 64) start' (omega arith)
                      (omega arith)
                    ∙ sym (Free-word (suc r - 64) i found start c b)
                    ∙ same (64 + (suc r - 64)) (suc r) i i found found start (omega arith) refl
                        refl)
            | inr stay ↦
                rw (plain_step r i found start free, free, inside, stay)
                  (ground (
                    arith,
                    search_from fuel r (i + 1) (found + 1) (if found == 0 then i else start),
                  ))
          ]
        ]

    -- The loop of `vmalloc` over a node, which skips whole words of free sections, finds what a search
    -- of one section after the other finds, for a bitmap from 64 up to 2 ^ 64 bits and at least one
    -- section; the fuel of one more than the number of sections is enough.
    pub search-one_by_one :
        search (size + 1) needed size mem 0 0 0 ≡ one_by_one size needed mem 0 0 0
    search-one_by_one = search_from (size + 1) size 0 0 0 (omega arith) (omega arith)
