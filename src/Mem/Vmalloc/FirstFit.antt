-- ===== src/Mem/Vmalloc/FirstFit.antt =====
-- What the search of `vmalloc` in src/mem/vmalloc.c finds in a node: the first run that is long enough.
use lios.Prelude.{
  ℕ, zero, suc, ◌+◌, ◌-◌, ◌≤◌, ◌<◌, ◌^◌, ◌≡◌, refl, arith, true, false, ◌==◌, if◌then◌else◌,
  Bool-cases, inl, inr, ◌⊎◌, sym, ==_iff, ℕ_discrete,
}
use mathlib.Core.Path.{subst}
use lios.Mem.Vmalloc.{is_used, Found, found_at, no_room, stuck, search}
use lios.Mem.Vmalloc.Search.{Free, one_by_one, plain_step, used_step, search-one_by_one}

-- The outcome is the first run of free sections of the length asked for, or there is none.
abbrev pub IsFirstFit : (needed : ℕ) (mem : ℕ → ℕ) (size : ℕ) → Found → Type 0
IsFirstFit needed mem size (found_at s) =
    (s + needed ≤ size) × Free mem s (s + needed) × ((t : ℕ) → t < s → Free mem t (t + needed) → ⊥)
IsFirstFit needed mem size no_room = (t : ℕ) → t + needed ≤ size → Free mem t (t + needed) → ⊥
IsFirstFit needed mem size stuck = ⊥

module _ (needed : ℕ) (mem : ℕ → ℕ) (pos : 0 < needed) where
  -- A run that has a used section is not free.
  blocked : (t q : ℕ) → t ≤ q → q < t + needed → is_used mem q ≡ true → Free mem t (t + needed) → ⊥
  blocked t q a b used free = ground (arith, free q a b)

  Free-extend : (lo i : ℕ) → Free mem lo i → is_used mem i ≡ false → Free mem lo (i + 1)
  Free-extend lo i free unused q a b = elim (ℕ_discrete q i) [
    | yes same ↦ rw same unused
    | no other ↦ free q a (omega (arith, other))
  ]

  -- At section `i`, with `found` free sections before it, and no long enough run from before them.
  one_by_one-IsFirstFit :
      (r i found start size : ℕ)
      → i + r ≡ size
      → found ≤ i
      → found < needed
      → (found ≡ 0) ⊎ (start + found ≡ i)
      → Free mem (i - found) i
      → ((t : ℕ) → t < i - found → Free mem t (t + needed) → ⊥)
      → IsFirstFit needed mem size (one_by_one r needed mem i found start)
  one_by_one-IsFirstFit zero i found start size e a b c free none_before =
      unfold one_by_one in λ t fits. none_before t (omega arith)
  one_by_one-IsFirstFit (suc r) i found start size e a b c free none_before =
      elim (Bool-cases (is_used mem i)) [
        | inl used ↦
            subst (IsFirstFit needed mem size) (sym (used_step needed mem r i found start used pos))
              (one_by_one-IsFirstFit r (i + 1) 0 start size (omega arith) (omega arith) pos
                (inl refl) (λ q x y. absurd (omega arith))
                (λ t before. elim (le_total t i found) [
                  | inl early ↦ none_before t early
                  | inr late ↦ blocked t i (omega arith) (omega arith) used
                ]))
        | inr unused ↦
            let start' = if found == 0 then i else start in
            let begins : start' + found ≡ i = ground arith in
            let longer : Free mem (i - found) (i + 1) = Free-extend (i - found) i free unused in
            subst (IsFirstFit needed mem size) (sym (plain_step needed mem r i found start unused))
              (elim (Bool-cases (found + 1 == needed)) [
                | inl full ↦ rw full (
                  omega (arith, (==_iff _ _).0 full),
                  λ q x y. longer q (omega arith) (omega (arith, (==_iff _ _).0 full)),
                  λ t before. none_before t (omega arith),
                )
                | inr more ↦ rw more (
                    one_by_one-IsFirstFit r (i + 1) (found + 1) start' size (omega arith)
                      (omega arith) (ground arith) (inr (omega arith))
                      (λ q x y. longer q (omega arith) y) (λ t before. none_before t (omega arith)))
              ])
      ]
    where
      le_total : (t i found : ℕ) → (t < i - found) ⊎ (i - found ≤ t)
      le_total t i found = ground arith

-- The loop of `vmalloc` over a node finds the first run of free sections that is long enough, and finds
-- none only if there is none; it does not run out of fuel. For a bitmap from 64 up to 2 ^ 64 bits and
-- at least one section.
pub search-IsFirstFit :
    (needed : ℕ) (mem : ℕ → ℕ) (size : ℕ)
    → 64 ≤ size
    → size < 2 ^ 64
    → 0 < needed
    → IsFirstFit needed mem size (search (size + 1) needed size mem 0 0 0)
search-IsFirstFit needed mem size big small pos =
    subst (IsFirstFit needed mem size) (sym (search-one_by_one needed mem size big small pos)) (
      one_by_one-IsFirstFit needed mem pos size 0 0 0 size (omega arith) (omega arith) pos
        (inl refl) (λ q x y. absurd (omega arith)) (λ t before. absurd (omega arith)))
