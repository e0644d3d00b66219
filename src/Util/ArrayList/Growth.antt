-- ===== src/Util/ArrayList/Growth.antt =====
-- What `arraylist_add` of src/util/arraylist.c does to the list.
use lios.Prelude.{
  ℕ, zero, suc, ◌+◌, ◌*◌, ◌^◌, ◌≤◌, ◌<◌, ◌≡◌, refl, arith, List, length, length-append, length-take,
  length-drop, take, drop, ◌++◌, [], ◌∷◌, get_or, Bool-cases, inl, inr, leb, ◌==◌, u64, ◌∙◌, leb→le,
}
use lios.Util.ArrayList.{ArrayList, grown, arraylist_add, IsValid}

get_or-append_left :
    (xs ys : List ℕ) (p : ℕ) → p < length xs → get_or (xs ++ ys) p 0 ≡ get_or xs p 0
get_or-append_left [] ys p h = elim h [ ]
get_or-append_left (x ∷ xs) ys zero h = refl
get_or-append_left (x ∷ xs) ys (suc p) h = get_or-append_left xs ys p (omega arith)

get_or-take : (n : ℕ) (xs : List ℕ) (p : ℕ) → p < n → get_or (take n xs) p 0 ≡ get_or xs p 0
get_or-take zero xs p h = elim h [ ]
get_or-take (suc n) [] p h = refl
get_or-take (suc n) (x ∷ xs) zero h = refl
get_or-take (suc n) (x ∷ xs) (suc p) h = get_or-take n xs p (omega arith)

no_bytes : (size es p : ℕ) → size ≡ 0 → p < size * es → ⊥
no_bytes zero es p e h = omega arith
no_bytes (suc size) es p e h = omega arith

doubled : (c es : ℕ) → 0 < es → (c + 1) * 2 * es < 2 ^ 64 → u64 (c * 2) ≡ c * 2
doubled c es pos small = grind arith

module _ (fresh : ℕ → List ℕ) (fresh_length : (n : ℕ) → length (fresh n) ≡ n) where
  length-grown : (old : List ℕ) (n : ℕ) → length old ≤ n → length (grown fresh old n) ≡ n
  unfolding grown
  length-grown old n h = omega (
    arith,
    length-append (take n old) (drop (length old) (fresh n)),
    length-take n old,
    length-drop (length old) (fresh n),
    fresh_length n,
  )

  grown_keeps :
      (old : List ℕ) (n p : ℕ)
      → length old ≤ n
      → p < length old
      → get_or (grown fresh old n) p 0 ≡ get_or old p 0
  unfolding grown
  grown_keeps old n p h k = ground (
    arith,
    get_or-append_left (take n old) (drop (length old) (fresh n)) p,
    length-take n old,
    get_or-take n old p,
  )

  -- When the grown block is below 2 ^ 64 bytes, adding to a valid list with positive entry size
  -- leaves a valid list that is one item longer, returns the old size as the index, and keeps
  -- every byte of the old items.
  pub arraylist_add_lem :
      (list : ArrayList)
      → IsValid list
      → 0 < list.entry_size
      → (list.capacity + 1) * 2 * list.entry_size < 2 ^ 64
      → let (list', index) = arraylist_add fresh list in
        IsValid list'
        × (list'.size ≡ list.size + 1)
        × (index ≡ list.size)
        × (list'.entry_size ≡ list.entry_size)
        × ((p : ℕ) → p < list.size * list.entry_size → get_or list'.l p 0 ≡ get_or list.l p 0)
  unfolding arraylist_add
  arraylist_add_lem list v pos small = elim (Bool-cases (list.capacity == 0)) [
    | inl empty ↦ rw empty (
      record { block = fresh_length _ ∙ omega arith; fits = omega arith },
      ground arith,
      ground arith,
      refl,
      λ p k. absurd (no_bytes list.size list.entry_size p (ground arith) k),
    )
    | inr some_room ↦ rw some_room (elim (Bool-cases (leb (list.size + 1) list.capacity)) [
      | inl room ↦
          rw room
            (record { block = v.block; fits = leb→le _ _ room }, refl, refl, refl, λ p k. refl)
      | inr full ↦
          rw (full, doubled list.capacity list.entry_size pos small)
            (
              record {
                block = length-grown list.l _ (omega (arith, v.block)) ∙ omega arith;
                fits = ground arith;
              },
              refl,
              refl,
              refl,
              λ p k.
                  grown_keeps list.l _ p (omega (arith, v.block)) (grind (arith, v.block, v.fits)),
            )
    ])
  ]
