-- ===== src/Util/ArrayList/Removal.antt =====
-- What `arraylist_remove` of src/util/arraylist.c does to the list.
use lios.Prelude.{
  ℕ, ◌+◌, ◌-◌, ◌*◌, ◌/◌, ◌≤◌, ◌<◌, ◌≡◌, refl, arith, true, false, List, length, get_or, Bool-cases,
  inl, inr, leb, le→leb, ◌∙◌, ap,
}
use lios.Util.ArrayList.{ArrayList, shift_down, copy_to, arraylist_remove, IsValid}
use lios.Util.ArrayList.Loops.{
  length-shift_down, length-copy_to, shift_down_outside, shift_down_inside, copy_to_outside,
  copy_to_inside,
}

-- The bytes of `out` below `hi` are those of `l` with the entry at byte `lo` taken out.
abbrev pub Without : (es lo hi : ℕ) → (l out : List ℕ) → Type 0
Without es lo hi l out =
    ((p : ℕ) → p < lo → get_or out p 0 ≡ get_or l p 0)
    × ((p : ℕ) → lo ≤ p → p < hi → get_or out p 0 ≡ get_or l (p + es) 0)

shift_down-Without :
    (es lo hi : ℕ) (l : List ℕ)
    → lo ≤ hi
    → hi ≤ length l
    → Without es lo hi l (shift_down es (hi - lo) lo l)
shift_down-Without es lo hi l h w = (
  λ p k. shift_down_outside es (hi - lo) lo l p (omega arith),
  λ p k j. shift_down_inside es (hi - lo) lo l p (omega arith) k (omega arith),
)

copy-Without :
    (es lo hi : ℕ) (l new : List ℕ)
    → lo ≤ hi
    → hi ≤ length new
    → Without es lo hi l (copy_to es (hi - lo) lo l (copy_to 0 lo 0 l new))
copy-Without es lo hi l new h w = (
  λ p k.
      copy_to_outside es (hi - lo) lo l (copy_to 0 lo 0 l new) p (omega arith)
      ∙ copy_to_inside 0 lo 0 l new p (omega arith) (omega arith) (omega arith)
      ∙ ap (λ x. get_or l x 0) (omega arith),
  λ p k j.
      copy_to_inside es (hi - lo) lo l (copy_to 0 lo 0 l new) p
        (omega (arith, length-copy_to 0 lo 0 l new)) k (omega arith),
)

le-mul_right : (a b c : ℕ) → a ≤ b → a * c ≤ b * c
le-mul_right a b c h = grind arith

-- An index out of range leaves every list as it is, and the result is `false`.
pub arraylist_remove_out_of_range :
    (fresh : ℕ → List ℕ) (list : ArrayList) (index : ℕ)
    → list.size ≤ index
    → arraylist_remove fresh list index ≡ (list, false)
unfolding arraylist_remove
arraylist_remove_out_of_range fresh list index h = rw (le→leb _ _ h)

module _ (fresh : ℕ → List ℕ) (fresh_length : (n : ℕ) → length (fresh n) ≡ n) where
  -- On a valid list, an index in range is removed: the result is `true`, the list stays valid and
  -- is one item shorter, the items before the index stay, and those behind it move down by one.
  pub arraylist_remove_lem :
      (list : ArrayList) (index : ℕ)
      → IsValid list
      → index < list.size
      → let (list', done) = arraylist_remove fresh list index in
        (done ≡ true)
        × IsValid list'
        × (list'.size + 1 ≡ list.size)
        × (list'.entry_size ≡ list.entry_size)
        × Without list.entry_size
            (index * list.entry_size)
            (list'.size * list.entry_size)
            list.l
            list'.l
  unfolding arraylist_remove
  arraylist_remove_lem list index v h =
      rw in_range (elim (Bool-cases (leb (list.capacity / 2) (list.size - 1))) [
        | inl stay ↦ rw stay (
          refl,
          record {
            block = length-shift_down es _ _ list.l ∙ v.block;
            fits = omega (arith, v.fits);
          },
          omega arith,
          refl,
          shift_down-Without es (index * es) ((list.size - 1) * es) list.l lo
              (omega (arith, hi list.capacity (omega (arith, v.fits)), v.block)),
        )
        | inr half ↦ rw half (
          refl,
          record {
            block =
                length-copy_to es _ _ list.l _
                ∙ length-copy_to 0 _ _ list.l _
                ∙ fresh_length (list.capacity / 2 * es);
            fits = ground arith;
          },
          omega arith,
          refl,
          copy-Without es (index * es) ((list.size - 1) * es) list.l
              (fresh (list.capacity / 2 * es)) lo
              (rw (fresh_length (list.capacity / 2 * es)) (hi (list.capacity / 2) (ground arith))),
        )
      ])
    where
      es : ℕ
      es = list.entry_size

      in_range : leb list.size index ≡ false
      in_range = ground arith

      lo : index * es ≤ (list.size - 1) * es
      lo = le-mul_right index (list.size - 1) es (omega arith)

      hi : (c : ℕ) → list.size - 1 ≤ c → (list.size - 1) * es ≤ c * es
      hi c k = le-mul_right (list.size - 1) c es k
