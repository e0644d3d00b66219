-- ===== src/Checks/Utilities.antt =====
-- Runs of the models of src/util on concrete inputs.
use lios.Prelude.{
  ℕ, ◌+◌, ◌*◌, ◌<◌, ◌≡◌, refl, arith, List, [], ◌∷◌, length, replicate, get_or, true,
  length-replicate,
}
use lios.Util.ArrayList.{ArrayList, arraylist_add, arraylist_remove, IsValid}
use lios.Util.ArrayList.Growth.{arraylist_add_lem}
use lios.Util.ArrayList.Removal.{Without, arraylist_remove_lem}

abbrev two_items : ArrayList
two_items = record { l = 1 ∷ 2 ∷ 3 ∷ 4 ∷ []; size = 2; capacity = 2; entry_size = 2 }

abbrev zeros : ℕ → List ℕ
zeros n = replicate n 0

zeros-length : (n : ℕ) → length (zeros n) ≡ n
zeros-length n = length-replicate n 0

two_items-IsValid : IsValid two_items
two_items-IsValid = record { block = refl; fits = omega arith }

arraylist_add_lem_example :
    let (list', index) = arraylist_add zeros two_items in
    IsValid list'
    × (list'.size ≡ 3)
    × (index ≡ 2)
    × (list'.entry_size ≡ 2)
    × ((p : ℕ) → p < 2 * 2 → get_or list'.l p 0 ≡ get_or two_items.l p 0)
arraylist_add_lem_example =
    arraylist_add_lem zeros zeros-length two_items two_items-IsValid (omega arith) (omega arith)

arraylist_remove_lem_example :
    let (list', done) = arraylist_remove zeros two_items 0 in
    (done ≡ true)
    × IsValid list'
    × (list'.size + 1 ≡ 2)
    × (list'.entry_size ≡ 2)
    × Without 2 0 (list'.size * 2) two_items.l list'.l
arraylist_remove_lem_example =
    arraylist_remove_lem zeros zeros-length two_items 0 two_items-IsValid (omega arith)
