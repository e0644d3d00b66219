-- ===== src/Util/ArrayList/Loops.antt =====
-- The byte loops of src/util/arraylist.c, index by index.
use lios.Prelude.{
  ℕ, zero, suc, ◌+◌, ◌≤◌, ◌<◌, ◌≡◌, refl, ◌⊎◌, arith, List, length, get_or, set, length-set,
  get_or-set_self, get_or-set_ne, ◌∙◌, ℕ_discrete,
}
use mathlib.Core.Path.{subst}
use lios.Util.ArrayList.{shift_down, copy_to}

pub length-shift_down :
    (es rounds i : ℕ) (l : List ℕ) → length (shift_down es rounds i l) ≡ length l
unfolding shift_down
length-shift_down es zero i l = refl
length-shift_down es (suc rounds) i l =
    length-shift_down es rounds (i + 1) (set l i (get_or l (i + es) 0)) ∙ length-set l i _

pub length-copy_to :
    (o rounds i : ℕ) (l new : List ℕ) → length (copy_to o rounds i l new) ≡ length new
unfolding copy_to
length-copy_to o zero i l new = refl
length-copy_to o (suc rounds) i l new =
    length-copy_to o rounds (i + 1) l (set new i (get_or l (i + o) 0)) ∙ length-set new i _

pub shift_down_outside :
    (es rounds i : ℕ) (l : List ℕ) (p : ℕ)
    → (p < i) ⊎ (i + rounds ≤ p)
    → get_or (shift_down es rounds i l) p 0 ≡ get_or l p 0
unfolding shift_down
shift_down_outside es zero i l p h = refl
shift_down_outside es (suc rounds) i l p h =
    shift_down_outside es rounds (i + 1) (set l i (get_or l (i + es) 0)) p (omega arith)
    ∙ get_or-set_ne l i p (get_or l (i + es) 0) 0 (λ e. omega arith)

pub shift_down_inside :
    (es rounds i : ℕ) (l : List ℕ) (p : ℕ)
    → i + rounds ≤ length l
    → i ≤ p
    → p < i + rounds
    → get_or (shift_down es rounds i l) p 0 ≡ get_or l (p + es) 0
unfolding shift_down
shift_down_inside es zero i l p w h k = absurd (omega arith)
shift_down_inside es (suc rounds) i l p w h k = elim (ℕ_discrete i p) [
  | yes e ↦
      shift_down_outside es rounds (i + 1) l' p (omega arith)
      ∙ subst (λ x. get_or l' x 0 ≡ get_or l (x + es) 0) e here
  | no e ↦
      shift_down_inside es rounds (i + 1) l' p (omega (arith, length-set l i v)) (omega arith)
        (omega arith)
      ∙ get_or-set_ne l i (p + es) v 0 (λ x. omega arith)
]
  where
    v : ℕ
    v = get_or l (i + es) 0

    l' : List ℕ
    l' = set l i v

    here : get_or l' i 0 ≡ v
    here = get_or-set_self l i v 0 (omega arith)

pub copy_to_outside :
    (o rounds i : ℕ) (l new : List ℕ) (p : ℕ)
    → (p < i) ⊎ (i + rounds ≤ p)
    → get_or (copy_to o rounds i l new) p 0 ≡ get_or new p 0
unfolding copy_to
copy_to_outside o zero i l new p h = refl
copy_to_outside o (suc rounds) i l new p h =
    copy_to_outside o rounds (i + 1) l (set new i (get_or l (i + o) 0)) p (omega arith)
    ∙ get_or-set_ne new i p (get_or l (i + o) 0) 0 (λ e. omega arith)

pub copy_to_inside :
    (o rounds i : ℕ) (l new : List ℕ) (p : ℕ)
    → i + rounds ≤ length new
    → i ≤ p
    → p < i + rounds
    → get_or (copy_to o rounds i l new) p 0 ≡ get_or l (p + o) 0
unfolding copy_to
copy_to_inside o zero i l new p w h k = absurd (omega arith)
copy_to_inside o (suc rounds) i l new p w h k = elim (ℕ_discrete i p) [
  | yes e ↦
      copy_to_outside o rounds (i + 1) l new' p (omega arith)
      ∙ subst (λ x. get_or new' x 0 ≡ get_or l (x + o) 0) e here
  | no e ↦
      copy_to_inside o rounds (i + 1) l new' p (omega (arith, length-set new i v)) (omega arith)
        (omega arith)
]
  where
    v : ℕ
    v = get_or l (i + o) 0

    new' : List ℕ
    new' = set new i v

    here : get_or new' i 0 ≡ v
    here = get_or-set_self new i v 0 (omega arith)
