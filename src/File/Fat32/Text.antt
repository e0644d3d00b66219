-- ===== src/File/Fat32/Text.antt =====
-- The name that the directory search of src/file/fat32.c looks for, and when an entry has it.
use lios.Prelude.{
  ℕ, zero, suc, ◌+◌, ◌-◌, ◌*◌, ◌<◌, ◌≡◌, ◌↔◌, ◌∙◌, sym, ap, subst, arith, false, ltb, inl, inr,
  List, [], ◌∷◌, length, get_or, set, replicate,
}
use native.Mathlib.Nat.{add-zero}
use lios.Util.Misc.{Memory, strncmp, toupper}
use lios.Util.Misc.Compare.{Agree, strncmp-Agree}
use lios.File.Fat32.{Block, put_upper, short_name, beside}
use lios.File.Fat32.Naming.{length-short_name}

-- Bytes other than NUL.
abbrev pub IsText : List ℕ → Type 0
IsText [] = Unit {0}
IsText (c ∷ cs) = (0 < c) × (c < 256) × IsText cs

toupper-IsText : (c : ℕ) → 0 < c → c < 256 → (0 < toupper c) × (toupper c < 256)
unfolding toupper
toupper-IsText c a b = ground arith

set-IsText : (buf : List ℕ) (i c : ℕ) → IsText buf → 0 < c → c < 256 → IsText (set buf i c)
set-IsText [] i c t a b = tt
set-IsText (x ∷ xs) zero c (y, z, t) a b = (a, b, t)
set-IsText (x ∷ xs) (suc i) c (y, z, t) a b = (y, z, set-IsText xs i c t a b)

put_upper-IsText : (o : ℕ) (cs buf : List ℕ) → IsText cs → IsText buf → IsText (put_upper o cs buf)
unfolding put_upper
put_upper-IsText o [] buf t u = u
put_upper-IsText o (c ∷ cs) buf (a, b, t) u =
    let (x, y) = toupper-IsText c a b in
    put_upper-IsText (o + 1) cs (set buf o (toupper c)) t (set-IsText buf o (toupper c) u x y)

blanks-IsText : (n : ℕ) → IsText (replicate n b' ')
blanks-IsText zero = tt
blanks-IsText (suc n) = (omega arith, omega arith, blanks-IsText n)

short_name-IsText : (name ext : List ℕ) → IsText name → IsText ext → IsText (short_name name ext)
unfolding short_name
short_name-IsText name ext t u =
    put_upper-IsText 8 ext (put_upper 0 name (replicate 11 b' ')) u
      (put_upper-IsText 0 name (replicate 11 b' ') t (blanks-IsText 11))

get_or-IsText : (cs : List ℕ) (j : ℕ) → IsText cs → j < length cs → 0 < get_or cs j 0
get_or-IsText [] j t f = elim f [ ]
get_or-IsText (c ∷ cs) zero (a, b, t) f = a
get_or-IsText (c ∷ cs) (suc j) (a, b, t) f = get_or-IsText cs j t (omega arith)

get_or-below : (cs : List ℕ) (j : ℕ) → IsText cs → get_or cs j 0 < 256
get_or-below [] j t = omega arith
get_or-below (c ∷ cs) zero (a, b, t) = b
get_or-below (c ∷ cs) (suc j) (a, b, t) = get_or-below cs j t

-- Without a NUL in one text, to agree is to have the same bytes.
bytes-of_Agree :
    (m : Memory) (n s1 s2 j : ℕ)
    → ((k : ℕ) → k < n → 0 < m (s2 + k))
    → Agree m n s1 s2
    → j < n
    → m (s1 + j) ≡ m (s2 + j)
bytes-of_Agree m zero s1 s2 j p a f = elim f [ ]
bytes-of_Agree m (suc n) s1 s2 zero p (e, a) f = ap m (omega arith) ∙ (e ∙ ap m (omega arith))
bytes-of_Agree m (suc n) s1 s2 (suc j) p (e, inl z) f =
    let q = p 0 (omega arith) in absurd (omega (arith, ap m (add-zero s2)))
bytes-of_Agree m (suc n) s1 s2 (suc j) p (e, inr a) f =
    let later : (k : ℕ) → k < n → 0 < m (s2 + 1 + k) =
      (λ k l. subst (λ t. 0 < m t) (omega arith) (p (suc k) (omega arith))) in
    ap m (omega arith)
    ∙ (bytes-of_Agree m n (s1 + 1) (s2 + 1) j later a (omega arith) ∙ ap m (omega arith))

Agree-of_bytes :
    (m : Memory) (n s1 s2 : ℕ) → ((j : ℕ) → j < n → m (s1 + j) ≡ m (s2 + j)) → Agree m n s1 s2
Agree-of_bytes m zero s1 s2 p = tt
Agree-of_bytes m (suc n) s1 s2 p = (
  ap m (omega arith) ∙ (p 0 (omega arith) ∙ ap m (omega arith)),
  inr (
      Agree-of_bytes m n (s1 + 1) (s2 + 1)
        (λ j f. ap m (omega arith) ∙ (p (suc j) (omega arith) ∙ ap m (omega arith)))),
)

-- Entry `i` of a directory block has the name.
abbrev pub Matches : Block → (want : List ℕ) → (i : ℕ) → Type 0
Matches b want i = (j : ℕ) → j < 11 → b (32 * i + j) ≡ get_or want j 0

beside-block : (b : Block) (want : List ℕ) (x : ℕ) → x < 512 → beside b want x ≡ b x
beside-block b want x f = ground arith

beside-text : (b : Block) (want : List ℕ) (j : ℕ) → beside b want (512 + j) ≡ get_or want j 0
beside-text b want j =
    let behind : ltb (512 + j) 512 ≡ false = ground arith in
    rw behind (ap (λ k. get_or want k 0) (omega arith))

beside-below :
    (b : Block) (want : List ℕ) (x : ℕ)
    → ((i : ℕ) → b i < 256)
    → IsText want
    → beside b want x < 256
beside-below b want x p t = ground (arith, p x, get_or-below want (x - 512) t)

-- The comparison of the search says whether an entry has the name.
pub strncmp-Matches :
    (b : Block) (name ext : List ℕ) (i : ℕ)
    → ((x : ℕ) → b x < 256)
    → IsText name
    → IsText ext
    → i < 16
    → (strncmp (beside b (short_name name ext)) (32 * i) 512 11 ≡ 0)
      ↔ Matches b (short_name name ext) i
strncmp-Matches b name ext i p t u f =
    let want = short_name name ext in
    let text = short_name-IsText name ext t u in
    let m = beside b want in
    let agree = strncmp-Agree m (32 * i) 512 11 (λ x. beside-below b want x p text) (omega arith) in
    let some_byte : (k : ℕ) → k < 11 → 0 < m (512 + k) = (λ k l.
      subst (λ c. 0 < c) (sym (beside-text b want k))
        (get_or-IsText want k text (omega (arith, length-short_name name ext)))) in
    (
      λ e j l.
          sym (beside-block b want (32 * i + j) (omega arith))
          ∙ (bytes-of_Agree m 11 (32 * i) 512 j some_byte (agree.0 e) l ∙ beside-text b want j),
      λ same. agree.1 (
          Agree-of_bytes m 11 (32 * i) 512 (λ j l.
            beside-block b want (32 * i + j) (omega arith)
            ∙ (same j l ∙ sym (beside-text b want j)))),
    )
