-- ===== src/Util/Misc/Compare.antt =====
-- `strncmp` of src/util/misc.c: the unrolled loop against the loop of one byte, and what a result
-- of zero means.
use lios.Prelude.{
  ℕ, zero, suc, ◌+◌, ◌*◌, ◌/◌, ◌%◌, ◌<◌, ◌≡◌, ◌↔◌, ◌⊎◌, inl, inr, arith, leb, ◌∙◌, sym, Bool-cases,
  ap,
}
use native.Mathlib.Nat.{add_assoc}
use lios.Util.Misc.{Memory, strncmp_bytes, strncmp_rounds, strncmp}

one_round :
    (m : Memory) (n4 left s1 s2 c1 c2 : ℕ)
    → strncmp_rounds m n4 left (s1 + 4) (s2 + 4) (m (s1 + 3)) (m (s2 + 3))
      ≡ strncmp_bytes m (n4 * 4 + left) (s1 + 4) (s2 + 4) (m (s1 + 3)) (m (s2 + 3))
    → strncmp_rounds m (suc n4) left s1 s2 c1 c2
      ≡ strncmp_bytes m (suc (suc (suc (suc (n4 * 4 + left))))) s1 s2 c1 c2
unfolding strncmp_rounds strncmp_bytes
one_round m n4 left s1 s2 c1 c2 e =
    rw
      (
        add_assoc s1 1 1,
        add_assoc s2 1 1,
        add_assoc s1 2 1,
        add_assoc s2 2 1,
        add_assoc s1 3 1,
        add_assoc s2 3 1,
      )
      (ground (arith))

-- Four rounds of the byte loop are one round of the unrolled loop.
strncmp_rounds-bytes :
    (m : Memory) (n4 left s1 s2 c1 c2 : ℕ)
    → strncmp_rounds m n4 left s1 s2 c1 c2 ≡ strncmp_bytes m (n4 * 4 + left) s1 s2 c1 c2
strncmp_rounds-bytes m zero left s1 s2 c1 c2 =
    unfold strncmp_rounds in ap (λ n. strncmp_bytes m n s1 s2 c1 c2) (omega arith)
strncmp_rounds-bytes m (suc n4) left s1 s2 c1 c2 = rw (four_more n4 left) (
    one_round m n4 left s1 s2 c1 c2
      (strncmp_rounds-bytes m n4 left (s1 + 4) (s2 + 4) (m (s1 + 3)) (m (s2 + 3))))
  where
    four_more : (a b : ℕ) → suc a * 4 + b ≡ suc (suc (suc (suc (a * 4 + b))))
    four_more a b = omega arith

-- The unrolled loop of `strncmp` returns what a comparison of one byte at a time returns.
pub strncmp_unrolled : (m : Memory) (s1 s2 n : ℕ) → strncmp m s1 s2 n ≡ strncmp_bytes m n s1 s2 0 0
unfolding strncmp
strncmp_unrolled m s1 s2 n = elim (Bool-cases (leb 4 n)) [
  | inl big ↦ rw big (
      strncmp_rounds-bytes m (n / 4) (n % 4) s1 s2 0 0
      ∙ ap (λ k. strncmp_bytes m k s1 s2 0 0) (omega arith))
  | inr small ↦ rw small
]

-- The first n bytes agree, up to and including a first NUL.
abbrev pub Agree : Memory → (n s1 s2 : ℕ) → Type 0
Agree m zero s1 s2 = Unit {0}
Agree m (suc n) s1 s2 = (m s1 ≡ m s2) × ((m s1 ≡ 0) ⊎ Agree m n (s1 + 1) (s2 + 1))

Agree-of_zero :
    (m : Memory) (n s1 s2 c1 c2 : ℕ)
    → ((x : ℕ) → m x < 256)
    → strncmp_bytes m (suc n) s1 s2 c1 c2 ≡ 0
    → Agree m (suc n) s1 s2
unfolding strncmp_bytes
Agree-of_zero m zero s1 s2 c1 c2 b e = ground (arith, b s1, b s2)
Agree-of_zero m (suc n) s1 s2 c1 c2 b e =
    ground (arith, b s1, b s2, Agree-of_zero m n (s1 + 1) (s2 + 1) (m s1) (m s2) b)

zero_of-Agree :
    (m : Memory) (n s1 s2 c1 c2 : ℕ)
    → ((x : ℕ) → m x < 256)
    → Agree m (suc n) s1 s2
    → strncmp_bytes m (suc n) s1 s2 c1 c2 ≡ 0
unfolding strncmp_bytes
zero_of-Agree m zero s1 s2 c1 c2 b e = ground (arith, b s1)
zero_of-Agree m (suc n) s1 s2 c1 c2 b (e, inl z) = ground (arith, b s1)
zero_of-Agree m (suc n) s1 s2 c1 c2 b (e, inr a) =
    ground (arith, b s1, zero_of-Agree m n (s1 + 1) (s2 + 1) (m s1) (m s2) b a)

-- In a memory of bytes, `strncmp` of n bytes, n positive, is zero exactly when the first n bytes
-- agree, where a NUL that both have ends the comparison.
pub strncmp-Agree :
    (m : Memory) (s1 s2 n : ℕ)
    → ((x : ℕ) → m x < 256)
    → 0 < n
    → (strncmp m s1 s2 n ≡ 0) ↔ Agree m n s1 s2
strncmp-Agree m s1 s2 zero b h = elim h [ ]
strncmp-Agree m s1 s2 (suc n) b h = (
  λ e. Agree-of_zero m n s1 s2 0 0 b (sym (strncmp_unrolled m s1 s2 (suc n)) ∙ e),
  λ a. strncmp_unrolled m s1 s2 (suc n) ∙ zero_of-Agree m n s1 s2 0 0 b a,
)
