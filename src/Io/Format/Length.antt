-- ===== src/Io/Format/Length.antt =====
-- The length that `printf` of src/io/output.c returns.
use lios.Prelude.{
  ℕ, ◌+◌, ◌^◌, ◌<◌, ◌≡◌, refl, arith, Bool, ◌==◌, List, [], ◌∷◌, ◌++◌, Option, none, some, length,
  u32, length-append, true, false, sym, if◌then◌else◌, ◌∙◌, ap,
}
use lios.Io.Format.{Arg, directive, emit, printf_from, printf}

add_lengths :
    (out rest : List ℕ) (len : ℕ)
    → u32 (u32 (len + length out) + length rest) ≡ u32 (len + length (out ++ rest))
add_lengths out rest len = rw (length-append out rest) (omega arith)

-- One step of the loop: what is emitted, in front of a rest whose length is counted right.
emit-length :
    (out : List ℕ) (r : Option (List ℕ × ℕ)) (len : ℕ) (text : List ℕ) (n : ℕ)
    → ((rest : List ℕ) (m : ℕ)
        → r ≡ some (rest, m)
        → m ≡ u32 (u32 (len + length out) + length rest))
    → emit out r ≡ some (text, n)
    → n ≡ u32 (len + length text)
emit-length out none len text n ih e = cc
emit-length out (some (rest, m)) len text n ih e =
    let same : m ≡ n = cc in
    let joined : out ++ rest ≡ text = cc in
    sym same ∙ ih rest m refl ∙ add_lengths out rest len ∙ ap (λ t. u32 (len + length t)) joined

printf_from-length :
    (format : List ℕ) (args : List Arg) (len : ℕ) (text : List ℕ) (n : ℕ)
    → len < 2 ^ 32
    → printf_from format args len ≡ some (text, n)
    → n ≡ u32 (len + length text)
unfolding printf_from
printf_from-length [] args len text n h e = ground arith
printf_from-length (f ∷ []) args len text n h e = ground arith
printf_from-length (f ∷ (d ∷ format)) args len text n h e =
    step (f == b'%') (directive d args)
      (λ k args' rest m. printf_from-length format args' (u32 (len + k)) rest m (omega arith))
      (λ rest m. printf_from-length (d ∷ format) args (u32 (len + 1)) rest m (omega arith)) e
  where
    step :
        (b : Bool) (dir : Option (List ℕ × List Arg))
        → ((k : ℕ) (args' : List Arg) (rest : List ℕ) (m : ℕ)
            → printf_from format args' (u32 (len + k)) ≡ some (rest, m)
            → m ≡ u32 (u32 (len + k) + length rest))
        → ((rest : List ℕ) (m : ℕ)
            → printf_from (d ∷ format) args (u32 (len + 1)) ≡ some (rest, m)
            → m ≡ u32 (u32 (len + 1) + length rest))
        → (let plain = emit (f ∷ []) (printf_from (d ∷ format) args (u32 (len + 1))) in
            let special : Option (List ℕ × ℕ) = elim dir [
              | none ↦ none
              | some (out, rest) ↦ emit out (printf_from format rest (u32 (len + length out)))
            ] in
            if b then special else plain)
          ≡ some (text, n)
        → n ≡ u32 (len + length text)
    step true none ih ih' e = cc
    step true (some (out, rest)) ih ih' e = emit-length out _ len text n (ih (length out) rest) e
    step false dir ih ih' e = emit-length (f ∷ []) _ len text n ih' e

-- When `printf` is defined on its arguments, it returns the number of characters that it printed,
-- modulo 2 ^ 32.
pub printf-length :
    (format : List ℕ) (args : List Arg) (text : List ℕ) (n : ℕ)
    → printf format args ≡ some (text, n)
    → n ≡ u32 (length text)
unfolding printf
printf-length format args text n e =
    printf_from-length format args 0 text n (omega arith) e ∙ omega arith
