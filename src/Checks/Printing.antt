-- ===== src/Checks/Printing.antt =====
-- Runs of the models of src/io/output.c on concrete inputs.
use lios.Prelude.{ℕ, ◌≡◌, refl, List, [], ◌∷◌, some}
use lios.Io.Format.{int, printf, printf_from, directive, digit_loop, print_dec, dec_char}

-- "n=%u%%" and the argument 42.
abbrev format : List ℕ
format = b'n' ∷ b'=' ∷ b'%' ∷ b'u' ∷ b'%' ∷ b'%' ∷ []

abbrev text : List ℕ
text = b'n' ∷ b'=' ∷ b'4' ∷ b'2' ∷ b'%' ∷ []

printf-text : printf format (int 42 ∷ []) ≡ some (text, 5)
unfolding printf printf_from directive print_dec digit_loop dec_char
printf-text = refl
