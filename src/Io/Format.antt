-- ===== src/Io/Format.antt =====
-- `printf` of src/io/output.c. Output is the list of characters sent to the destination, and a
-- format string is its bytes without the terminator. `none` stands for what C leaves undefined: a
-- missing or ill-typed argument, and a format that ends in a single `%`, behind which `format += 2`
-- steps over the terminator. The running length is a `u32`.
pub mod Digits
pub mod Length
use lios.Prelude.{
  ℕ, zero, suc, ◌+◌, ◌-◌, ◌*◌, ◌/◌, ◌%◌, ◌^◌, Bool, true, false, leb, ◌==◌, if◌then◌else◌, List, [],
  ◌∷◌, ◌++◌, Option, none, some, length, get_or, u32,
}

abbrev pub powers_10 : List ℕ
powers_10 =
    1 ∷ 10 ∷ 100 ∷ 1000 ∷ 10000 ∷ 100000 ∷ 1000000 ∷ 10000000 ∷ 100000000 ∷ 1000000000 ∷ 10000000000
    ∷ 100000000000 ∷ 1000000000000 ∷ 10000000000000 ∷ 100000000000000 ∷ 1000000000000000
    ∷ 10000000000000000 ∷ 100000000000000000 ∷ 1000000000000000000 ∷ 10000000000000000000 ∷ []

abbrev pub powers_16 : List ℕ
powers_16 =
    0x1 ∷ 0x10 ∷ 0x100 ∷ 0x1000 ∷ 0x10000 ∷ 0x100000 ∷ 0x1000000 ∷ 0x10000000 ∷ 0x100000000
    ∷ 0x1000000000 ∷ 0x10000000000 ∷ 0x100000000000 ∷ 0x1000000000000 ∷ 0x10000000000000
    ∷ 0x100000000000000 ∷ 0x1000000000000000 ∷ []

-- `divide + '0'`
unfoldable pub dec_char : ℕ → ℕ
dec_char divide = divide + b'0'

-- `divide + (divide <= 9 ? '0' : ('A' - 10))`
unfoldable pub hex_char : ℕ → ℕ
hex_char divide = divide + (if leb divide 9 then b'0' else b'A' - 10)

-- The loop over the powers, from index `i - 1` down to 0, as both bases have it.
unfoldable pub digit_loop : List ℕ → (ℕ → ℕ) → (i num : ℕ) → Bool → List ℕ
digit_loop powers char zero num has_printed = []
digit_loop powers char (suc i) num has_printed =
    let power = get_or powers i 0 in
    let divide = num / power in
    let shown = char divide ∷ digit_loop powers char i (num % power) true in
    let zeros = b'0' ∷ digit_loop powers char i num true in
    let skipped = digit_loop powers char i num false in
    if divide == 0 then (if has_printed then zeros else skipped) else shown

unfoldable pub print_dec : ℕ → List ℕ
print_dec num = if num == 0 then b'0' ∷ [] else digit_loop powers_10 dec_char 20 num false

unfoldable pub print_hex : ℕ → List ℕ
print_hex num = if num == 0 then b'0' ∷ [] else digit_loop powers_16 hex_char 16 num false

-- A variadic argument: a 64-bit integer, a character, or a string.
pub data Arg : Type 0 where
  int : ℕ → Arg
  char : ℕ → Arg
  str : List ℕ → Arg

-- What a directive prints, and the arguments that are left.
unfoldable pub directive : ℕ → List Arg → Option (List ℕ × List Arg)
directive d args =
    if d == b'%'
    then some (b'%' ∷ [], args)
    else (if d == b'u'
        then elim args [ int num ∷ rest ↦ some (print_dec num, rest) | _ ↦ none ]
        else (if d == b'x'
            then elim args [ int num ∷ rest ↦ some (print_hex num, rest) | _ ↦ none ]
            else (if d == b'c'
                then elim args [ char c ∷ rest ↦ some (c ∷ [], rest) | _ ↦ none ]
                else (if d == b's'
                    then elim args [ str text ∷ rest ↦ some (text, rest) | _ ↦ none ]
                    else some ([], args)))))

-- The characters printed, in front of what the rest of the format prints, and the new length.
abbrev pub emit : List ℕ → Option (List ℕ × ℕ) → Option (List ℕ × ℕ)
emit out none = none
emit out (some (rest, len)) = some (out ++ rest, len)

unfoldable pub printf_from : List ℕ → List Arg → (len : ℕ) → Option (List ℕ × ℕ)
printf_from [] args len = some ([], len)
printf_from (f ∷ []) args len = if f == b'%' then none else some (f ∷ [], u32 (len + 1))
printf_from (f ∷ (d ∷ format)) args len =
    let plain = emit (f ∷ []) (printf_from (d ∷ format) args (u32 (len + 1))) in
    let special : Option (List ℕ × ℕ) = elim (directive d args) [
      | none ↦ none
      | some (out, rest) ↦ emit out (printf_from format rest (u32 (len + length out)))
    ] in
    if f == b'%' then special else plain

-- The characters and the returned length.
unfoldable pub printf : List ℕ → List Arg → Option (List ℕ × ℕ)
printf format args = printf_from format args 0
