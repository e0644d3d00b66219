-- ===== src/Io/Format/Digits.antt =====
-- The numbers that `printf` of src/io/output.c prints, read back.
use lios.Prelude.{
  ℕ, zero, suc, ◌+◌, ◌-◌, ◌*◌, ◌/◌, ◌%◌, ◌^◌, ◌≤◌, ◌<◌, ◌≡◌, refl, arith, true, false, leb, ◌==◌,
  if◌then◌else◌, List, [], ◌∷◌, get_or, ==_iff, Bool-cases, inl, inr, ◌∙◌, ap,
}
use lios.Io.Format.{powers_16, hex_char, digit_loop, print_hex}
use lios.Util.KMath.Rounding.{div_facts}
use native.Mathlib.Nat.{pow-suc, pow-zero}

-- The value of a character as a digit, decimal or upper case hexadecimal.
abbrev pub digit : ℕ → ℕ
digit c = if leb c b'9' then c - b'0' else c + 10 - b'A'

-- The number that a text of digits stands for, with what was read before it.
pub parse : (base acc : ℕ) → List ℕ → ℕ
parse base acc [] = acc
parse base acc (c ∷ cs) = parse base (acc * base + digit c) cs

-- The powers of a base from a number on.
multiples : (base from count : ℕ) → List ℕ
multiples base from zero = []
multiples base from (suc n) = from ∷ multiples base (from * base) n

multiples-power :
    (base from count i : ℕ) → i < count → get_or (multiples base from count) i 0 ≡ from * base ^ i
unfolding multiples
multiples-power base from zero i h = elim h [ ]
multiples-power base from (suc n) zero h = rw (pow-zero base) (omega arith)
multiples-power base from (suc n) (suc i) h =
    multiples-power base (from * base) n i (omega arith) ∙ grind (arith, pow-suc base i)

table_16 : powers_16 ≡ multiples 16 1 16
unfolding multiples
table_16 = refl

-- A table of the powers of a base, and characters that read back as their digits.
record IsBase (base count : ℕ) (powers : List ℕ) (char : ℕ → ℕ) : Type 0 where
  two_le : 2 ≤ base
  power : (i : ℕ) → i < count → get_or powers i 0 ≡ base ^ i
  digit_char : (d : ℕ) → d < base → digit (char d) ≡ d

module _ {base count : ℕ} {powers : List ℕ} {char : ℕ → ℕ} (b : IsBase base count powers char) where
  pow_pos : (i : ℕ) → 0 < base ^ i
  pow_pos zero = omega (arith, pow-zero base)
  pow_pos (suc i) = grind (arith, pow-suc, b.two_le, pow_pos i)

  regroup :
      (acc d r i : ℕ) → (acc * base + d) * base ^ i + r ≡ acc * base ^ suc i + (d * base ^ i + r)
  regroup acc d r i = omega (arith, ap (λ (t : ℕ). acc * t) (pow-suc base i))

  divide-lt : (i num : ℕ) → num < base ^ suc i → num / base ^ i < base
  divide-lt i num h = grind (arith, pow-suc base i, div_facts num (base ^ i) (pow_pos i))

  rest-small : (i num : ℕ) → num / base ^ i ≡ 0 → num < base ^ i
  rest-small i num h = grind (arith, div_facts num (base ^ i) (pow_pos i))

  divided : (i num : ℕ) → num / base ^ i * base ^ i + num % base ^ i ≡ num
  divided i num = omega (arith, div_facts num (base ^ i) (pow_pos i))

  -- Once a digit has been printed, each further power gives one digit.
  parse-digit_loop-true :
      (i num acc : ℕ)
      → i ≤ count
      → num < base ^ i
      → parse base acc (digit_loop powers char i num true) ≡ acc * base ^ i + num
  unfolding parse digit_loop
  parse-digit_loop-true zero num acc h k = ground (arith, pow-zero base)
  parse-digit_loop-true (suc i) num acc h k =
      rw (b.power i h) (elim (Bool-cases (num / base ^ i == 0)) [
        | inl small ↦ rw small (
            parse-digit_loop-true i num (acc * base + 0) (omega arith)
              (rest-small i num ((==_iff _ _).0 small))
            ∙ regroup acc 0 num i
            ∙ ap (λ t. acc * base ^ suc i + t) (omega arith))
        | inr big ↦ rw big (
            ap (λ t. parse base (acc * base + t) (digit_loop powers char i (num % base ^ i) true))
              (b.digit_char (num / base ^ i) (divide-lt i num k))
            ∙ parse-digit_loop-true i (num % base ^ i) (acc * base + num / base ^ i) (omega arith)
                (omega (arith, div_facts num (base ^ i) (pow_pos i)))
            ∙ regroup acc (num / base ^ i) (num % base ^ i) i
            ∙ ap (λ t. acc * base ^ suc i + t) (divided i num))
      ])

  parse-digit_loop-false :
      (i num : ℕ)
      → i ≤ count
      → num < base ^ i
      → parse base 0 (digit_loop powers char i num false) ≡ num
  unfolding parse digit_loop
  parse-digit_loop-false zero num h k = omega (arith, pow-zero base)
  parse-digit_loop-false (suc i) num h k =
      rw (b.power i h) (elim (Bool-cases (num / base ^ i == 0)) [
        | inl small ↦
            rw small
              (parse-digit_loop-false i num (omega arith) (rest-small i num ((==_iff _ _).0 small)))
        | inr big ↦ rw big (
            ap (λ t. parse base (0 * base + t) (digit_loop powers char i (num % base ^ i) true))
              (b.digit_char (num / base ^ i) (divide-lt i num k))
            ∙ parse-digit_loop-true i (num % base ^ i) (0 * base + num / base ^ i) (omega arith)
                (omega (arith, div_facts num (base ^ i) (pow_pos i)))
            ∙ omega (arith, divided i num))
      ])

  -- The first character printed is no zero.
  leading :
      (i num : ℕ)
      → i ≤ count
      → num < base ^ i
      → 0 < num
      → (d : ℕ) × (r : List ℕ) × (digit_loop powers char i num false ≡ char d ∷ r)
        × (0 < d)
        × (d < base)
  unfolding digit_loop
  leading zero num h k pos = absurd (omega (arith, pow-zero base))
  leading (suc i) num h k pos = rw (b.power i h) (elim (Bool-cases (num / base ^ i == 0)) [
    | inl small ↦
        rw small (leading i num (omega arith) (rest-small i num ((==_iff _ _).0 small)) pos)
    | inr big ↦ rw big (
      num / base ^ i,
      digit_loop powers char i (num % base ^ i) true,
      refl,
      ground arith,
      divide-lt i num k,
    )
  ])

hexadecimal : IsBase 16 16 powers_16 hex_char
hexadecimal = record {
  two_le = omega arith;
  power = λ i h.
      ap (λ (l : List ℕ). get_or l i 0) table_16 ∙ (multiples-power 16 1 16 i h ∙ omega arith);
  digit_char = unfold hex_char in λ d h. ground arith;
}

-- What `%x` prints for a 64-bit number reads back as the number in base sixteen, and begins with a
-- zero only for the number zero.
pub parse-print_hex :
    (num : ℕ)
    → num < 2 ^ 64
    → (parse 16 0 (print_hex num) ≡ num)
      × (0 < num → (d : ℕ) × (r : List ℕ) × (print_hex num ≡ hex_char d ∷ r) × (0 < d) × (d < 16))
unfolding print_hex
parse-print_hex num h = elim (Bool-cases (num == 0)) [
  | inl is_zero ↦ rw is_zero (unfold parse in ground arith, λ k. absurd (ground arith))
  | inr pos ↦ rw pos (
    parse-digit_loop-false hexadecimal 16 num (omega arith) (omega arith),
    leading hexadecimal 16 num (omega arith) (omega arith),
  )
]
