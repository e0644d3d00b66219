-- ===== src/Util/Hexdump/Width.antt =====
-- The width of the lines that src/util/hexdump.c prints.
use lios.Prelude.{
  ℕ, zero, suc, ◌+◌, ◌-◌, ◌*◌, ◌/◌, ◌%◌, ◌<◌, ◌≡◌, refl, arith, Bool, true, false, ◌&&◌, ◌==◌, ltb,
  if◌then◌else◌, List, [], ◌∷◌, ◌++◌, length, length-append, length-replicate, replicate,
  Bool-cases, inl, inr, ◌∙◌, ap,
}
use lios.Util.Const.{codes}
use lios.Io.Format.{print_hex, digit_loop}
use lios.Util.Hexdump.{
  print_byte, print_bytes, print_ascii, full_line, full_lines, last_bytes, chars_printed, last_line,
  dump_lines, margin,
}

-- Every byte from `n` down prints as three characters.
three_wide : ℕ → Bool
three_wide zero = true
three_wide (suc n) = length (print_byte n) == 3 && three_wide n

three_wide-256 : three_wide 256 ≡ true
unfolding three_wide print_byte print_hex digit_loop
three_wide-256 = refl

below_wide : (n b : ℕ) → three_wide n ≡ true → b < n → length (print_byte b) ≡ 3
unfolding three_wide
below_wide zero b e h = elim h [ ]
below_wide (suc n) b e h = ground (arith, below_wide n b)

module _ (src : ℕ → ℕ) (bytes : (x : ℕ) → src x < 256) where
  print_bytes-width : (n index : ℕ) → length (print_bytes n index src) ≡ 3 * n
  unfolding print_bytes
  print_bytes-width zero index = omega arith
  print_bytes-width (suc n) index = omega (
    arith,
    length-append (print_byte (src index)) (print_bytes n (index + 1) src),
    below_wide 256 (src index) three_wide-256 (bytes index),
    print_bytes-width n (index + 1),
  )

  print_ascii-width : (n index : ℕ) → length (print_ascii n index src) ≡ n
  unfolding print_ascii
  print_ascii-width zero index = refl
  print_ascii-width (suc n) index = omega (arith, print_ascii-width n (index + 1))

  full_line-width : (i : ℕ) → length (full_line true i src) ≡ 81
  unfolding full_line
  full_line-width i = omega (
    arith,
    length-append (print_bytes 8 (i * 16) src) (codes "  " ++ print_bytes 8 (i * 16 + 8) src),
    length-append
        (margin ++ (print_bytes 8 (i * 16) src ++ (codes "  " ++ print_bytes 8 (i * 16 + 8) src)))
        (codes " |" ++ (print_ascii 16 (i * 16) src ++ b'|' ∷ (10 ∷ []))),
    length-append (print_ascii 16 (i * 16) src) (b'|' ∷ (10 ∷ [])),
    print_bytes-width 8 (i * 16),
    print_bytes-width 8 (i * 16 + 8),
    print_ascii-width 16 (i * 16),
  )

  full_lines-width : (n i : ℕ) → length (full_lines n i true src) ≡ 81 * n
  unfolding full_lines
  full_lines-width zero i = omega arith
  full_lines-width (suc n) i = omega (
    arith,
    length-append (full_line true i src) (full_lines n (i + 1) true src),
    full_line-width i,
    full_lines-width n (i + 1),
  )

  last_bytes-width :
      (n i index : ℕ)
      → length (last_bytes n i index src) ≡ 3 * n + (if ltb i 8 && ltb 7 (i + n) then 2 else 0)
  unfolding last_bytes
  last_bytes-width zero i index = ground arith
  last_bytes-width (suc n) i index = ground (
    arith,
    length-append (print_byte (src index))
        ((if i == 7 then codes "  " else []) ++ last_bytes n (i + 1) (index + 1) src),
    length-append (if i == 7 then codes "  " else []) (last_bytes n (i + 1) (index + 1) src),
    below_wide 256 (src index) three_wide-256 (bytes index),
    last_bytes-width n (i + 1) (index + 1),
  )

  last_line-width : (len : ℕ) → 0 < len % 16 → length (last_line true len src) ≡ 81
  unfolding last_line chars_printed
  last_line-width len pos =
      let count = len % 16 in
      let start = len / 16 * 16 in
      let space : ℕ = b' ' in
      let end : List ℕ = b'|' ∷ (10 ∷ []) in
      let shown : List ℕ =
        b'|' ∷ (print_ascii count start src ++ (replicate (16 - count) space ++ end)) in
      let pad : List ℕ = replicate (51 - chars_printed count) space in
      ground (
        arith,
        length-append (margin ++ last_bytes count 0 start src) (pad ++ shown),
        length-append pad shown,
        length-append (print_ascii count start src) (replicate (16 - count) space ++ end),
        length-append (replicate (16 - count) space) end,
        length-replicate (51 - chars_printed count) space,
        length-replicate (16 - count) space,
        last_bytes-width count 0 start,
        print_ascii-width count start,
      )

-- Every line of a readable dump is 81 characters wide with its line end, also a last line of fewer than
-- sixteen bytes: a dump of `len` bytes has that many characters for each sixteen bytes, begun or whole.
pub dump_lines-width :
    (src : ℕ → ℕ) (len : ℕ)
    → ((x : ℕ) → src x < 256)
    → length (dump_lines true len src) ≡ 81 * ((len + 15) / 16)
unfolding dump_lines
dump_lines-width src len bytes = elim (Bool-cases (len % 16 == 0)) [
  | inl whole ↦ rw whole (full_lines-width src bytes (len / 16) 0 ∙ ap (λ n. 81 * n) (ground arith))
  | inr part ↦ rw part (
      omega (
        arith,
        length-append (full_lines (len / 16) 0 true src) (last_line true len src),
        full_lines-width src bytes (len / 16) 0,
        last_line-width src bytes len (ground arith),
        nonzero,
      ))
]
  where
    nonzero : (len % 16 == 0) ≡ false → 0 < len % 16
    nonzero h = ground arith
