-- ===== src/Io/Vga/Drawing.antt =====
-- The drawing that `vga_newline` and `vga_putchar` of src/io/vga.c cause, with `draw_char` as a parameter:
-- what is on the screen is changed by it for a row, a column and a character, not inverted.
use lios.Prelude.{
  ℕ, zero, suc, ◌+◌, ◌/◌, ◌≡◌, ◌∙◌, refl, ap, Bool, Bool-cases, true, not, ltb, leb, ◌==◌,
  if◌then◌else◌, inl, inr, u32, sub_u32,
}
use lios.Io.Vga.{
  Console, put_at, get_pos, copy_line, scroll, blank_line, vga_newline, step_back, vga_putchar,
}

module _ {F : Type 0} (draw_char : (row col c : ℕ) → F → F) where
  -- A cell that takes a NUL is not drawn again.
  unfoldable pub drawn_line : (rounds i j width : ℕ) → (ℕ → ℕ) → F → (ℕ → ℕ) × F
  drawn_line zero i j width chars f = (chars, f)
  drawn_line (suc n) i j width chars f =
      let c = chars (get_pos (i + 1) j width) in
      drawn_line n i (j + 1) width (put_at chars (get_pos i j width) c)
        (if not (c == 0) then draw_char i j c f else f)

  unfoldable pub drawn_scroll : (rounds i width : ℕ) → (ℕ → ℕ) → F → (ℕ → ℕ) × F
  drawn_scroll zero i width chars f = (chars, f)
  drawn_scroll (suc n) i width chars f =
      let line = drawn_line (width / 8) i 0 width chars f in
      drawn_scroll n (i + 1) width line.0 line.1

  unfoldable pub drawn_blank : (rounds row j width : ℕ) → (ℕ → ℕ) → F → (ℕ → ℕ) × F
  drawn_blank zero row j width chars f = (chars, f)
  drawn_blank (suc n) row j width chars f =
      drawn_blank n row (j + 1) width (put_at chars (get_pos row j width) b' ')
        (draw_char row j b' ' f)

  unfoldable pub drawn_newline : Console → F → Console × F
  drawn_newline s f =
      let row = u32 (s.cur_row + 1) in
      let last = sub_u32 row 1 in
      let moved = drawn_scroll (sub_u32 (s.height / 16) 1) 0 s.width s.chars f in
      let blank = drawn_blank (s.width / 8) last 0 s.width moved.0 moved.1 in
      if ltb row (s.height / 16)
      then (record s { cur_col = 0; cur_row = row }, f)
      else (record s { cur_col = 0; cur_row = last; chars = blank.0 }, blank.1)

  -- Before `vga_init` nothing happens.
  unfoldable pub drawn_putchar : (initialized : Bool) → ℕ → Console → F → Console × F
  drawn_putchar initialized c s f =
      let col = u32 (s.cur_col + 1) in
      let written = record s {
        chars = put_at s.chars (get_pos s.cur_row s.cur_col s.width) c;
        cur_col = col;
      } in
      let drawn = draw_char s.cur_row s.cur_col c f in
      if not initialized
      then (s, f)
      else (if c == 10
          then drawn_newline s f
          else (if c == 8
              then (step_back s, f)
              else (if leb (s.width / 8) col
                  then drawn_newline written drawn
                  else (written, drawn))))

  drawn_line-copy_line :
      (n i j width : ℕ) (chars : ℕ → ℕ) (f : F)
      → (drawn_line n i j width chars f).0 ≡ copy_line n i j width chars
  unfolding copy_line drawn_line
  drawn_line-copy_line zero i j width chars f = refl
  drawn_line-copy_line (suc n) i j width chars f =
      drawn_line-copy_line n i (j + 1) width
        (put_at chars (get_pos i j width) (chars (get_pos (i + 1) j width)))
        (if not (chars (get_pos (i + 1) j width) == 0)
          then draw_char i j (chars (get_pos (i + 1) j width)) f
          else f)

  drawn_scroll-scroll :
      (n i width : ℕ) (chars : ℕ → ℕ) (f : F)
      → (drawn_scroll n i width chars f).0 ≡ scroll n i width chars
  unfolding scroll drawn_scroll
  drawn_scroll-scroll zero i width chars f = refl
  drawn_scroll-scroll (suc n) i width chars f =
      let line = drawn_line (width / 8) i 0 width chars f in
      drawn_scroll-scroll n (i + 1) width line.0 line.1
      ∙ ap (scroll n (i + 1) width) (drawn_line-copy_line (width / 8) i 0 width chars f)

  drawn_blank-blank_line :
      (n row j width : ℕ) (chars : ℕ → ℕ) (f : F)
      → (drawn_blank n row j width chars f).0 ≡ blank_line n row j width chars
  unfolding blank_line drawn_blank
  drawn_blank-blank_line zero row j width chars f = refl
  drawn_blank-blank_line (suc n) row j width chars f =
      drawn_blank-blank_line n row (j + 1) width (put_at chars (get_pos row j width) b' ')
        (draw_char row j b' ' f)

  drawn_newline-vga_newline : (s : Console) (f : F) → (drawn_newline s f).0 ≡ vga_newline s
  unfolding vga_newline drawn_newline
  drawn_newline-vga_newline s f =
      let last = sub_u32 (u32 (s.cur_row + 1)) 1 in
      let rows = sub_u32 (s.height / 16) 1 in
      let moved = drawn_scroll rows 0 s.width s.chars f in
      let same =
        drawn_blank-blank_line (s.width / 8) last 0 s.width moved.0 moved.1
        ∙ ap (blank_line (s.width / 8) last 0 s.width)
            (drawn_scroll-scroll rows 0 s.width s.chars f) in
      elim (Bool-cases (ltb (u32 (s.cur_row + 1)) (s.height / 16))) [
        | inl room ↦ rw room refl
        | inr full ↦ rw full (ap (λ t. record s { cur_col = 0; cur_row = last; chars = t }) same)
      ]

  -- Whatever is drawn, the cursor and the characters of an initialised console change as `vga_putchar` says.
  pub drawn_putchar-vga_putchar :
      (c : ℕ) (s : Console) (f : F) → (drawn_putchar true c s f).0 ≡ vga_putchar c s
  unfolding vga_putchar drawn_putchar
  drawn_putchar-vga_putchar c s f = elim (Bool-cases (c == 10)) [
    | inl newline ↦ rw newline (drawn_newline-vga_newline s f)
    | inr other ↦ elim (Bool-cases (c == 8)) [
      | inl backspace ↦ rw (other, backspace) refl
      | inr char ↦ elim (Bool-cases (leb (s.width / 8) (u32 (s.cur_col + 1)))) [
        | inl wrap ↦ rw (other, char, wrap) (drawn_newline-vga_newline _ _)
        | inr stay ↦ rw (other, char, stay) refl
      ]
    ]
  ]
