-- ===== src/Io/Vga/Shown.antt =====
-- What the screen of src/io/vga.c shows in each cell: the character that was drawn there last.
use lios.Prelude.{
  ℕ, zero, suc, ◌+◌, ◌/◌, ◌≡◌, ◌≢◌, ◌<◌, sym, subst, arith, Bool-cases, true, not, ltb, leb, ◌==◌,
  if◌then◌else◌, inl, inr, u32, sub_u32, Option, none, some,
}
use lios.Io.Vga.{Console, put_at, get_pos, step_back, IsValid}
use lios.Io.Vga.Cursor.{vga_putchar-IsValid}
use lios.Io.Vga.Drawing.{
  drawn_line, drawn_scroll, drawn_blank, drawn_newline, drawn_putchar, drawn_putchar-vga_putchar,
}

-- The cells, each with the character whose glyph was drawn there last; `none` when it was no glyph of the
-- font, as for the bytes from 128 on, which are negative as `char`.
abbrev pub Cells : Type 0
Cells = ℕ → Option ℕ

abbrev pub draw_cell : (width row col c : ℕ) → Cells → Cells
draw_cell width row col c shown x =
    if x == get_pos row col width then (if ltb c 128 then some c else none) else shown x

-- A cell whose character is one of the font, and not NUL, shows it.
abbrev pub Shows : (chars : ℕ → ℕ) (shown : Cells) → Type 0
Shows chars shown = (x : ℕ) → chars x ≢ 0 → chars x < 128 → shown x ≡ some (chars x)

-- A character that is stored and drawn.
Shows-put_at :
    (chars : ℕ → ℕ) (shown : Cells) (width row col c : ℕ)
    → Shows chars shown
    → Shows (put_at chars (get_pos row col width) c) (draw_cell width row col c shown)
Shows-put_at chars shown width row col c h x = ground (arith, h x)

-- A NUL need not be drawn.
Shows-copied :
    (chars : ℕ → ℕ) (shown : Cells) (width row col c : ℕ)
    → Shows chars shown
    → Shows
        (put_at chars (get_pos row col width) c)
        (if not (c == 0) then draw_cell width row col c shown else shown)
Shows-copied chars shown width row col c h x = ground (arith, h x)

drawn_line-Shows :
    (n i j width : ℕ) (chars : ℕ → ℕ) (shown : Cells)
    → Shows chars shown
    → Shows
        (drawn_line (draw_cell width) n i j width chars shown).0
        (drawn_line (draw_cell width) n i j width chars shown).1
unfolding drawn_line
drawn_line-Shows zero i j width chars shown h = h
drawn_line-Shows (suc n) i j width chars shown h =
    let p = get_pos i j width in
    let c = chars (get_pos (i + 1) j width) in
    drawn_line-Shows n i (j + 1) width (put_at chars p c)
      (if not (c == 0) then draw_cell width i j c shown else shown)
      (Shows-copied chars shown width i j c h)

drawn_scroll-Shows :
    (n i width : ℕ) (chars : ℕ → ℕ) (shown : Cells)
    → Shows chars shown
    → Shows
        (drawn_scroll (draw_cell width) n i width chars shown).0
        (drawn_scroll (draw_cell width) n i width chars shown).1
unfolding drawn_scroll
drawn_scroll-Shows zero i width chars shown h = h
drawn_scroll-Shows (suc n) i width chars shown h =
    let line = drawn_line (draw_cell width) (width / 8) i 0 width chars shown in
    drawn_scroll-Shows n (i + 1) width line.0 line.1
      (drawn_line-Shows (width / 8) i 0 width chars shown h)

drawn_blank-Shows :
    (n row j width : ℕ) (chars : ℕ → ℕ) (shown : Cells)
    → Shows chars shown
    → Shows
        (drawn_blank (draw_cell width) n row j width chars shown).0
        (drawn_blank (draw_cell width) n row j width chars shown).1
unfolding drawn_blank
drawn_blank-Shows zero row j width chars shown h = h
drawn_blank-Shows (suc n) row j width chars shown h =
    let p = get_pos row j width in
    drawn_blank-Shows n row (j + 1) width (put_at chars p b' ') (draw_cell width row j b' ' shown)
      (Shows-put_at chars shown width row j b' ' h)

drawn_newline-Shows :
    (s : Console) (shown : Cells)
    → Shows s.chars shown
    → Shows
        (drawn_newline (draw_cell s.width) s shown).0.chars
        (drawn_newline (draw_cell s.width) s shown).1
unfolding drawn_newline
drawn_newline-Shows s shown h =
    let last = sub_u32 (u32 (s.cur_row + 1)) 1 in
    let rows = sub_u32 (s.height / 16) 1 in
    let moved = drawn_scroll (draw_cell s.width) rows 0 s.width s.chars shown in
    elim (Bool-cases (ltb (u32 (s.cur_row + 1)) (s.height / 16))) [
      | inl room ↦ rw room h
      | inr full ↦ rw full (
          drawn_blank-Shows (s.width / 8) last 0 s.width moved.0 moved.1
            (drawn_scroll-Shows rows 0 s.width s.chars shown h))
    ]

step_back-chars : (s : Console) → (step_back s).chars ≡ s.chars
unfolding step_back
step_back-chars s = ground arith

drawn_putchar-cells :
    (c : ℕ) (s : Console) (shown : Cells)
    → Shows s.chars shown
    → Shows
        (drawn_putchar (draw_cell s.width) true c s shown).0.chars
        (drawn_putchar (draw_cell s.width) true c s shown).1
unfolding drawn_putchar
drawn_putchar-cells c s shown h =
    let p = get_pos s.cur_row s.cur_col s.width in
    let written : Console = record s {
      chars = put_at s.chars p c;
      cur_col = u32 (s.cur_col + 1);
    } in
    let put = Shows-put_at s.chars shown s.width s.cur_row s.cur_col c h in
    elim (Bool-cases (c == 10)) [
      | inl newline ↦ rw newline (drawn_newline-Shows s shown h)
      | inr other ↦ elim (Bool-cases (c == 8)) [
        | inl backspace ↦
            rw (other, backspace) (subst (λ t. Shows t shown) (sym (step_back-chars s)) h)
        | inr char ↦ elim (Bool-cases (leb (s.width / 8) (u32 (s.cur_col + 1)))) [
          | inl wrap ↦
              rw (other, char, wrap)
                (drawn_newline-Shows written (draw_cell s.width s.cur_row s.cur_col c shown) put)
          | inr stay ↦ rw (other, char, stay) put
        ]
      ]
    ]

-- Whatever byte is put on an initialised console with its cursor on the screen: the cursor stays on the
-- screen, and when every cell whose character is below 128 and not NUL showed it before, every such cell
-- does so after, also when the lines have moved up.
pub drawn_putchar-Shows :
    (c : ℕ) (s : Console) (shown : Cells)
    → c < 256
    → IsValid s
    → Shows s.chars shown
    → IsValid (drawn_putchar (draw_cell s.width) true c s shown).0
      × Shows
          (drawn_putchar (draw_cell s.width) true c s shown).0.chars
          (drawn_putchar (draw_cell s.width) true c s shown).1
drawn_putchar-Shows c s shown byte v h = (
  subst IsValid (sym (drawn_putchar-vga_putchar (draw_cell s.width) c s shown))
      (vga_putchar-IsValid c s v),
  drawn_putchar-cells c s shown h,
)
