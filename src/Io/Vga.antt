-- ===== src/Io/Vga.antt =====
-- The text console of src/io/vga.c: the cursor and the characters on the screen. `width` and `height`
-- count pixels; a character is 8 by 16 of them. Drawing has the calls of `draw_char`, Pixels what they set.
pub mod Cursor
pub mod Scroll
mod Pixels
pub mod Drawing
pub mod Shown
use lios.Prelude.{
  ℕ, zero, suc, ◌+◌, ◌-◌, ◌*◌, ◌/◌, ◌%◌, ◌^◌, ◌≤◌, ◌<◌, not, ltb, leb, ◌==◌, if◌then◌else◌, u32,
  sub_u32,
}

pub record Console : Type 0 where
  pub width : ℕ
  pub height : ℕ
  pub cur_row : ℕ
  pub cur_col : ℕ
  pub chars : ℕ → ℕ

abbrev pub put_at : (ℕ → ℕ) → ℕ → ℕ → ℕ → ℕ
put_at chars p c x = if x == p then c else chars x

unfoldable pub get_pos : (row col width : ℕ) → ℕ
get_pos row col width = u32 (row * (width / 8) + col)

-- `for (; j < pixel_width / 8; j++)` over a line that takes the characters of the next one
unfoldable pub copy_line : (rounds i j width : ℕ) → (ℕ → ℕ) → ℕ → ℕ
copy_line zero i j width chars = chars
copy_line (suc n) i j width chars =
    copy_line n i (j + 1) width (put_at chars (get_pos i j width) (chars (get_pos (i + 1) j width)))

unfoldable pub scroll : (rounds i width : ℕ) → (ℕ → ℕ) → ℕ → ℕ
scroll zero i width chars = chars
scroll (suc n) i width chars = scroll n (i + 1) width (copy_line (width / 8) i 0 width chars)

unfoldable pub blank_line : (rounds row j width : ℕ) → (ℕ → ℕ) → ℕ → ℕ
blank_line zero row j width chars = chars
blank_line (suc n) row j width chars =
    blank_line n row (j + 1) width (put_at chars (get_pos row j width) b' ')

pub vga_newline : Console → Console
vga_newline s =
    let row = u32 (s.cur_row + 1) in
    if ltb row (s.height / 16)
    then record s { cur_col = 0; cur_row = row }
    else (let last = sub_u32 row 1 in
        record s {
          cur_col = 0;
          cur_row = last;
          chars =
              blank_line (s.width / 8) last 0 s.width
                (scroll (sub_u32 (s.height / 16) 1) 0 s.width s.chars);
        })

-- The cursor after a backspace; the character under it stays.
pub step_back : Console → Console
step_back s =
    if not (s.cur_col == 0)
    then record s { cur_col = s.cur_col - 1 }
    else (if not (s.cur_row == 0)
        then record s { cur_col = sub_u32 (s.width / 8) 1; cur_row = s.cur_row - 1 }
        else s)

-- On a console that is initialised.
pub vga_putchar : ℕ → Console → Console
vga_putchar c s =
    let col = u32 (s.cur_col + 1) in
    let written = record s {
      chars = put_at s.chars (get_pos s.cur_row s.cur_col s.width) c;
      cur_col = col;
    } in
    if c == 10
    then vga_newline s
    else (if c == 8
        then step_back s
        else (if leb (s.width / 8) col then vga_newline written else written))

pub record IsValid (s : Console) : Type 0 where
  pub row : s.cur_row < s.height / 16
  pub col : s.cur_col < s.width / 8
  pub narrow : s.width < 2 ^ 32
  pub low : s.height < 2 ^ 32
