-- ===== src/Io/Vga/Pixels.antt =====
-- The pixels of src/io/vga.c. The frame buffer maps an offset to a byte, four for each pixel. The font,
-- whose table is generated, is a parameter: two words for each character, of eight rows of eight pixels
-- each, with the words in front of the table as `before`. Heap and paging are the parameter `Screens`; `none` is a panic.
use lios.Prelude.{
  ℕ, zero, suc, ◌+◌, ◌-◌, ◌*◌, ◌/◌, ◌%◌, Bool, not, ltb, ◌==◌, if◌then◌else◌, Option, none, some,
  u32, u64, ◌>>>◌,
}
use lios.Util.KMath.{ceil_u32_div}
use lios.Mem.Page.{page_size, ◌>>=◌}
use lios.Io.Vga.{Console, put_at, get_pos}

abbrev Frame : Type 0
Frame = ℕ → ℕ

unfoldable vga_putpixel : (pitch x y red green blue : ℕ) → Frame → Frame
vga_putpixel pitch x y red green blue m =
    let location = u32 (y * pitch + x * 4) in
    put_at (put_at (put_at m location blue) (u32 (location + 1)) green) (u32 (location + 2)) red

-- `(inverted != QUERY_BIT(a, n)) ? 183 : 0`
unfoldable color_of : (inverted : Bool) (a n : ℕ) → ℕ
color_of inverted a n =
    let bit = not ((a >>> n) % 2 == 0) in
    if inverted then (if bit then 0 else 183) else (if bit then 183 else 0)

-- `VGA_FONT[c * 2]` and `VGA_FONT[c * 2 + 1]` for a byte `c` that is read as a signed `char`: from 128 on
-- it is negative, and the words lie in front of the table. `before k` is the word `k` places in front.
unfoldable glyph : (font before : ℕ → ℕ) → (c : ℕ) → ℕ × ℕ
glyph font before c =
    if ltb c 128
    then (font (c * 2), font (c * 2 + 1))
    else (before ((256 - c) * 2), before ((256 - c) * 2 - 1))

module _ (font before : ℕ → ℕ) (pitch : ℕ) where
  -- The inner loop over `j`: a pixel of the upper half and one of the lower half.
  unfoldable draw_row : (rounds i j x y a b : ℕ) → Bool → Frame → Frame
  draw_row zero i j x y a b inverted m = m
  draw_row (suc n) i j x y a b inverted m =
      let upper = color_of inverted a (i * 8 + j) in
      let lower = color_of inverted b (i * 8 + j) in
      let m₁ = vga_putpixel pitch (u32 (x + j)) (u32 (y + i)) upper upper upper m in
      draw_row n i (j + 1) x y a b inverted
        (vga_putpixel pitch (u32 (x + j)) (u32 (y + i + 8)) lower lower lower m₁)

  unfoldable draw_rows : (rounds i x y a b : ℕ) → Bool → Frame → Frame
  draw_rows zero i x y a b inverted m = m
  draw_rows (suc n) i x y a b inverted m =
      draw_rows n (i + 1) x y a b inverted (draw_row 8 i 0 x y a b inverted m)

  -- `c` is a byte.
  unfoldable draw_char : (row col c : ℕ) → Bool → Frame → Frame
  draw_char row col c inverted m =
      let words = glyph font before c in
      draw_rows 8 0 (u32 (col * 8)) (u32 (row * 16)) words.0 words.1 inverted m

  -- The new value of `flash`, and the character under the cursor drawn by it.
  unfoldable vga_toggle_flash : (flash : Bool) → Console → Frame → Bool × Frame
  vga_toggle_flash flash s m = (
    not flash,
    draw_char s.cur_row s.cur_col (s.chars (get_pos s.cur_row s.cur_col s.width)) (not flash) m,
  )

-- One column of pixels, and then all.
unfoldable clear_column : (rounds pitch i j : ℕ) → Frame → Frame
clear_column zero pitch i j m = m
clear_column (suc n) pitch i j m = clear_column n pitch i (j + 1) (vga_putpixel pitch i j 0 0 0 m)

unfoldable clear_columns : (rounds pitch height i : ℕ) → Frame → Frame
clear_columns zero pitch height i m = m
clear_columns (suc n) pitch height i m =
    clear_columns n pitch height (i + 1) (clear_column height pitch i 0 m)

unfoldable vga_clear : (pitch : ℕ) → Console → Frame → Console × Frame
vga_clear pitch s m =
    (record s { cur_row = 0; cur_col = 0 }, clear_columns s.width pitch s.height 0 m)

record Screens : Type 1 where
  State : Type 0
  vcalloc : ℕ → State → Option (ℕ × State)
  page_map : (virt phys : ℕ) → State → Option State

module _ (S : Screens) where
  open S use {State, vcalloc, page_map}

  unfoldable map_frame : (rounds i addr : ℕ) → State → Option State
  map_frame zero i addr s = some s
  map_frame (suc n) i addr s =
      page_map (0xFFFF800000000000 + u32 (i * page_size)) (u64 (addr + u32 (i * page_size))) s
      >>= map_frame n (i + 1) addr

  -- The console with its cursor at the top, and the block of its characters, which is cleared.
  unfoldable vga_init : (addr width height pitch : ℕ) → State → Option (Console × ℕ × State)
  vga_init addr width height pitch s =
      if addr == 0
      then none
      else (vcalloc (u32 (height / 16 * (width / 8))) s >>= λ p.
          map_frame (ceil_u32_div (u32 (pitch * height)) page_size) 0 addr p.1 >>= λ s'. some (
            record { width = width; height = height; cur_row = 0; cur_col = 0; chars = λ x. 0 },
            p.0,
            s',
          ))
