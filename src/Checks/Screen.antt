-- ===== src/Checks/Screen.antt =====
-- Runs of the model of src/io/vga.c on concrete inputs.
use lios.Prelude.{ℕ, ◌+◌, ◌/◌, ◌<◌, ◌≡◌, refl, arith, true, some}
use lios.Io.Vga.{Console, IsValid, get_pos, vga_newline}
use lios.Io.Vga.Drawing.{drawn_putchar}
use lios.Io.Vga.Shown.{Cells, draw_cell, Shows, drawn_putchar-Shows}
use lios.Io.Vga.Scroll.{vga_newline-scrolls}

-- 80 by 25 characters, with the cursor in the last row.
abbrev screen : Console
screen = record { width = 640; height = 400; cur_row = 24; cur_col = 3; chars = λ p. p }

screen-IsValid : IsValid screen
screen-IsValid = record {
  row = omega arith;
  col = omega arith;
  narrow = omega arith;
  low = omega arith;
}

abbrev shown : Cells
shown x = some x

-- A line end in the last row, when the screen shows every character.
drawn_putchar-Shows_example :
    IsValid (drawn_putchar (draw_cell 640) true 10 screen shown).0
    × Shows
        (drawn_putchar (draw_cell 640) true 10 screen shown).0.chars
        (drawn_putchar (draw_cell 640) true 10 screen shown).1
drawn_putchar-Shows_example =
    drawn_putchar-Shows 10 screen shown (omega arith) screen-IsValid (λ x ne f. refl)

vga_newline-scrolls_example :
    ((vga_newline screen).cur_row ≡ 24)
    × ((vga_newline screen).cur_col ≡ 0)
    × ((row col : ℕ)
        → row < 24
        → col < screen.width / 8
        → (vga_newline screen).chars (get_pos row col screen.width)
          ≡ screen.chars (get_pos (row + 1) col screen.width))
    × ((col : ℕ)
        → col < screen.width / 8
        → (vga_newline screen).chars (get_pos 24 col screen.width) ≡ b' ')
vga_newline-scrolls_example = vga_newline-scrolls screen 24 screen-IsValid refl refl (omega arith)
