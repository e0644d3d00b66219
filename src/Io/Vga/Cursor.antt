-- ===== src/Io/Vga/Cursor.antt =====
-- The cursor of src/io/vga.c.
use lios.Prelude.{
  ℕ, ◌+◌, ◌-◌, ◌/◌, ◌^◌, ◌<◌, ◌≡◌, ◌≢◌, refl, arith, not, leb, ◌==◌, if◌then◌else◌, Bool, true,
  false, u32, sub_u32, ◌⊎◌,
}
use lios.Io.Vga.{Console, IsValid, put_at, get_pos, vga_newline, step_back, vga_putchar}

IsValid-if :
    (b : Bool) (x y : Console)
    → (b ≡ true → IsValid x)
    → (b ≡ false → IsValid y)
    → IsValid (if b then x else y)
IsValid-if true x y f g = f refl
IsValid-if false x y f g = g refl

-- A new line needs the cursor in a row of the screen only.
newline-IsValid :
    (s : Console)
    → s.cur_row < s.height / 16
    → 0 < s.width / 8
    → s.width < 2 ^ 32
    → s.height < 2 ^ 32
    → IsValid (vga_newline s)
unfolding vga_newline
newline-IsValid s a b w h =
    IsValid-if _ _ _ (λ below. record { row = ground arith; col = b; narrow = w; low = h })
      (λ last. record { row = ground arith; col = b; narrow = w; low = h })

step_back-IsValid : (s : Console) → IsValid s → IsValid (step_back s)
unfolding step_back
step_back-IsValid s v =
    let a = v.row in
    let b = v.col in
    let w = v.narrow in
    let h = v.low in
    let left = record s { cur_col = s.cur_col - 1 } in
    let up = record s { cur_col = sub_u32 (s.width / 8) 1; cur_row = s.cur_row - 1 } in
    IsValid-if (not (s.cur_col == 0)) left _
      (λ inside. record { row = a; col = ground arith; narrow = w; low = h })
      (λ first.
        IsValid-if (not (s.cur_row == 0)) up s
          (λ below. record { row = ground arith; col = ground arith; narrow = w; low = h })
          (λ top. v))

-- Whatever character is put, a valid console stays valid: the cursor is on the screen.
pub vga_putchar-IsValid : (c : ℕ) (s : Console) → IsValid s → IsValid (vga_putchar c s)
unfolding vga_putchar
vga_putchar-IsValid c s v =
    let a = v.row in
    let b = v.col in
    let w = v.narrow in
    let h = v.low in
    let written = record s {
      chars = put_at s.chars (get_pos s.cur_row s.cur_col s.width) c;
      cur_col = u32 (s.cur_col + 1);
    } in
    IsValid-if (c == 10) (vga_newline s) _ (λ line. newline-IsValid s a (omega arith) w h)
      (λ other.
        IsValid-if (c == 8) (step_back s) _ (λ back. step_back-IsValid s v)
          (λ shown.
            IsValid-if (leb (s.width / 8) (u32 (s.cur_col + 1))) (vga_newline written) written
              (λ full. newline-IsValid written a (omega arith) w h)
              (λ room. record { row = a; col = ground arith; narrow = w; low = h })))

-- A backspace after a character takes the cursor back to where the character stands, unless it stands
-- in the last cell of the screen; the same when the character was the last of its row.
pub vga_putchar-backspace :
    (c : ℕ) (s : Console)
    → IsValid s
    → c ≢ 10
    → c ≢ 8
    → (s.cur_row + 1 < s.height / 16) ⊎ (s.cur_col + 1 < s.width / 8)
    → let s' = vga_putchar 8 (vga_putchar c s) in
      (s'.cur_row ≡ s.cur_row) × (s'.cur_col ≡ s.cur_col)
unfolding vga_putchar step_back vga_newline
vga_putchar-backspace c s v x y room =
    let a = v.row in
    let b = v.col in let w = v.narrow in let h = v.low in (ground arith, ground arith)
