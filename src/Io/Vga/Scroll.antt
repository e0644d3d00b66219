-- ===== src/Io/Vga/Scroll.antt =====
-- What a new line in the last row of the console of src/io/vga.c leaves on the screen.
use lios.Prelude.{
  ℕ, zero, suc, ◌+◌, ◌-◌, ◌*◌, ◌/◌, ◌^◌, ◌≤◌, ◌<◌, ◌≡◌, ◌≢◌, ◌∙◌, refl, arith, ltb, u32, sub_u32,
  ap, false,
}
use lios.Io.Vga.{Console, put_at, get_pos, copy_line, scroll, blank_line, vga_newline, IsValid}

get_pos_small :
    (row col width : ℕ)
    → row * (width / 8) + col < 2 ^ 32
    → get_pos row col width ≡ row * (width / 8) + col
unfolding get_pos
get_pos_small row col width f = ground arith

put_at_other : (chars : ℕ → ℕ) (p c x : ℕ) → x ≢ p → put_at chars p c x ≡ chars x
put_at_other chars p c x ne = ground arith

put_at_here : (chars : ℕ → ℕ) (p c x : ℕ) → x ≡ p → put_at chars p c x ≡ c
put_at_here chars p c x e = ground arith

next_row : (i w : ℕ) → (i + 1) * w ≡ i * w + w
next_row i w = omega arith

-- Cells below and above the columns that are copied are left alone.
copy_line_other :
    (n i j width x : ℕ) (chars : ℕ → ℕ)
    → i * (width / 8) + width / 8 ≤ 2 ^ 32
    → j + n ≤ width / 8
    → ((k : ℕ) → k < n → x ≢ i * (width / 8) + j + k)
    → copy_line n i j width chars x ≡ chars x
unfolding copy_line
copy_line_other zero i j width x chars b f away = refl
copy_line_other (suc n) i j width x chars b f away =
    let here = get_pos_small i j width (omega arith) in
    copy_line_other n i (j + 1) width x
      (put_at chars (get_pos i j width) (chars (get_pos (i + 1) j width))) b (omega arith)
      (λ k q e. away (k + 1) (omega arith) (omega arith))
    ∙ put_at_other chars (get_pos i j width) (chars (get_pos (i + 1) j width)) x
        (λ e. away 0 (omega arith) (e ∙ here ∙ omega arith))

-- The others take the character below them.
copy_line_cell :
    (n i j width k : ℕ) (chars : ℕ → ℕ)
    → i * (width / 8) + width / 8 + width / 8 ≤ 2 ^ 32
    → j + n ≤ width / 8
    → k < n
    → copy_line n i j width chars (i * (width / 8) + j + k)
      ≡ chars (i * (width / 8) + j + k + width / 8)
unfolding copy_line
copy_line_cell zero i j width k chars b f q = elim q [ ]
copy_line_cell (suc n) i j width zero chars b f q =
    let w = width / 8 in
    let here = get_pos_small i j width (omega arith) in
    let row = next_row i w in
    let below : get_pos (i + 1) j width ≡ i * w + j + 0 + w =
      get_pos_small (i + 1) j width (omega arith) ∙ omega arith in
    let after = put_at chars (get_pos i j width) (chars (get_pos (i + 1) j width)) in
    copy_line_other n i (j + 1) width (i * w + j + 0) after (omega arith) (omega arith)
      (λ k' q' e. omega arith)
    ∙ (put_at_here chars (get_pos i j width) (chars (get_pos (i + 1) j width)) (i * w + j + 0)
          (omega arith)
        ∙ ap chars below)
copy_line_cell (suc n) i j width (suc k) chars b f q =
    let w = width / 8 in
    let here = get_pos_small i j width (omega arith) in
    let after = put_at chars (get_pos i j width) (chars (get_pos (i + 1) j width)) in
    let index : i * w + j + suc k ≡ i * w + (j + 1) + k = omega arith in
    ap (copy_line n i (j + 1) width after) index
    ∙ (copy_line_cell n i (j + 1) width k after b (omega arith) (omega arith)
        ∙ (put_at_other chars (get_pos i j width) (chars (get_pos (i + 1) j width))
              (i * w + (j + 1) + k + w) (λ e. omega arith)
            ∙ ap chars (omega arith)))

scroll_above :
    (n i width x : ℕ) (chars : ℕ → ℕ)
    → (i + n) * (width / 8) + width / 8 ≤ 2 ^ 32
    → x < i * (width / 8)
    → scroll n i width chars x ≡ chars x
unfolding scroll
scroll_above zero i width x chars b f = refl
scroll_above (suc n) i width x chars b f =
    let w = width / 8 in
    scroll_above n (i + 1) width x (copy_line w i 0 width chars) (omega arith) (omega arith)
    ∙ copy_line_other w i 0 width x chars (omega arith) (omega arith) (λ k q e. omega arith)

-- Each row takes the characters of the next one.
scroll_row :
    (n i width r k : ℕ) (chars : ℕ → ℕ)
    → (i + n) * (width / 8) + width / 8 ≤ 2 ^ 32
    → r < n
    → k < width / 8
    → scroll n i width chars ((i + r) * (width / 8) + k)
      ≡ chars ((i + r) * (width / 8) + k + width / 8)
unfolding scroll
scroll_row zero i width r k chars b f q = elim f [ ]
scroll_row (suc n) i width zero k chars b f q =
    let w = width / 8 in
    let index : (i + 0) * w + k ≡ i * w + 0 + k = omega arith in
    scroll_above n (i + 1) width ((i + 0) * w + k) (copy_line w i 0 width chars) (omega arith)
      (omega arith)
    ∙ (ap (copy_line w i 0 width chars) index
        ∙ (copy_line_cell w i 0 width k chars (omega arith) (omega arith) q
            ∙ ap chars (omega arith)))
scroll_row (suc n) i width (suc r) k chars b f q =
    let w = width / 8 in
    let index : (i + suc r) * w + k ≡ (i + 1 + r) * w + k = omega arith in
    ap (scroll n (i + 1) width (copy_line w i 0 width chars)) index
    ∙ (scroll_row n (i + 1) width r k (copy_line w i 0 width chars) (omega arith) (omega arith) q
        ∙ (copy_line_other w i 0 width ((i + 1 + r) * w + k + w) chars (omega arith) (omega arith)
              (λ k' q' e. omega arith)
            ∙ ap chars (omega arith)))

blank_line_above :
    (n row j width x : ℕ) (chars : ℕ → ℕ)
    → row * (width / 8) + width / 8 ≤ 2 ^ 32
    → j + n ≤ width / 8
    → x < row * (width / 8) + j
    → blank_line n row j width chars x ≡ chars x
unfolding blank_line
blank_line_above zero row j width x chars b f q = refl
blank_line_above (suc n) row j width x chars b f q =
    let here = get_pos_small row j width (omega arith) in
    blank_line_above n row (j + 1) width x (put_at chars (get_pos row j width) b' ') b (omega arith)
      (omega arith)
    ∙ put_at_other chars (get_pos row j width) b' ' x (λ e. omega arith)

blank_line_cell :
    (n row j width k : ℕ) (chars : ℕ → ℕ)
    → row * (width / 8) + width / 8 ≤ 2 ^ 32
    → j + n ≤ width / 8
    → k < n
    → blank_line n row j width chars (row * (width / 8) + j + k) ≡ b' '
unfolding blank_line
blank_line_cell zero row j width k chars b f q = elim q [ ]
blank_line_cell (suc n) row j width zero chars b f q =
    let w = width / 8 in
    let here = get_pos_small row j width (omega arith) in
    blank_line_above n row (j + 1) width (row * w + j + 0) (put_at chars (get_pos row j width) b' ')
      b (omega arith) (omega arith)
    ∙ put_at_here chars (get_pos row j width) b' ' (row * w + j + 0) (omega arith)
blank_line_cell (suc n) row j width (suc k) chars b f q =
    let w = width / 8 in
    let index : row * w + j + suc k ≡ row * w + (j + 1) + k = omega arith in
    let after = put_at chars (get_pos row j width) b' ' in
    ap (blank_line n row (j + 1) width after) index
    ∙ blank_line_cell n row (j + 1) width k after b (omega arith) (omega arith)

row_fits : (row last w : ℕ) → row < last → row * w + w ≤ last * w
row_fits row last w f =
    let d = last - (row + 1) in
    let e : last ≡ row + 1 + d = omega arith in
    let e' : last * w ≡ (row + 1 + d) * w = ap (λ t. t * w) e in omega arith

-- On a valid console with fewer than 2 ^ 32 cells: a new line in the last row leaves the cursor at its
-- first column, gives every other row the characters of the row below it, and blanks the last row.
pub vga_newline-scrolls :
    (s : Console) (last : ℕ)
    → IsValid s
    → s.height / 16 ≡ last + 1
    → s.cur_row ≡ last
    → (last + 1) * (s.width / 8) ≤ 2 ^ 32
    → ((vga_newline s).cur_row ≡ last)
      × ((vga_newline s).cur_col ≡ 0)
      × ((row col : ℕ)
          → row < last
          → col < s.width / 8
          → (vga_newline s).chars (get_pos row col s.width)
            ≡ s.chars (get_pos (row + 1) col s.width))
      × ((col : ℕ) → col < s.width / 8 → (vga_newline s).chars (get_pos last col s.width) ≡ b' ')
unfolding vga_newline
vga_newline-scrolls s last v rows here cells =
    let low = v.low in
    let w = s.width / 8 in
    let full : ltb (u32 (s.cur_row + 1)) (s.height / 16) ≡ false = ground arith in
    let row_same : sub_u32 (u32 (s.cur_row + 1)) 1 ≡ last = ground arith in
    let rounds : sub_u32 (s.height / 16) 1 ≡ last = ground arith in
    let scrolled = scroll last 0 s.width s.chars in
    rw (full, row_same, rounds)
      (
        refl,
        refl,
        λ row col f q.
            let fits = row_fits row last w f in
            let from : get_pos row col s.width ≡ (0 + row) * w + col =
              get_pos_small row col s.width (omega arith) ∙ omega arith in
            let to = get_pos_small (row + 1) col s.width (omega arith) in
            ap (blank_line w last 0 s.width scrolled) from
            ∙ (blank_line_above w last 0 s.width ((0 + row) * w + col) scrolled (omega arith)
                  (omega arith) (omega arith)
                ∙ (scroll_row last 0 s.width row col s.chars (omega arith) f q
                    ∙ ap s.chars (omega arith))),
        λ col q.
            ap (blank_line w last 0 s.width scrolled)
              (get_pos_small last col s.width (omega arith) ∙ omega arith)
            ∙ blank_line_cell w last 0 s.width col scrolled (omega arith) (omega arith) q,
      )
