-- ===== src/Int/Keyboard/Buffer.antt =====
-- The recording buffer of src/int/keyboard.c: what is recorded, and when a write is inside.
use lios.Prelude.{
  ℕ, zero, suc, ◌+◌, ◌-◌, ◌*◌, ◌^◌, ◌≤◌, ◌<◌, ◌≡◌, refl, arith, true, ltb, List, [], ◌∷◌, ◌++◌,
  length, get_or, set, replicate, take, length-set, length-replicate, ◌∙◌, ap, Bool-cases, inl, inr,
  u32, u64, none, some, false, drop, append-nil, append_assoc, lt→ltb, sym, sub_u64,
}
use native.Mathlib.Numerals.{add-one}
use native.Mathlib.Nat.{add-zero}
use lios.Int.Keyboard.{
  Keyboard, running, fault, all_rounds, copy_pressed, grow, store_pressed, record_char, drop_char,
}

-- What has been recorded.
abbrev pub recorded : Keyboard → List ℕ
recorded s = take s.pressed_size s.pressed

-- While a recording is on, the block has its capacity, and the recorded characters fit.
pub record IsValid (s : Keyboard) : Type 0 where
  pub block : s.is_recording ≡ true → length s.pressed ≡ s.pressed_capacity
  pub positive : s.is_recording ≡ true → 0 < s.pressed_capacity
  pub fits : s.is_recording ≡ true → s.pressed_size ≤ s.pressed_capacity

take-set : (xs : List ℕ) (i v : ℕ) → i < length xs → take (suc i) (set xs i v) ≡ take i xs ++ v ∷ []
take-set [] i v h = elim h [ ]
take-set (x ∷ xs) zero v h = refl
take-set (x ∷ xs) (suc i) v h = ap (λ r. x ∷ r) (take-set xs i v (omega arith))

take-set_at : (xs : List ℕ) (i v : ℕ) → take i (set xs i v) ≡ take i xs
take-set_at xs zero v = refl
take-set_at [] (suc i) v = refl
take-set_at (x ∷ xs) (suc i) v = ap (λ r. x ∷ r) (take-set_at xs i v)

take-take : (xs : List ℕ) (i n : ℕ) → i ≤ n → take i (take n xs) ≡ take i xs
take-take xs zero n h = refl
take-take xs (suc i) zero h = elim h [ ]
take-take [] (suc i) (suc n) h = refl
take-take (x ∷ xs) (suc i) (suc n) h = ap (λ r. x ∷ r) (take-take xs i n (omega arith))

drop_cons : (xs : List ℕ) (i : ℕ) → i < length xs → drop i xs ≡ get_or xs i 0 ∷ drop (suc i) xs
drop_cons [] i h = elim h [ ]
drop_cons (x ∷ xs) zero h = refl
drop_cons (x ∷ xs) (suc i) h = drop_cons xs i (omega arith)

copy_pressed_more :
    (fuel i size : ℕ) (from to : List ℕ)
    → i < size
    → size < 2 ^ 32
    → copy_pressed (suc fuel) i size from to
      ≡ copy_pressed fuel (i + 1) size from (set to i (get_or from i 0))
unfolding copy_pressed
copy_pressed_more fuel i size from to h b =
    let more : ltb i size ≡ true = ground arith in
    let step : u32 (i + 1) ≡ i + 1 = omega arith in rw (more, step, copy_pressed) refl

copy_pressed_done :
    (fuel i size : ℕ) (from to : List ℕ)
    → size ≤ i
    → copy_pressed (suc fuel) i size from to ≡ some to
unfolding copy_pressed
copy_pressed_done fuel i size from to h =
    let done : ltb i size ≡ false = ground arith in rw (done, copy_pressed) refl

-- With `r` characters left, fewer than 2 ^ 32 in all, the copy ends, and the block holds them.
take-copy_pressed :
    (fuel r i : ℕ) (from to : List ℕ)
    → r < fuel
    → i + r < 2 ^ 32
    → i + r ≤ length from
    → i + r ≤ length to
    → (to' : List ℕ) × (copy_pressed fuel i (i + r) from to ≡ some to')
      × (length to' ≡ length to)
      × (take (i + r) to' ≡ take i to ++ take r (drop i from))
take-copy_pressed zero r i from to f b h k = elim f [ ]
take-copy_pressed (suc fuel) zero i from to f b h k =
    (to, copy_pressed_done fuel i (i + 0) from to (omega arith), refl, rw (add-zero, append-nil))
take-copy_pressed (suc fuel) (suc r) i from to f b h k =
    let v = get_or from i 0 in
    let (to', e, len, kept) =
      take-copy_pressed fuel r (i + 1) from (set to i v) (omega arith) (omega arith) (omega arith)
        (omega (arith, length-set to i v)) in
    (
      to',
      copy_pressed_more fuel i (i + suc r) from to (omega arith) b
          ∙ (ap (λ n. copy_pressed fuel (i + 1) n from (set to i v)) (omega arith) ∙ e),
      len ∙ length-set to i v,
      ap (λ n. take n to') (omega arith)
          ∙ (kept
              ∙ (ap (λ n. take n (set to i v) ++ take r (drop n from)) (add-one i)
                  ∙ (ap (λ x. x ++ take r (drop (suc i) from)) (take-set to i v (omega arith))
                      ∙ (append_assoc (take i to) (v ∷ []) (take r (drop (suc i) from))
                          ∙ ap (λ x. take i to ++ take (suc r) x)
                              (sym (drop_cons from i (omega arith))))))),
    )

grow_copied :
    (s : Keyboard) (pressed : List ℕ)
    → copy_pressed all_rounds 0 s.pressed_size s.pressed
        (replicate (u64 (s.pressed_capacity * 2)) 0)
      ≡ some pressed
    → grow s
      ≡ some (record s { pressed = pressed; pressed_capacity = u64 (s.pressed_capacity * 2) })
unfolding grow
grow_copied s pressed f = rw (f, grow) refl

-- Growing keeps what has been recorded, and doubles the block; it ends for fewer than 2 ^ 32 characters.
grow_lem :
    (s : Keyboard)
    → s.pressed_size < 2 ^ 32
    → s.pressed_size ≤ length s.pressed
    → s.pressed_capacity * 2 < 2 ^ 64
    → s.pressed_size ≤ s.pressed_capacity * 2
    → (pressed : List ℕ) × (grow s
        ≡ some (record s { pressed = pressed; pressed_capacity = s.pressed_capacity * 2 }))
      × (take s.pressed_size pressed ≡ recorded s)
      × (length pressed ≡ s.pressed_capacity * 2)
grow_lem s few h w k =
    let double : u64 (s.pressed_capacity * 2) ≡ s.pressed_capacity * 2 = omega arith in
    let new : List ℕ = replicate (s.pressed_capacity * 2) 0 in
    let size : length new ≡ s.pressed_capacity * 2 = length-replicate _ 0 in
    let all : 0 + s.pressed_size ≡ s.pressed_size = omega arith in
    let (pressed, e, len, kept) =
      take-copy_pressed all_rounds s.pressed_size 0 s.pressed new (omega arith) (omega arith)
        (omega arith) (omega (arith, size)) in
    let copied = ap (λ n. copy_pressed all_rounds 0 n s.pressed new) (sym all) ∙ e in
    (
      pressed,
      grow_copied s pressed (
            ap (λ n. copy_pressed all_rounds 0 s.pressed_size s.pressed (replicate n 0)) double
            ∙ copied)
          ∙ ap (λ n. some (record s { pressed = pressed; pressed_capacity = n })) double,
      ap (λ n. take n pressed) (sym all) ∙ kept,
      len ∙ size,
    )

-- More characters than the counter reaches.
pub copy_pressed_endless :
    (fuel i size : ℕ) (from to : List ℕ)
    → i < 2 ^ 32
    → 2 ^ 32 ≤ size
    → copy_pressed fuel i size from to ≡ none
unfolding copy_pressed
copy_pressed_endless zero i size from to h k = refl
copy_pressed_endless (suc fuel) i size from to h k =
    let more : ltb i size ≡ true = ground arith in
    rw (more, copy_pressed)
      (copy_pressed_endless fuel (u32 (i + 1)) size from (set to i (get_or from i 0)) (omega arith)
        k)

-- Storing behind the recorded characters, in a block with room, records one more.
append_char :
    (s : Keyboard) (c : ℕ)
    → s.pressed_size < length s.pressed
    → let s' = record s {
      pressed = set s.pressed s.pressed_size c;
      pressed_size = s.pressed_size + 1;
    } in
      (store_pressed s.pressed_size c (record s { pressed_size = s.pressed_size + 1 }) ≡ running s')
      × (recorded s' ≡ recorded s ++ c ∷ [])
unfolding store_pressed
append_char s c h = (rw (lt→ltb _ _ h), rw add-one (take-set s.pressed s.pressed_size c h))

record_char_full :
    (c : ℕ) (s room : Keyboard)
    → ltb s.pressed_capacity (s.pressed_size + 1) ≡ true
    → grow s ≡ some room
    → record_char c s
      ≡ store_pressed room.pressed_size c (record room { pressed_size = room.pressed_size + 1 })
unfolding record_char
record_char_full c s room e f = rw (e, f, record_char) refl

record_char_room :
    (c : ℕ) (s : Keyboard)
    → ltb s.pressed_capacity (s.pressed_size + 1) ≡ false
    → record_char c s
      ≡ store_pressed s.pressed_size c (record s { pressed_size = s.pressed_size + 1 })
unfolding record_char
record_char_room c s e = rw (e, record_char) refl

-- With a valid recording on of fewer than 2 ^ 32 characters and a capacity below 2 ^ 63, `record_char` appends the character to what
-- is recorded, growing the block where it is full; the recording stays valid and on.
pub record_char_lem :
    (c : ℕ) (s : Keyboard)
    → IsValid s
    → s.is_recording ≡ true
    → s.pressed_capacity < 2 ^ 63
    → s.pressed_size < 2 ^ 32
    → (s' : Keyboard) × (record_char c s ≡ running s')
      × (recorded s' ≡ recorded s ++ c ∷ [])
      × IsValid s'
      × (s'.is_recording ≡ true)
record_char_lem c s v on small few =
    elim (Bool-cases (ltb s.pressed_capacity (s.pressed_size + 1))) [
      | inl full ↦
          let (pressed, e, kept, len) =
            grow_lem s few (omega (arith, v.block on, v.fits on)) (omega arith)
              (omega (arith, v.fits on)) in
          let grown : Keyboard = record s {
            pressed = pressed;
            pressed_capacity = s.pressed_capacity * 2;
          } in
          let (stored, more) = append_char grown c (omega (arith, len, v.positive on, v.fits on)) in
          (
            record grown {
              pressed = set pressed s.pressed_size c;
              pressed_size = s.pressed_size + 1;
            },
            record_char_full c s grown full e ∙ stored,
            more ∙ ap (λ r. r ++ c ∷ []) kept,
            record {
              block = λ _. length-set pressed s.pressed_size c ∙ len;
              positive = λ _. omega (arith, v.positive on);
              fits = λ _. omega (arith, v.positive on, v.fits on);
            },
            on,
          )
      | inr room ↦
          let (stored, more) = append_char s c (ground (arith, v.block on)) in
          (
            record s {
              pressed = set s.pressed s.pressed_size c;
              pressed_size = s.pressed_size + 1;
            },
            record_char_room c s room ∙ stored,
            more,
            record {
              block = λ _. length-set s.pressed _ c ∙ v.block on;
              positive = v.positive;
              fits = λ _. ground arith;
            },
            on,
          )
    ]

-- Dropping a character of a valid recording that has one.
pub drop_char_lem :
    (s : Keyboard)
    → IsValid s
    → s.is_recording ≡ true
    → 0 < s.pressed_size
    → s.pressed_size < 2 ^ 64
    → (s' : Keyboard) × (drop_char s ≡ running s')
      × (recorded s' ≡ take (s.pressed_size - 1) (recorded s))
      × IsValid s'
unfolding drop_char store_pressed
drop_char_lem s v on some_char small =
    let i = s.pressed_size - 1 in
    let less : sub_u64 s.pressed_size 1 ≡ i = omega arith in
    (
      record s { pressed = set s.pressed i 0; pressed_size = i },
      rw (less, lt→ltb i (length s.pressed) (omega (arith, v.block on, v.fits on))),
      take-set_at s.pressed i 0 ∙ sym (take-take s.pressed i s.pressed_size (omega arith)),
      record {
        block = λ _. length-set s.pressed i 0 ∙ v.block on;
        positive = v.positive;
        fits = λ _. omega (arith, v.fits on);
      },
    )

-- Dropping a character of an empty recording writes at index 2 ^ 64 - 1.
pub drop_char_empty :
    (s : Keyboard)
    → IsValid s
    → s.is_recording ≡ true
    → s.pressed_size ≡ 0
    → s.pressed_capacity < 2 ^ 63
    → drop_char s ≡ fault
unfolding drop_char store_pressed
drop_char_empty s v on empty small = ground (arith, v.block on)
