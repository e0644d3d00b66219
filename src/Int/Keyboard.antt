-- ===== src/Int/Keyboard.antt =====
-- The keyboard driver of src/int/keyboard.c. The recording buffer is the list of its bytes, so its
-- length is the size of the block that `pressed` points to. The state keeps the characters sent to
-- the console, the latest last. `halt` is the panic on Ctrl-m, `fault` a write outside the buffer, and
-- `endless` a copy of the buffer that never ends.
pub mod Buffer
pub mod Recording
use lios.Prelude.{
  ℕ, zero, suc, ◌+◌, ◌-◌, ◌*◌, ◌%◌, ◌^◌, ◌≤◌, ◌<◌, ◌≡◌, Bool, true, false, ◌&&◌, ◌||◌, ltb, leb,
  ◌==◌, if◌then◌else◌, List, [], ◌∷◌, ◌++◌, length, get_or, set, replicate, take, u32, u64, sub_u64,
  Option, none, some,
}
use lios.Util.Const.{codes, keycodes, max_keycode}

abbrev pub lshift : ℕ
lshift = 42

abbrev pub rshift : ℕ
rshift = 54

abbrev pub control : ℕ
control = 29

abbrev pub enter : ℕ
enter = 28

abbrev pub backspace : ℕ
backspace = 14

pub record Keyboard : Type 0 where
  pub is_shift_held : Bool
  pub is_control_held : Bool
  pub is_recording : Bool
  pub pressed : List ℕ
  pub pressed_size : ℕ
  pub pressed_capacity : ℕ
  pub console : List ℕ

pub data Outcome : Type 0 where
  running : Keyboard → Outcome
  halt fault endless : Outcome

-- The switch on the character while shift is held.
unfoldable pub shifted : ℕ → ℕ
shifted c =
    if c == b'0'
    then b')'
    else (if c == b'1'
        then b'!'
        else (if c == b'2'
            then b'@'
            else (if c == b'3'
                then b'#'
                else (if c == b'4'
                    then b'$'
                    else (if c == b'5'
                        then b'%'
                        else (if c == b'6'
                            then b'^'
                            else (if c == b'7'
                                then b'&'
                                else (if c == b'8'
                                    then b'*'
                                    else (if c == b'9'
                                        then b'('
                                        else (if c == 96
                                            then b'~'
                                            else (if c == b'-'
                                                then b'_'
                                                else (if c == b'='
                                                    then b'+'
                                                    else (if c == b'['
                                                        then b'{'
                                                        else (if c == b']'
                                                            then b'}'
                                                            else (if c == b'|'
                                                            then 92
                                                            else (if c == b';'
                                                            then b':'
                                                            else (if c == 39
                                                            then 34
                                                            else (if c == b','
                                                            then b'<'
                                                            else (if c == b'.'
                                                            then b'>'
                                                            else (if c == b'/'
                                                            then b'?'
                                                            else (if leb b'a' c && leb c b'z'
                                                            then c + b'A' - b'a'
                                                            else c)))))))))))))))))))))

abbrev pub put : ℕ → Keyboard → Keyboard
put c s = record s { console = s.console ++ c ∷ [] }

-- `for (u32 i = 0; i < pressed_size; i++)`. The counter has 32 bits, and the bound 64: `none` means that the
-- loop never ends, as it does not once it has run for every value of the counter.
pub copy_pressed : (fuel i pressed_size : ℕ) → (from to : List ℕ) → Option (List ℕ)
copy_pressed zero i pressed_size from to = none
copy_pressed (suc fuel) i pressed_size from to = elim (ltb i pressed_size) [
  | true ↦ copy_pressed fuel (u32 (i + 1)) pressed_size from (set to i (get_or from i 0))
  | false ↦ some to
]

-- More rounds than the counter has values.
abbrev pub all_rounds : ℕ
all_rounds = 4294967297

-- A block of twice the capacity, zeroed, with the recorded characters copied.
unfoldable pub grow : Keyboard → Option Keyboard
grow s =
    let capacity = u64 (s.pressed_capacity * 2) in
    elim (copy_pressed all_rounds 0 s.pressed_size s.pressed (replicate capacity 0)) [
      | none ↦ none
      | some pressed ↦ some (record s { pressed = pressed; pressed_capacity = capacity })
    ]

-- `pressed[index] = c`
pub store_pressed : (index c : ℕ) → Keyboard → Outcome
store_pressed index c s =
    if ltb index (length s.pressed)
    then running (record s { pressed = set s.pressed index c })
    else fault

-- Appends a character to the recording, in a larger block if the capacity is used up.
pub record_char : ℕ → Keyboard → Outcome
record_char c s = elim (if ltb s.pressed_capacity (s.pressed_size + 1) then grow s else some s) [
  | none ↦ endless
  | some room ↦
      store_pressed room.pressed_size c (record room { pressed_size = room.pressed_size + 1 })
]

pub drop_char : Keyboard → Outcome
drop_char s =
    let size = sub_u64 s.pressed_size 1 in store_pressed size 0 (record s { pressed_size = size })

-- A key with a character of its own.
pub char_key : ℕ → Keyboard → Outcome
char_key ch s =
    let c = if s.is_shift_held then shifted ch else ch in
    if s.is_control_held && c == b'm'
    then halt
    else (if s.is_recording then record_char c (put c s) else running (put c s))

pub other_key : ℕ → Keyboard → Outcome
other_key scan s =
    let erased = put 8 (put b' ' (put 8 s)) in
    if scan == backspace
    then (if s.is_recording then drop_char erased else running erased)
    else (if scan == enter then running (put 10 (record s { is_recording = false })) else running s)

-- The text of a key of the table, one byte or more.
pub press : (text : List ℕ) (scan : ℕ) → Keyboard → Outcome
press (c ∷ []) scan s = char_key c s
press [] scan s = other_key scan s
press (c ∷ (d ∷ r)) scan s = other_key scan s

pub hold : ℕ → Bool → Keyboard → Keyboard
hold scan held s = record s {
  is_shift_held = if scan == lshift || scan == rshift then held else s.is_shift_held;
  is_control_held = if scan == control then held else s.is_control_held;
}

-- `scan` is the byte read from port 0x60.
pub keyboard_routine : ℕ → Keyboard → Outcome
keyboard_routine scan s =
    if ltb scan max_keycode
    then press (codes (get_or keycodes scan "")) scan (hold scan true s)
    else (if leb 0x81 scan && leb scan 0xD7
        then running (hold (scan - 0x80) false s)
        else running s)

unfoldable pub keyboard_start_recording : Keyboard → Keyboard
keyboard_start_recording s = record s {
  pressed_size = 0;
  pressed_capacity = 8;
  pressed = replicate 8 0;
  is_recording = true;
}

unfoldable pub keyboard_is_recording : Keyboard → Bool
keyboard_is_recording s = s.is_recording

unfoldable pub keyboard_get_recording : Keyboard → List ℕ × ℕ
keyboard_get_recording s = (s.pressed, s.pressed_size)

unfoldable pub keyboard_end_recording : Keyboard → Keyboard
keyboard_end_recording s = record s {
  pressed_size = 0;
  pressed_capacity = 0;
  pressed = [];
  is_recording = false;
}
