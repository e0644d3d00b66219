-- ===== src/Int/Keyboard/Recording.antt =====
-- What a scan code does to a recording of src/int/keyboard.c, and when the driver stops or writes
-- outside its buffer.
use lios.Prelude.{
  ℕ, ◌-◌, ◌^◌, ◌<◌, ◌≡◌, refl, arith, Bool, true, false, ltb, leb, ◌==◌, ◌&&◌, if◌then◌else◌, List,
  [], ◌∷◌, ◌++◌, length, get_or, ap, sym, ◌∙◌, ==_iff,
}
use mathlib.Core.Path.{subst}
use lios.Util.Const.{codes, keycodes, max_keycode}
use lios.Int.Keyboard.{
  Keyboard, Outcome, running, halt, fault, endless, backspace, enter, put, shifted, char_key,
  other_key, press, hold, keyboard_routine,
}
use lios.Int.Keyboard.Buffer.{recorded, IsValid, record_char_lem, drop_char_lem, drop_char_empty}

-- The state runs on, with a valid recording.
pub RunsValid : Outcome → Type 0
RunsValid (running s) = IsValid s
RunsValid halt = Unit {0}
RunsValid fault = ⊥
RunsValid endless = ⊥

RunsValid-running : {s : Keyboard} → IsValid s → RunsValid (running s)
unfolding RunsValid
RunsValid-running v = v

RunsValid-halt : RunsValid halt
unfolding RunsValid
RunsValid-halt = tt

IsValid-transfer :
    (s t : Keyboard)
    → t.is_recording ≡ s.is_recording
    → t.pressed ≡ s.pressed
    → t.pressed_size ≡ s.pressed_size
    → t.pressed_capacity ≡ s.pressed_capacity
    → IsValid s
    → IsValid t
IsValid-transfer s t a b c d v = record {
  block = λ e. ap length b ∙ v.block (sym a ∙ e) ∙ sym d;
  positive = λ e. omega (arith, v.positive (sym a ∙ e));
  fits = λ e. omega (arith, v.fits (sym a ∙ e));
}

IsValid-stopped : (s : Keyboard) → s.is_recording ≡ false → IsValid s
IsValid-stopped s e = record { block = λ f. cc; positive = λ f. cc; fits = λ f. cc }

RunsValid-if :
    (b : Bool) (x y : Outcome)
    → (b ≡ true → RunsValid x)
    → (b ≡ false → RunsValid y)
    → RunsValid (if b then x else y)
RunsValid-if true x y f g = f refl
RunsValid-if false x y f g = g refl

char_key-RunsValid :
    (ch : ℕ) (s : Keyboard)
    → IsValid s
    → s.pressed_capacity < 2 ^ 63
    → s.pressed_size < 2 ^ 32
    → RunsValid (char_key ch s)
unfolding char_key
char_key-RunsValid ch s v small few =
    let c = if s.is_shift_held then shifted ch else ch in
    RunsValid-if _ _ _ (λ stop. RunsValid-halt)
      (λ go.
        RunsValid-if _ _ _
          (λ on.
            let (s', e, _, w, _) =
              record_char_lem c (put c s) (IsValid-transfer s (put c s) refl refl refl refl v) on
                small few in
            subst RunsValid (sym e) (RunsValid-running w))
          (λ off. RunsValid-running (IsValid-stopped (put c s) off)))

other_key-RunsValid :
    (scan : ℕ) (s : Keyboard)
    → IsValid s
    → s.pressed_capacity < 2 ^ 63
    → (s.is_recording ≡ true → scan ≡ backspace → 0 < s.pressed_size)
    → RunsValid (other_key scan s)
unfolding other_key
other_key-RunsValid scan s v small some_char =
    let erased : Keyboard = put 8 (put b' ' (put 8 s)) in
    let stopped : Keyboard = put 10 (record s { is_recording = false }) in
    let v' = IsValid-transfer s erased refl refl refl refl v in
    RunsValid-if _ _ _
      (λ back.
        RunsValid-if _ _ _
          (λ on.
            let (s', e, _, w) =
              drop_char_lem erased v' on (some_char on ((==_iff _ _).0 back))
                (omega (arith, v.fits on)) in
            subst RunsValid (sym e) (RunsValid-running w))
          (λ off. RunsValid-running v'))
      (λ other.
        RunsValid-if (scan == enter) (running stopped) (running s)
          (λ line. RunsValid-running (IsValid-stopped stopped refl)) (λ rest. RunsValid-running v))

press-RunsValid :
    (text : List ℕ) (scan : ℕ) (s : Keyboard)
    → IsValid s
    → s.pressed_capacity < 2 ^ 63
    → s.pressed_size < 2 ^ 32
    → (s.is_recording ≡ true → scan ≡ backspace → 0 < s.pressed_size)
    → RunsValid (press text scan s)
unfolding press
press-RunsValid [] scan s v small few h = other_key-RunsValid scan s v small h
press-RunsValid (c ∷ []) scan s v small few h = char_key-RunsValid c s v small few
press-RunsValid (c ∷ (d ∷ r)) scan s v small few h = other_key-RunsValid scan s v small h

-- For every scan code and every valid state with a capacity below 2 ^ 63 and fewer than 2 ^ 32 characters
-- in its buffer, the driver stays inside the buffer and returns: it halts, or it goes on with a valid state.
-- The exception that the hypothesis excludes is a backspace while a recording is on that holds no character.
pub keyboard_routine-IsValid :
    (scan : ℕ) (s : Keyboard)
    → IsValid s
    → s.pressed_capacity < 2 ^ 63
    → s.pressed_size < 2 ^ 32
    → (s.is_recording ≡ true → scan ≡ backspace → 0 < s.pressed_size)
    → RunsValid (keyboard_routine scan s)
unfolding keyboard_routine hold
keyboard_routine-IsValid scan s v small few h =
    RunsValid-if (ltb scan max_keycode) (press text scan held) other
      (λ key.
        press-RunsValid text scan held (IsValid-transfer s held refl refl refl refl v) small few h)
      (λ no_key.
        RunsValid-if (leb 0x81 scan && leb scan 0xD7) (running freed) (running s)
          (λ up. RunsValid-running (IsValid-transfer s freed refl refl refl refl v))
          (λ unknown. RunsValid-running v))
  where
    text : List ℕ
    text = codes (get_or keycodes scan "")

    held : Keyboard
    held = hold scan true s

    freed : Keyboard
    freed = hold (scan - 0x80) false s

    other : Outcome
    other = if leb 0x81 scan && leb scan 0xD7 then running freed else running s

-- With a valid recording on that holds no character, and a capacity below 2 ^ 63, a backspace writes
-- outside the buffer.
pub keyboard_routine-backspace_fault :
    (s : Keyboard)
    → IsValid s
    → s.is_recording ≡ true
    → s.pressed_size ≡ 0
    → s.pressed_capacity < 2 ^ 63
    → keyboard_routine backspace s ≡ fault
unfolding keyboard_routine press other_key hold
keyboard_routine-backspace_fault s v on none small =
    let erased : Keyboard = put 8 (put b' ' (put 8 (hold backspace true s))) in
    if_true s.is_recording _ _ on
    ∙ drop_char_empty erased (IsValid-transfer s erased refl refl refl refl v) on none small
  where
    if_true : (b : Bool) (x y : Outcome) → b ≡ true → (if b then x else y) ≡ x
    if_true b x y e = rw e

-- A key of one character, pressed while a valid recording is on and control is not held, is recorded
-- behind the characters before it: as it is, or as its shifted form while shift is held. The capacity is
-- below 2 ^ 63, and there are fewer than 2 ^ 32 characters before it.
pub char_key-recorded :
    (ch : ℕ) (s : Keyboard)
    → IsValid s
    → s.is_recording ≡ true
    → s.is_control_held ≡ false
    → s.pressed_capacity < 2 ^ 63
    → s.pressed_size < 2 ^ 32
    → (s' : Keyboard) × (char_key ch s ≡ running s')
      × (recorded s' ≡ recorded s ++ (if s.is_shift_held then shifted ch else ch) ∷ [])
      × IsValid s'
      × (s'.is_recording ≡ true)
unfolding char_key
char_key-recorded ch s v on free small few =
    let c = if s.is_shift_held then shifted ch else ch in
    let (s', e, more, w, still) =
      record_char_lem c (put c s) (IsValid-transfer s (put c s) refl refl refl refl v) on small
        few in
    (s', pick _ _ _ s.is_control_held (c == b'm') s.is_recording free on ∙ e, more, w, still)
  where
    pick :
        (x y z : Outcome) (a b d : Bool)
        → a ≡ false
        → d ≡ true
        → (if a && b then x else (if d then y else z)) ≡ y
    pick x y z a b d e f = rw (e, f)
