-- ===== src/Checks/Interrupts.antt =====
-- Runs of the models of src/int on concrete inputs.
use lios.Prelude.{
  ℕ, ◌+◌, ◌≤◌, ◌<◌, ◌≡◌, ◌⊎◌, refl, arith, true, false, List, [], ◌∷◌, ◌++◌, get_or, ltb,
  if◌then◌else◌, none,
}
use lios.Int.Keyboard.{Keyboard, running, fault, shifted, char_key, keyboard_routine, backspace}
use lios.Int.Keyboard.Buffer.{IsValid, recorded}
use lios.Int.Keyboard.Recording.{
  RunsValid, keyboard_routine-IsValid, char_key-recorded, keyboard_routine-backspace_fault,
}
use lios.Int.Interrupt.{IdtEntry, Tables}
use lios.Int.Syscall.{InterruptData, User, syscall_routine as run_call}
use lios.Int.Syscall.ReadWrite.{syscall_routine-read}

-- A recording of "hi" in a full block of two characters.
abbrev hi : Keyboard
hi = record {
  is_shift_held = true;
  is_control_held = false;
  is_recording = true;
  pressed = b'h' ∷ b'i' ∷ [];
  pressed_size = 2;
  pressed_capacity = 2;
  console = [];
}

hi-IsValid : IsValid hi
hi-IsValid = record { block = λ on. refl; positive = λ on. omega arith; fits = λ on. omega arith }

keyboard_routine-IsValid_example : RunsValid (keyboard_routine 14 hi)
keyboard_routine-IsValid_example =
    keyboard_routine-IsValid 14 hi hi-IsValid (omega arith) (omega arith) (λ on key. omega arith)

char_key-recorded_example :
    (s' : Keyboard) × (char_key b'x' hi ≡ running s')
    × (recorded s' ≡ recorded hi ++ shifted b'x' ∷ [])
    × IsValid s'
    × (s'.is_recording ≡ true)
char_key-recorded_example =
    char_key-recorded b'x' hi hi-IsValid refl refl (omega arith) (omega arith)

abbrev no_keys : Keyboard
no_keys = record hi { pressed_size = 0 }

no_keys-IsValid : IsValid no_keys
no_keys-IsValid = record {
  block = λ on. refl;
  positive = λ on. omega arith;
  fits = λ on. omega arith;
}

keyboard_routine-backspace_fault_example : keyboard_routine backspace no_keys ≡ fault
keyboard_routine-backspace_fault_example =
    keyboard_routine-backspace_fault no_keys no_keys-IsValid refl refl (omega arith)

abbrev no_gate : IdtEntry
no_gate = record { isr_low = 0; segment = 0; ist = 0; attributes = 0; isr_mid = 0; isr_high = 0 }

abbrev tables : Tables
tables = record { idt = λ v. no_gate; irq_routines = λ i. none; ports = [] }

abbrev stub : ℕ → ℕ
stub i = 0xFFFFFFFF80100000

abbrev read_call : InterruptData
read_call = record { rax = 0; rdi = 0; rsi = 100; rdx = 4 }

abbrev user : User
user = record { mem = λ x. 7; console = [] }

abbrev typed : List ℕ
typed = b'h' ∷ b'i' ∷ []

syscall_routine-read_example :
    let u' = run_call read_call typed 2 user in
    ((j : ℕ) → j < 4 → u'.mem (100 + j) ≡ (if ltb j 2 then get_or typed j 0 else 0))
    × ((x : ℕ) → (x < 100) ⊎ (100 + 4 ≤ x) → u'.mem x ≡ 7)
    × (u'.console ≡ [])
syscall_routine-read_example = syscall_routine-read read_call typed 2 user refl refl
