-- ===== src/Int/Interrupt/Dispatch.antt =====
-- The routines that src/int/interrupt.c runs.
use lios.Prelude.{
  ℕ, ◌+◌, ◌-◌, ◌≤◌, ◌<◌, ◌≡◌, refl, arith, [], ◌∷◌, ◌++◌, if◌then◌else◌, leb, some, sub_u32, u32,
  u8, Bool-cases, inl, inr, le→leb, false,
}
use lios.Int.Interrupt.{
  Tables, Routine, irq_set_routine, exception_set_handler, pic_acknowledge, handle_interrupt,
  handle_exception,
}

-- An interrupt from 32 to 255 runs the routine set for its number minus 32, and is acknowledged at
-- the first controller, and at the second too from request line 8 on; nothing else changes.
pub handle_interrupt-routine :
    (v : ℕ) (s : Tables)
    → 32 ≤ v
    → v < 256
    → ((handle_interrupt v s).0 ≡ s.irq_routines (v - 32))
      × ((handle_interrupt v s).1.idt ≡ s.idt)
      × ((handle_interrupt v s).1.irq_routines ≡ s.irq_routines)
      × ((handle_interrupt v s).1.ports ≡ (
          if leb 40 v
          then (s.ports ++ (0xA0, 0x20) ∷ []) ++ (0x20, 0x20) ∷ []
          else s.ports ++ (0x20, 0x20) ∷ []))
unfolding handle_interrupt pic_acknowledge
handle_interrupt-routine v s h k =
    let irq : sub_u32 (u32 v) 32 ≡ v - 32 = omega arith in
    let line : u8 (v - 32) ≡ v - 32 = omega arith in
    rw (irq, line)
      (elim (Bool-cases (leb 40 v)) [
        | inl second ↦ rw (second, le→leb 8 (v - 32) (ground arith)) (refl, refl, refl, refl)
        | inr first ↦ rw (first, lower v first) (refl, refl, refl, refl)
      ])
  where
    lower : (v : ℕ) → leb 40 v ≡ false → leb 8 (v - 32) ≡ false
    lower v e = ground arith

-- A handler set for an exception below 32 is also the routine of the interrupt 32 above it, since both
-- tables are one; and a routine set for a request line below 32 runs as the exception's handler.
pub exception-irq-shared :
    (e : ℕ) (h : Routine) (s : Tables)
    → e < 32
    → (handle_exception e (exception_set_handler e h s) ≡ some h)
      × ((handle_interrupt (e + 32) (exception_set_handler e h s)).0 ≡ some h)
      × (handle_exception e (irq_set_routine e h s) ≡ some h)
unfolding handle_exception handle_interrupt exception_set_handler irq_set_routine
exception-irq-shared e h s k = ground arith
