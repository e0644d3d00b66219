-- ===== src/Int/Interrupt/Gates.antt =====
-- The gates that src/int/interrupt.c installs.
use lios.Prelude.{ℕ, ◌+◌, ◌*◌, ◌^◌}
use lios.Int.Interrupt.{IdtEntry}

-- The address that the processor puts together from the three parts of a gate.
abbrev pub target : IdtEntry → ℕ
target g = g.isr_low + g.isr_mid * 2 ^ 16 + g.isr_high * 2 ^ 32
