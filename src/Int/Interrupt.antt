-- ===== src/Int/Interrupt.antt =====
-- The interrupt descriptor table and the dispatch of src/int/interrupt.c. The tables are functions of
-- the index; the addresses of the assembly stubs are parameters. Port output is the list of pairs of
-- port and value, the latest last. A routine is named, not run; the messages are left out.
pub mod Gates
pub mod Dispatch
use lios.Prelude.{
  ℕ, zero, suc, ◌+◌, ◌-◌, ◌*◌, ◌/◌, ◌%◌, ◌^◌, Bool, true, false, ltb, leb, ◌==◌, if◌then◌else◌,
  List, [], ◌∷◌, ◌++◌, Option, none, some, bit_and, u8, u32, sub_u32, ◌>>>◌,
}

pub record IdtEntry : Type 0 where
  pub isr_low : ℕ
  pub segment : ℕ
  pub ist : ℕ
  pub attributes : ℕ
  pub isr_mid : ℕ
  pub isr_high : ℕ

pub data Routine : Type 0 where
  timer_routine keyboard_routine syscall_routine page_fault_handler : Routine

pub record Tables : Type 0 where
  pub idt : ℕ → IdtEntry
  pub irq_routines : ℕ → Option Routine
  pub ports : List (ℕ × ℕ)

abbrev pub update {ℓ} : {A : Type ℓ} → (ℕ → A) → ℕ → A → ℕ → A
update f i v j = if j == i then v else f j

pub irq_set_routine : ℕ → Routine → Tables → Tables
irq_set_routine irq_number routine s = record s {
  irq_routines = update s.irq_routines irq_number (some routine);
}

-- It writes the table of the interrupt routines.
pub exception_set_handler : ℕ → Routine → Tables → Tables
exception_set_handler exception handler s = record s {
  irq_routines = update s.irq_routines exception (some handler);
}

pub gate : (isr flags : ℕ) → IdtEntry
gate isr flags = record {
  isr_low = bit_and isr 0xFFFF;
  isr_mid = bit_and (isr >>> 16) 0xFFFF;
  isr_high = bit_and (isr >>> 32) 0xFFFFFFFF;
  segment = 0x08;
  attributes = flags;
  ist = 0;
}

pub idt_set_entry : (index isr flags : ℕ) → Tables → Tables
idt_set_entry index isr flags s = record s { idt = update s.idt index (gate isr flags) }

abbrev pub out : ℕ → ℕ → Tables → Tables
out port value s = record s { ports = s.ports ++ (port, value) ∷ [] }

-- The handler that runs for an exception, before the processor halts.
pub handle_exception : ℕ → Tables → Option Routine
handle_exception interrupt_num s = s.irq_routines interrupt_num

-- The two controllers' command ports are 0x20 and 0xA0, and the end of interrupt is 0x20.
pub pic_acknowledge : ℕ → Tables → Tables
pic_acknowledge irq s = if leb 8 irq then out 0x20 0x20 (out 0xA0 0x20 s) else out 0x20 0x20 s

-- The routine that runs, and the state after the acknowledgement.
pub handle_interrupt : ℕ → Tables → Option Routine × Tables
handle_interrupt interrupt_num s =
    let irq_number = sub_u32 (u32 interrupt_num) 32 in
    (s.irq_routines irq_number, pic_acknowledge (u8 irq_number) s)

-- Sets the entries `base` to `base + count - 1` to the stubs from 0 on.
pub set_entries : (base flags count : ℕ) → (ℕ → ℕ) → Tables → Tables
set_entries base flags zero stub s = s
set_entries base flags (suc n) stub s =
    idt_set_entry (base + n) (stub n) flags (set_entries base flags n stub s)

-- `exception i` and `irq i` are the addresses of the stubs; INT_TIMER is 0, INT_KEYBOARD is 1,
-- INT_SYSCALL is 96 and EXCEPT_PAGE_FAULT is 14.
pub interrupt_init : (exception irq : ℕ → ℕ) → Tables → Tables
interrupt_init exception irq s =
    let cleared = set_entries 0 0 256 (λ i. 0) s in
    let exceptions = set_entries 0 0x8E 32 exception cleared in
    let irqs = set_entries 32 0x8E 16 irq exceptions in
    let gates = idt_set_entry 128 (irq 96) 0xEF irqs in
    let routines =
      irq_set_routine 96 syscall_routine
        (irq_set_routine 1 keyboard_routine (irq_set_routine 0 timer_routine gates)) in
    exception_set_handler 14 page_fault_handler (out 0x21 0xFC (out 0xA1 0xFF routines))
