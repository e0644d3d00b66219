-- ===== src/Io/Serial.antt =====
-- The serial port of src/io/serial.c. What the line status port reads, from one read to the next, is a
-- parameter; the state counts the reads and holds what was written, a port and a byte at a time.
-- The wait for room takes fuel: `none` means that it ran out.
use lios.Prelude.{
  ℕ, zero, suc, ◌+◌, ◌%◌, ◌<◌, ◌≡◌, ◌≢◌, ◌∙◌, refl, ap, subst, arith, true, false, ◌==◌, List, [],
  ◌∷◌, ◌++◌, Option, none, some, ◌>>>◌,
}

abbrev pub com1_base : ℕ
com1_base = 0x3F8

pub record Port : Type 0 where
  pub reads : ℕ
  pub written : List (ℕ × ℕ)

unfoldable outb : (port value : ℕ) → Port → Port
outb port value s = record s { written = s.written ++ (port, value) ∷ [] }

-- The three registers behind the data port.
unfoldable serial_configure_baud_rate : (port divisor : ℕ) → Port → Port
serial_configure_baud_rate port divisor s =
    outb port (divisor % 256) (outb port ((divisor >>> 8) % 256) (outb (port + 3) 0x80 s))

unfoldable serial_configure_line : (port : ℕ) → Port → Port
serial_configure_line port = outb (port + 3) 0x3

unfoldable serial_configure_buffers : (port : ℕ) → Port → Port
serial_configure_buffers port = outb (port + 2) 0xC7

unfoldable serial_configure_modem : (port : ℕ) → Port → Port
serial_configure_modem port = outb (port + 4) 0x3

module _ (line_status : ℕ → ℕ) where
  -- `while (!serial_fifo_empty(port))`
  wait_empty : (fuel : ℕ) → Port → Option Port
  wait_empty zero s = none
  wait_empty (suc fuel) s =
      let s' = record s { reads = s.reads + 1 } in
      elim ((line_status s.reads >>> 5) % 2 == 0) [ true ↦ wait_empty fuel s' | false ↦ some s' ]

  wait_empty-room :
      (fuel k : ℕ) (s : Port)
      → ((j : ℕ) → j < k → (line_status (s.reads + j) >>> 5) % 2 ≡ 0)
      → (line_status (s.reads + k) >>> 5) % 2 ≢ 0
      → k < fuel
      → wait_empty fuel s ≡ some (record s { reads = s.reads + k + 1 })
  unfolding wait_empty
  wait_empty-room zero k s w r f = elim f [ ]
  wait_empty-room (suc fuel) zero s w r f =
      let here : s.reads + 0 ≡ s.reads = omega arith in
      let room : ((line_status s.reads >>> 5) % 2 == 0) ≡ false =
        (let r' = subst (λ t. (line_status t >>> 5) % 2 ≢ 0) here r in ground arith) in
      rw (room, wait_empty) (ap (λ t. some (record s { reads = t })) (omega arith))
  wait_empty-room (suc fuel) (suc k) s w r f =
      let here : s.reads + 0 ≡ s.reads = omega arith in
      let busy : ((line_status s.reads >>> 5) % 2 == 0) ≡ true =
        (let w' = subst (λ t. (line_status t >>> 5) % 2 ≡ 0) here (w 0 (omega arith)) in
          ground arith) in
      let s' : Port = record s { reads = s.reads + 1 } in
      let later =
        wait_empty-room fuel k s'
          (λ j l.
            subst (λ t. (line_status t >>> 5) % 2 ≡ 0) (omega arith) (w (suc j) (omega arith)))
          (subst (λ t. (line_status t >>> 5) % 2 ≢ 0) (omega arith) r) (omega arith) in
      rw (busy, wait_empty) (later ∙ ap (λ t. some (record s { reads = t })) (omega arith))

  pub serial_putchar : (fuel c : ℕ) → Port → Option Port
  serial_putchar fuel c s = elim (wait_empty fuel s) [
    | none ↦ none
    | some s' ↦ some (outb com1_base c s')
  ]

  unfoldable serial_init : (fuel : ℕ) → Port → Option Port
  serial_init fuel s =
      let s₁ =
        serial_configure_modem com1_base
          (serial_configure_line com1_base (serial_configure_buffers com1_base s)) in
      let s₂ = serial_configure_line com1_base (serial_configure_baud_rate com1_base 3 s₁) in
      elim (wait_empty fuel s₂) [ none ↦ none | some s₃ ↦ serial_putchar fuel 10 s₃ ]

  -- When the port has room at the read after `k` others, `serial_putchar` returns: it has read the status
  -- that often, and has written this one byte to the data port.
  pub serial_putchar-room :
      (fuel k c : ℕ) (s : Port)
      → ((j : ℕ) → j < k → (line_status (s.reads + j) >>> 5) % 2 ≡ 0)
      → (line_status (s.reads + k) >>> 5) % 2 ≢ 0
      → k < fuel
      → serial_putchar fuel c s
        ≡ some (record { reads = s.reads + k + 1; written = s.written ++ (com1_base, c) ∷ [] })
  unfolding serial_putchar outb
  serial_putchar-room fuel k c s w r f = rw (wait_empty-room fuel k s w r f, serial_putchar) refl
