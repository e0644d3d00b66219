-- ===== src/File/Nvme/Command.antt =====
-- What a command of src/file/nvme.c returns, when the controller answers it.
use lios.Prelude.{
  ℕ, zero, suc, ◌+◌, ◌*◌, ◌%◌, ◌^◌, ◌<◌, ◌≡◌, ◌≢◌, ◌∙◌, refl, ap, arith, Bool, true, false, ◌==◌,
}
use lios.Mem.Pmm.{ok}
use lios.File.Nvme.{
  Controller, Driver, SubmissionEntry, phase_of, completion_check_success, wait_phase, io_entry,
  run_command, nvme_read, nvme_write,
}

module _ (C : Controller) where
  open C use {State, submit, ring, dword3, tick, page_virt_to_phys_addr}

  abbrev pub ticks : ℕ → State → State
  ticks zero s = s
  ticks (suc j) s = ticks j (tick s)

  -- The wait ends at the first tick at which the phase bit is another one.
  wait_phase-ticks :
      (fuel k queue slot phase : ℕ) (s : State)
      → ((j : ℕ) → j < k → phase_of (dword3 (ticks j s) queue slot) ≡ phase)
      → phase_of (dword3 (ticks k s) queue slot) ≢ phase
      → k < fuel
      → wait_phase C fuel queue slot phase s ≡ ok (ticks k s)
  unfolding wait_phase
  wait_phase-ticks zero k queue slot phase s w a f = elim f [ ]
  wait_phase-ticks (suc fuel) zero queue slot phase s w a f =
      let other : (phase_of (dword3 s queue slot) == phase) ≡ false = ground arith in
      rw (other, wait_phase) refl
  wait_phase-ticks (suc fuel) (suc k) queue slot phase s w a f =
      let same = w 0 (omega arith) in
      let again : (phase_of (dword3 s queue slot) == phase) ≡ true = ground arith in
      rw (again, wait_phase)
        (wait_phase-ticks fuel k queue slot phase (tick s) (λ j l. w (suc j) (omega arith)) a
          (omega arith))

  -- The state once the doorbell of the submission queue is rung for an entry.
  abbrev pub sent : SubmissionEntry → Driver C → State
  sent e d =
      ring d.io_submit_doorbell ((d.io_submission_tail + 1) % 64)
        (submit d.io_submit d.io_submission_tail e d.state)

  -- The next slot of the completion queue.
  abbrev pub next_head : Driver C → ℕ
  next_head d = (d.io_completion_head + 1) % 64

  -- The controller answers in the slot at the head after `k` ticks, by the phase bit.
  pub record Answers (e : SubmissionEntry) (d : Driver C) (k : ℕ) : Type 0 where
    pub waits :
        (j : ℕ)
        → j < k
        → phase_of (dword3 (ticks j (sent e d)) d.io_complete d.io_completion_head)
          ≡ phase_of (
              dword3
                (submit d.io_submit d.io_submission_tail e d.state)
                d.io_complete
                d.io_completion_head)
    pub answers :
        phase_of (dword3 (ticks k (sent e d)) d.io_complete d.io_completion_head)
        ≢ phase_of (
            dword3
              (submit d.io_submit d.io_submission_tail e d.state)
              d.io_complete
              d.io_completion_head)

  -- The driver once the answer is acknowledged.
  abbrev pub finished : SubmissionEntry → Driver C → ℕ → Driver C
  finished e d k = record d {
    io_submission_tail = (d.io_submission_tail + 1) % 64;
    io_completion_head = next_head d;
    state = ring d.io_complete_doorbell (next_head d) (ticks k (sent e d));
  }

  run_command-answered :
      (fuel k : ℕ) (e : SubmissionEntry) (d : Driver C)
      → Answers e d k
      → k < fuel
      → run_command C fuel e d
        ≡ ok (
          completion_check_success (dword3 (finished e d k).state d.io_complete (next_head d)),
          finished e d k,
        )
  unfolding run_command
  run_command-answered fuel k e d a f =
      let waited =
        wait_phase-ticks fuel k d.io_complete d.io_completion_head
          (phase_of (
            dword3 (submit d.io_submit d.io_submission_tail e d.state) d.io_complete
              d.io_completion_head))
          (sent e d) a.waits a.answers f in
      rw (waited, run_command) refl

  abbrev pub read_entry : (lba_start num_lbas buffer : ℕ) → Driver C → SubmissionEntry
  read_entry lba_start num_lbas buffer d =
      io_entry C 2 2 lba_start num_lbas (page_virt_to_phys_addr d.state buffer)

  -- When the controller answers a read in the slot at the head of the completion queue after `k` ticks, with
  -- fuel for more: `nvme_read` returns, the tail and the head go on by one modulo 64, and the entry sent
  -- holds the address of the first block, in two halves, and the number of blocks less one.
  pub nvme_read-answered :
      (fuel k lba_start num_lbas buffer : ℕ) (d : Driver C)
      → Answers (read_entry lba_start num_lbas buffer d) d k
      → k < fuel
      → lba_start < 2 ^ 64
      → 0 < num_lbas
      → num_lbas < 2 ^ 16
      → (e : SubmissionEntry) × (done : Bool) × (nvme_read C fuel lba_start num_lbas buffer d
          ≡ ok (done, finished e d k))
        × (e.opcode ≡ 2)
        × (e.prp1 ≡ page_virt_to_phys_addr d.state buffer)
        × (e.dword10 + 2 ^ 32 * e.dword11 ≡ lba_start)
        × (e.dword12 + 1 ≡ num_lbas)
  unfolding nvme_read io_entry
  nvme_read-answered fuel k lba_start num_lbas buffer d a f b n m =
      let e = read_entry lba_start num_lbas buffer d in
      (
        e,
        completion_check_success (dword3 (finished e d k).state d.io_complete (next_head d)),
        run_command-answered fuel k e d a f,
        refl,
        refl,
        omega arith,
        omega arith,
      )

  abbrev pub write_entry : (lba_start num_lbas buffer : ℕ) → Driver C → SubmissionEntry
  write_entry lba_start num_lbas buffer d =
      io_entry C 1 1 lba_start num_lbas (page_virt_to_phys_addr d.state buffer)

  -- When the controller answers a write, and leaves the next slot of the completion queue as it was: what
  -- `nvme_write` returns is the status that this next slot held before, whatever the answer says.
  pub nvme_write-stale :
      (fuel k lba_start num_lbas buffer : ℕ) (d : Driver C)
      → Answers (write_entry lba_start num_lbas buffer d) d k
      → k < fuel
      → dword3
          (finished (write_entry lba_start num_lbas buffer d) d k).state
          d.io_complete
          (next_head d)
        ≡ dword3 d.state d.io_complete (next_head d)
      → nvme_write C fuel lba_start num_lbas buffer d
        ≡ ok (
          completion_check_success (dword3 d.state d.io_complete (next_head d)),
          finished (write_entry lba_start num_lbas buffer d) d k,
        )
  unfolding nvme_write
  nvme_write-stale fuel k lba_start num_lbas buffer d a f same =
      let e = write_entry lba_start num_lbas buffer d in
      run_command-answered fuel k e d a f
      ∙ ap (λ t. ok (completion_check_success t, finished e d k)) same
