-- ===== src/File/Nvme.antt =====
-- The NVMe driver of src/file/nvme.c. The controller and the memory that it shares with the driver are a
-- parameter, `Controller`: its registers, the submission entries that it is given, the last words of
-- its completion entries, and the passing of time, `tick`. The loops that wait for it take fuel:
-- `stuck` means that it did not answer in so many ticks. Messages are left out.
pub mod Command
pub mod Pci
use lios.Prelude.{
  ℕ, zero, suc, ◌+◌, ◌-◌, ◌*◌, ◌/◌, ◌%◌, ◌^◌, Bool, true, false, not, ◌&&◌, ltb, leb, ◌==◌,
  if◌then◌else◌, Option, none, some, bit_or, u16, u32, u64, sub_u32, ◌<<<◌, ◌>>>◌,
}
use lios.Mem.Pmm.{Result, ok, panic, stuck}
use lios.Mem.Vmm.{◌>>=◌, or_panic}

-- The fields of an entry that are set; the others are zero.
pub record SubmissionEntry : Type 0 where
  pub opcode : ℕ
  pub identifier : ℕ
  pub nsid : ℕ
  pub prp1 : ℕ
  pub dword10 : ℕ
  pub dword11 : ℕ
  pub dword12 : ℕ

pub record Controller : Type 1 where
  pub State : Type 0
  pub cap : State → ℕ
  pub csts : State → ℕ
  pub cc : State → ℕ
  pub set_cc : ℕ → State → State
  pub set_aqa : ℕ → State → State
  pub set_asq : ℕ → State → State
  pub set_acq : ℕ → State → State
  pub submit : (queue slot : ℕ) → SubmissionEntry → State → State
  pub ring : (doorbell value : ℕ) → State → State
  pub dword3 : State → (queue slot : ℕ) → ℕ
  pub tick : State → State
  pub kcalloc_page : State → Option (ℕ × State)
  pub page_virt_to_phys_addr : State → ℕ → ℕ

-- The phase bit, the status code type and the status code.
abbrev pub phase_of : ℕ → ℕ
phase_of dword3 = (dword3 >>> 16) % 2

unfoldable pub completion_check_success : ℕ → Bool
completion_check_success dword3 =
    if not ((dword3 >>> 25) % 8 == 0)
    then false
    else (if not ((dword3 >>> 17) % 256 == 0) then false else true)

module _ (C : Controller) where
  open C use {
    State, cap, csts, cc, set_cc, set_aqa, set_asq, set_acq, submit, ring, dword3, tick,
    kcalloc_page, page_virt_to_phys_addr,
  }

  -- The driver's variables. Doorbells are offsets from that of the admin submission queue.
  pub record Driver : Type 0 where
    pub admin_submit : ℕ
    pub admin_complete : ℕ
    pub io_submit : ℕ
    pub io_complete : ℕ
    pub io_submit_doorbell : ℕ
    pub io_complete_doorbell : ℕ
    pub admin_submission_tail : ℕ
    pub admin_completion_head : ℕ
    pub io_submission_tail : ℕ
    pub io_completion_head : ℕ
    pub state : State

  -- `while (phase bit == phase) nop`
  pub wait_phase : (fuel queue slot phase : ℕ) → State → Result State
  wait_phase zero queue slot phase s = stuck
  wait_phase (suc fuel) queue slot phase s = elim (phase_of (dword3 s queue slot) == phase) [
    | true ↦ wait_phase fuel queue slot phase (tick s)
    | false ↦ ok s
  ]

  -- The entry of a read or a write.
  pub io_entry : (command identifier lba_start num_lbas prp1 : ℕ) → SubmissionEntry
  io_entry command identifier lba_start num_lbas prp1 = record {
    opcode = command;
    identifier = identifier;
    nsid = 1;
    prp1 = prp1;
    dword10 = u32 lba_start;
    dword11 = u32 (lba_start >>> 32);
    dword12 = sub_u32 num_lbas 1;
  }

  -- What `nvme_read` and `nvme_write` do with the entry.
  pub run_command : (fuel : ℕ) → SubmissionEntry → Driver → Result (Bool × Driver)
  run_command fuel e d =
      let s₁ = submit d.io_submit d.io_submission_tail e d.state in
      let phase = phase_of (dword3 s₁ d.io_complete d.io_completion_head) in
      let tail = (d.io_submission_tail + 1) % 64 in
      let head = (d.io_completion_head + 1) % 64 in
      wait_phase fuel d.io_complete d.io_completion_head phase (ring d.io_submit_doorbell tail s₁)
      >>= λ s₂.
          let s₃ = ring d.io_complete_doorbell head s₂ in
          ok (
            completion_check_success (dword3 s₃ d.io_complete head),
            record d { io_submission_tail = tail; io_completion_head = head; state = s₃ },
          )

  pub nvme_read : (fuel lba_start num_lbas buffer : ℕ) → Driver → Result (Bool × Driver)
  nvme_read fuel lba_start num_lbas buffer d =
      run_command fuel (io_entry 2 2 lba_start num_lbas (page_virt_to_phys_addr d.state buffer)) d

  pub nvme_write : (fuel lba_start num_lbas buffer : ℕ) → Driver → Result (Bool × Driver)
  nvme_write fuel lba_start num_lbas buffer d =
      run_command fuel (io_entry 1 1 lba_start num_lbas (page_virt_to_phys_addr d.state buffer)) d

  -- `while ((CSTS & 1) == ready) nop`
  unfoldable pub wait_ready : (fuel ready : ℕ) → State → Result State
  wait_ready zero ready s = stuck
  wait_ready (suc fuel) ready s = elim (csts s % 2 == ready) [
    | true ↦ wait_ready fuel ready (tick s)
    | false ↦ ok s
  ]

  -- A queue of 64 entries in a page, by a command in the next slot of the admin queue; a panic if the
  -- controller reports a failure.
  unfoldable pub create_queue : (fuel command flags page : ℕ) → Driver → Result Driver
  create_queue fuel command flags page d =
      let e : SubmissionEntry = record {
        opcode = command;
        identifier = 0;
        nsid = 0;
        prp1 = page_virt_to_phys_addr d.state page;
        dword10 = bit_or (63 <<< 16) 1;
        dword11 = flags;
        dword12 = 0;
      } in
      let tail = d.admin_submission_tail + 1 in
      let s₁ = ring 0 tail (submit d.admin_submit d.admin_submission_tail e d.state) in
      wait_phase fuel d.admin_complete d.admin_completion_head 0 s₁ >>= λ s₂.
      if completion_check_success (dword3 s₂ d.admin_complete d.admin_completion_head)
      then ok (record d {
        admin_submission_tail = tail;
        admin_completion_head = d.admin_completion_head + 1;
        state = s₂;
      })
      else panic

  unfoldable pub nvme_init : (fuel : ℕ) → State → Result Driver
  nvme_init fuel s = wait_ready fuel 1 (set_cc 0 s) >>= λ s₁.
      if (cap s₁ >>> 37) % 2 == 0
      then panic
      else (let s₂ = set_aqa (bit_or (63 <<< 16) 63) (set_cc (bit_or (6 <<< 16) (4 <<< 20)) s₁) in
          or_panic (kcalloc_page s₂) >>= λ submit_page.
          or_panic (kcalloc_page submit_page.1) >>= λ complete_page.
          let s₃ = complete_page.1 in
          let s₄ = set_asq (page_virt_to_phys_addr s₃ submit_page.0) s₃ in
          let s₅ = set_acq (page_virt_to_phys_addr s₄ complete_page.0) s₄ in
          wait_ready fuel 0 (set_cc (bit_or (cc s₅) 1) s₅) >>= λ s₆.
          let doorbell_stride = 4 <<< ((cap s₆ >>> 32) % 16) in
          or_panic (kcalloc_page s₆) >>= λ io_complete_page.
          create_queue fuel 5 1 io_complete_page.0 (record {
            admin_submit = submit_page.0;
            admin_complete = complete_page.0;
            io_submit = 0;
            io_complete = io_complete_page.0;
            io_submit_doorbell = 2 * doorbell_stride;
            io_complete_doorbell = 3 * doorbell_stride;
            admin_submission_tail = 0;
            admin_completion_head = 0;
            io_submission_tail = 0;
            io_completion_head = 0;
            state = io_complete_page.1;
          })
          >>= λ d₁. or_panic (kcalloc_page d₁.state) >>= λ io_submit_page.
              create_queue fuel 1 (bit_or (1 <<< 16) 1) io_submit_page.0
                (record d₁ { io_submit = io_submit_page.0; state = io_submit_page.1 }))
