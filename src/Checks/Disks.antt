-- ===== src/Checks/Disks.antt =====
-- Runs of the models of src/file/nvme.c on concrete inputs.
use lios.Prelude.{
  ℕ, Bool, ◌+◌, ◌*◌, ◌/◌, ◌%◌, ◌^◌, ◌<◌, ◌≡◌, refl, arith, ◌==◌, if◌then◌else◌, none,
}
use lios.Mem.Pmm.{ok}
use lios.File.Fat32.{Block}
use lios.File.Nvme.{
  Controller, Driver, SubmissionEntry, completion_check_success, nvme_read, nvme_write,
}
use lios.File.Nvme.Command.{
  Answers, finished, read_entry, write_entry, nvme_read-answered, nvme_write-stale,
}
use lios.File.Nvme.Pci.{virt_addr, pci_get_addr, search_buses}
use lios.File.Nvme.Pci.Search.{Outcome, InBuses, pci_get_addr-fields, search_buses-Outcome}

-- A controller that answers at once, in slot 0, with an error; its state is the last words of the
-- completion queue.
abbrev failing : Controller
failing = record {
  State = ℕ → ℕ;
  cap = λ s. 0;
  csts = λ s. 0;
  cc = λ s. 0;
  set_cc = λ v s. s;
  set_aqa = λ v s. s;
  set_asq = λ v s. s;
  set_acq = λ v s. s;
  submit = λ queue slot e s. s;
  ring = λ doorbell value s.
      if doorbell == 8 then (λ slot. if slot == 0 then 0x50000 else s slot) else s;
  dword3 = λ s queue slot. s slot;
  tick = λ s. s;
  kcalloc_page = λ s. none;
  page_virt_to_phys_addr = λ s a. a % 2 ^ 32;
}

abbrev idle : Driver failing
idle = record {
  admin_submit = 0;
  admin_complete = 4096;
  io_submit = 8192;
  io_complete = 12288;
  io_submit_doorbell = 8;
  io_complete_doorbell = 12;
  admin_submission_tail = 2;
  admin_completion_head = 2;
  io_submission_tail = 0;
  io_completion_head = 0;
  state = λ slot. 0;
}

idle-Answers : (e : SubmissionEntry) → Answers failing e idle 0
idle-Answers e = record { waits = λ j f. elim f [ ]; answers = λ e'. omega (arith, e') }

nvme_read-answered_example :
    (e : SubmissionEntry) × (done : Bool) × (nvme_read failing 3 2 1 4096 idle
      ≡ ok (done, finished failing e idle 0))
    × (e.opcode ≡ 2)
    × (e.prp1 ≡ 4096)
    × (e.dword10 + 2 ^ 32 * e.dword11 ≡ 2)
    × (e.dword12 + 1 ≡ 1)
nvme_read-answered_example =
    nvme_read-answered failing 3 0 2 1 4096 idle (idle-Answers (read_entry failing 2 1 4096 idle))
      (omega arith) (omega arith) (omega arith) (omega arith)

nvme_write-stale_example :
    nvme_write failing 3 2 1 4096 idle
    ≡ ok (completion_check_success 0, finished failing (write_entry failing 2 1 4096 idle) idle 0)
nvme_write-stale_example =
    nvme_write-stale failing 3 0 2 1 4096 idle (idle-Answers (write_entry failing 2 1 4096 idle))
      (omega arith) refl

pci_get_addr-fields_example :
    (a : ℕ) × (pci_get_addr virt_addr 3 4 5 16 ≡ virt_addr + a)
    × (a < 2 ^ 28)
    × (a / 2 ^ 20 ≡ 3)
    × (a / 2 ^ 15 % 32 ≡ 4)
    × (a / 2 ^ 12 % 8 ≡ 5)
    × (a % 4096 ≡ 16)
pci_get_addr-fields_example =
    pci_get_addr-fields virt_addr 3 4 5 16 (omega arith) (omega arith) (omega arith) (omega arith)
      (omega arith)

-- A controller at bus 0, device 3, function 0; elsewhere there is nothing.
abbrev one_controller : ℕ → Block
one_controller a i =
    if a == 0xFFFF900000018000
    then (if i == 11 then 1 else (if i == 10 then 8 else (if i == 9 then 2 else 0)))
    else 0xFF

search_buses-Outcome_example :
    Outcome one_controller (InBuses one_controller 2 0) (search_buses one_controller 2 0)
search_buses-Outcome_example = search_buses-Outcome one_controller 2 0
