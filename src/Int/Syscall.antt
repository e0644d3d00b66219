-- ===== src/Int/Syscall.antt =====
-- The system calls of src/int/syscall.c. A read waits until the recording ends: the keys that arrive
-- meanwhile are a parameter, the recording that `keyboard_get_recording` then returns. User memory maps
-- an address to a byte; the characters sent to the console are a list, the latest last.
pub mod ReadWrite
use lios.Prelude.{
  ℕ, zero, suc, ◌+◌, ◌-◌, ◌*◌, ◌%◌, ◌^◌, Bool, true, false, ltb, ◌==◌, if◌then◌else◌, List, [], ◌∷◌,
  ◌++◌, length, get_or,
}
use lios.Util.Const.{codes}
use lios.Util.Misc.{Memory, memset, poke}

pub min : ℕ → ℕ → ℕ
min a b = if ltb a b then a else b

pub record InterruptData : Type 0 where
  pub rax : ℕ
  pub rdi : ℕ
  pub rsi : ℕ
  pub rdx : ℕ

pub record User : Type 0 where
  pub mem : Memory
  pub console : List ℕ

-- `memcpy` from the recording's own buffer, which user memory does not hold.
pub copy_in : (dest rounds i : ℕ) → List ℕ → Memory → Memory
copy_in dest zero i src m = m
copy_in dest (suc n) i src m = copy_in dest n (i + 1) src (poke m (dest + i) (get_or src i 0))

unfoldable pub sys_read : InterruptData → (pressed : List ℕ) (len : ℕ) → User → User
sys_read regs pressed len u =
    if regs.rdi == 0
    then record u {
      mem = copy_in regs.rsi (min regs.rdx len) 0 pressed (memset regs.rsi 0 regs.rdx u.mem);
    }
    else u

-- `for (i = 0; i < size; i++) if (buffer[i] != 0) vga_putchar(buffer[i]);`
unfoldable pub write_loop : (rounds p : ℕ) → Memory → List ℕ
write_loop zero p m = []
write_loop (suc n) p m = let rest = write_loop n (p + 1) m in if m p == 0 then rest else m p ∷ rest

unfoldable pub sys_write : InterruptData → User → User
sys_write regs u =
    if regs.rdi == 1
    then record u { console = u.console ++ write_loop regs.rdx regs.rsi u.mem }
    else u

pub syscall_routine : InterruptData → (pressed : List ℕ) (len : ℕ) → User → User
syscall_routine regs pressed len u =
    if regs.rax == 0
    then sys_read regs pressed len u
    else (if regs.rax == 1
        then sys_write regs u
        else (if regs.rax == 999
            then record u { console = u.console ++ codes "Hello world!" ++ 10 ∷ [] }
            else u))
