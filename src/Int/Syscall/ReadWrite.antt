-- ===== src/Int/Syscall/ReadWrite.antt =====
-- What a read leaves in the buffer of the caller, in src/int/syscall.c.
use lios.Prelude.{
  ℕ, zero, suc, ◌+◌, ◌≤◌, ◌<◌, ◌≡◌, refl, arith, ◌⊎◌, inl, inr, List, get_or, ltb, if◌then◌else◌,
  ◌∙◌, ℕ_discrete, Bool-cases,
}
use lios.Util.Misc.{Memory, memset, poke}
use lios.Util.Misc.Copy.{memset_lem}
use lios.Int.Syscall.{InterruptData, User, min, copy_in, sys_read, syscall_routine}

copy_in_outside :
    (d n i : ℕ) (src : List ℕ) (m : Memory) (x : ℕ)
    → (x < d + i) ⊎ (d + i + n ≤ x)
    → copy_in d n i src m x ≡ m x
unfolding copy_in
copy_in_outside d zero i src m x h = refl
copy_in_outside d (suc n) i src m x h =
    ground (arith, copy_in_outside d n (i + 1) src (poke m (d + i) (get_or src i 0)) x)

copy_in_inside :
    (d n i : ℕ) (src : List ℕ) (m : Memory) (j : ℕ)
    → i ≤ j
    → j < i + n
    → copy_in d n i src m (d + j) ≡ get_or src j 0
unfolding copy_in
copy_in_inside d zero i src m j h k = absurd (omega arith)
copy_in_inside d (suc n) i src m j h k = elim (ℕ_discrete i j) [
  | yes e ↦
      copy_in_outside d n (i + 1) src (poke m (d + i) (get_or src i 0)) (d + j) (omega arith)
      ∙ ground arith
  | no e ↦
      copy_in_inside d n (i + 1) src (poke m (d + i) (get_or src i 0)) j (omega arith) (omega arith)
]

-- The read call from standard input: the caller's buffer begins with the recorded bytes, as many as
-- fit its size, the rest of its size is zero, and no other memory and nothing on the console changes.
pub syscall_routine-read :
    (regs : InterruptData) (pressed : List ℕ) (len : ℕ) (u : User)
    → regs.rax ≡ 0
    → regs.rdi ≡ 0
    → let u' = syscall_routine regs pressed len u in
      ((j : ℕ)
        → j < regs.rdx
        → u'.mem (regs.rsi + j) ≡ (if ltb j len then get_or pressed j 0 else 0))
      × ((x : ℕ) → (x < regs.rsi) ⊎ (regs.rsi + regs.rdx ≤ x) → u'.mem x ≡ u.mem x)
      × (u'.console ≡ u.console)
unfolding syscall_routine sys_read min
syscall_routine-read regs pressed len u a b =
    rw (a, b)
      (
        λ j h. elim (Bool-cases (ltb j len)) [
          | inl short ↦
              rw short (copy_in_inside regs.rsi n 0 pressed zeroed j (omega arith) (ground arith))
          | inr long ↦ rw long (
              copy_in_outside regs.rsi n 0 pressed zeroed (regs.rsi + j) (ground arith)
              ∙ (memset_lem regs.rsi 0 regs.rdx u.mem).0 (regs.rsi + j) (omega arith) (omega arith))
        ],
        λ x h.
            copy_in_outside regs.rsi n 0 pressed zeroed x (outside x h)
            ∙ (memset_lem regs.rsi 0 regs.rdx u.mem).1 x h,
        refl,
      )
  where
    n : ℕ
    n = min regs.rdx len

    zeroed : Memory
    zeroed = memset regs.rsi 0 regs.rdx u.mem

    n-le : n ≤ regs.rdx
    n-le = ground arith

    outside :
        (x : ℕ)
        → (x < regs.rsi) ⊎ (regs.rsi + regs.rdx ≤ x)
        → (x < regs.rsi + 0) ⊎ (regs.rsi + 0 + n ≤ x)
    outside x h = omega (arith, n-le)
