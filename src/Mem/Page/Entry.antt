-- ===== src/Mem/Page/Entry.antt =====
-- The bits of a page table entry of src/mem/page.c: the frame number in bits 12 to 51 and the
-- PRESENT bit.
use lios.Prelude.{
  ℕ, ◌+◌, ◌-◌, ◌*◌, ◌/◌, ◌%◌, ◌^◌, ◌<◌, ◌≡◌, arith, Bool, true, false, ◌==◌, bit_and, bit_or,
  not_u64, bit_and_fields, bit_or_fields, bit_and_mask, bit_and-digit, bit_or-digit, bit_and-lt,
  bit_or-lt, bit_and-zero, bit_or-zero, zero-bit_or, ◌∙◌, ap, ap₂,
}
use lios.Mem.Page.{
  set_flag, unset_flag, query_flag, get_addr, set_addr, linked, present, writable, user, addr_mask,
}

abbrev pub frame : ℕ → ℕ
frame e = e / 4096 % 2 ^ 40

-- A word cut at bit 12.
cut : (e : ℕ) → e ≡ e / 4096 * 2 ^ 12 + e % 4096
cut e = omega arith

addr_bits : (e : ℕ) → bit_and e addr_mask ≡ frame e * 4096
addr_bits e =
    ap (λ x. bit_and x addr_mask) (cut e)
    ∙ bit_and_fields 12 (e / 4096) (e % 4096) (2 ^ 40 - 1) 0 (omega arith) (omega arith)
    ∙ omega (arith, bit_and_mask 40 (e / 4096), bit_and-zero (e % 4096))

pad : (f : ℕ) → f ≡ 0 * 2 ^ 12 + f
pad f = omega arith

pub get_addr-frame : (e : ℕ) → get_addr e ≡ frame e * 4096
unfolding get_addr
get_addr-frame e = addr_bits e

set_flag-parts : (e f : ℕ) → f < 4096 → set_flag e f ≡ e / 4096 * 4096 + bit_or (e % 4096) f
unfolding set_flag
set_flag-parts e f h =
    ap₂ bit_or (cut e) (pad f)
    ∙ bit_or_fields 12 (e / 4096) (e % 4096) 0 f (omega arith) h
    ∙ omega (arith, bit_or-zero (e / 4096))

frame-set_flag : (e f : ℕ) → f < 4096 → frame (set_flag e f) ≡ frame e
frame-set_flag e f h =
    omega (arith, set_flag-parts e f h, bit_or-lt 12 (e % 4096) f (omega arith) h)

frame-unset_flag : (e : ℕ) → frame (unset_flag e user) ≡ frame e
unfolding unset_flag
frame-unset_flag e =
    ap frame (
      ap (λ x. bit_and x (not_u64 user)) (cut e)
      ∙ bit_and_fields 12 (e / 4096) (e % 4096) (2 ^ 52 - 1) 4091 (omega arith) (omega arith))
    ∙ omega (arith, bit_and_mask 52 (e / 4096), bit_and-lt 12 (e % 4096) 4091 (omega arith))

-- The address bits of the entry are cleared, whatever they were.
cleared : (e : ℕ) → frame (bit_and e (not_u64 addr_mask)) ≡ 0
cleared e =
    ap frame (
      ap (λ x. bit_and x (not_u64 addr_mask)) (cut e)
      ∙ bit_and_fields 12 (e / 4096) (e % 4096) ((2 ^ 12 - 1) * 2 ^ 40) 4095 (omega arith)
          (omega arith)
      ∙ ap (λ x. x * 2 ^ 12 + bit_and (e % 4096) 4095)
          (ap (λ x. bit_and x ((2 ^ 12 - 1) * 2 ^ 40)) high_cut
            ∙ bit_and_fields 40 (e / 4096 / 2 ^ 40) (e / 4096 % 2 ^ 40) (2 ^ 12 - 1) 0 (omega arith)
                (omega arith)))
    ∙ omega (arith, bit_and-zero (e / 4096 % 2 ^ 40), bit_and-lt 12 (e % 4096) 4095 (omega arith))
  where
    high_cut : e / 4096 ≡ e / 4096 / 2 ^ 40 * 2 ^ 40 + e / 4096 % 2 ^ 40
    high_cut = omega arith

-- `|` with an address below 2 ^ 52, aligned to a page, where the entry's address bits are clear.
or_addr : (x f : ℕ) → frame x ≡ 0 → f < 2 ^ 40 → frame (bit_or x (f * 4096)) ≡ f
or_addr x f e h =
    ap frame (
      ap₂ bit_or (cut x) (omega arith)
      ∙ bit_or_fields 12 (x / 4096) (x % 4096) f 0 (omega arith) (omega arith)
      ∙ ap (λ y. y * 2 ^ 12 + bit_or (x % 4096) 0)
          (ap₂ bit_or high_cut (omega arith)
            ∙ bit_or_fields 40 (x / 4096 / 2 ^ 40) 0 0 f (omega arith) h))
    ∙ omega (arith, zero-bit_or f, bit_or-lt 12 (x % 4096) 0 (omega arith) (omega arith))
  where
    high_cut : x / 4096 ≡ x / 4096 / 2 ^ 40 * 2 ^ 40 + 0
    high_cut = omega (arith, e)

frame-set_addr : (e a : ℕ) → frame (set_addr e a) ≡ frame a
unfolding set_addr
frame-set_addr e a =
    ap (λ x. frame (bit_or (bit_and e (not_u64 addr_mask)) x)) (addr_bits a)
    ∙ or_addr (bit_and e (not_u64 addr_mask)) (frame a) (cleared e) (omega arith)

pub frame-linked : (e phys : ℕ) (kernel : Bool) → frame (linked e phys kernel) ≡ frame phys
unfolding linked
frame-linked e phys true = ground (
  arith,
  frame-unset_flag (set_flag (set_flag (set_addr e phys) present) writable),
  frame-set_flag (set_flag (set_addr e phys) present) writable,
  frame-set_flag (set_addr e phys) present,
  frame-set_addr e phys,
)
frame-linked e phys false = ground (
  arith,
  frame-set_flag (set_flag (set_flag (set_addr e phys) present) writable) user,
  frame-set_flag (set_flag (set_addr e phys) present) writable,
  frame-set_flag (set_addr e phys) present,
  frame-set_addr e phys,
)

pub query_flag-present : (e : ℕ) → query_flag e present ≡ (e % 2 == 1)
unfolding query_flag
query_flag-present e = ap (λ x. x == 1) (bit_and_mask 1 e)

pub linked-present : (e phys : ℕ) (kernel : Bool) → query_flag (linked e phys kernel) present ≡ true
linked-present e phys kernel = query_flag-present _ ∙ ap (λ x. x == 1) (low kernel)
  where
    low : (k : Bool) → linked e phys k % 2 ≡ 1
    low true =
        unfold linked set_flag unset_flag in
        omega (
          arith,
          bit_and-digit (bit_or (bit_or (set_addr e phys) present) writable) (not_u64 user),
          bit_or-digit (bit_or (set_addr e phys) present) writable,
          bit_or-digit (set_addr e phys) present,
        )
    low false =
        unfold linked set_flag in
        omega (
          arith,
          bit_or-digit (bit_or (bit_or (set_addr e phys) present) writable) user,
          bit_or-digit (bit_or (set_addr e phys) present) writable,
          bit_or-digit (set_addr e phys) present,
        )
