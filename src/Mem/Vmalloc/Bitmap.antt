-- ===== src/Mem/Vmalloc/Bitmap.antt =====
-- The bitmap of a node of src/mem/vmalloc.c: which sections `mark_bitmap` marks.
use lios.Prelude.{
  ℕ, zero, suc, ◌+◌, ◌-◌, ◌*◌, ◌/◌, ◌%◌, ◌^◌, ◌≤◌, ◌<◌, ◌≡◌, refl, arith, Bool, true, false, not,
  ◌&&◌, ltb, leb, ◌==◌, if◌then◌else◌, bit_and, bit_or, sub_u64, u32, u64, none, some, bit, bit-div,
  bit-ones, bit-zero, bit-set, bit-clear, bit_or-lt, bit_and-lt, bit_and_mask, ◌∙◌, ap, sym,
  Bool-cases, inl, inr, ==_iff,
}
use native.Mathlib.Nat.{pow-le-pow_right, mod-eq_of_lt}
use lios.Mem.Vmalloc.{
  poke, set_bit, unset_bit, query_bit, is_used, mark_bits, fill_bytes, all_rounds, mark_sections,
  mark_bitmap,
}

abbrev pub Bytes : (ℕ → ℕ) → Type 0
Bytes mem = (x : ℕ) → mem x < 256

-- The sections from `lo` up to `hi` have the mark, the others are as before.
abbrev pub Marked : Bool → (lo hi : ℕ) → (mem mem' : ℕ → ℕ) → Type 0
Marked used lo hi mem mem' =
    Bytes mem' × ((q : ℕ) → is_used mem' q ≡ (if leb lo q && ltb q hi then used else is_used mem q))

pub is_used-bit : (mem : ℕ → ℕ) (q : ℕ) → is_used mem q ≡ not (bit (7 - q % 8) (mem (q / 8)) == 0)
unfolding is_used query_bit
is_used-bit mem q =
    ap (λ t. not (t == 0))
      (bit_and_mask 1 (mem (q / 8) / 2 ^ (7 - q % 8)) ∙ sym (bit-div (7 - q % 8) (mem (q / 8))))

power-small : (p : ℕ) → 2 ^ (7 - p) < 256
power-small p =
    let top : 2 ^ (7 - p) ≤ 2 ^ 7 =
      pow-le-pow_right {n = 2} (omega arith) {i = 7 - p} {j = 7} (omega arith) in
    omega arith

set_bit-bit : (k n p : ℕ) → n < 256 → bit k (set_bit n p) ≡ (if k == 7 - p then 1 else bit k n)
unfolding set_bit
set_bit-bit k n p small =
    let one : 1 * 2 ^ (7 - p) ≡ 2 ^ (7 - p) = omega arith in
    let fits : bit_or n (2 ^ (7 - p)) < 2 ^ 8 = bit_or-lt 8 n (2 ^ (7 - p)) small (power-small p) in
    rw (one, mod-eq_of_lt fits) (bit-set k (7 - p) n)

unset_bit-bit : (k n p : ℕ) → n < 256 → bit k (unset_bit n p) ≡ (if k == 7 - p then 0 else bit k n)
unfolding unset_bit
unset_bit-bit k n p small =
    let one : 1 * 2 ^ (7 - p) ≡ 2 ^ (7 - p) = omega arith in
    let fits : bit_and n (2 ^ 64 - 1 - 2 ^ (7 - p)) < 2 ^ 8 =
      bit_and-lt 8 n (2 ^ 64 - 1 - 2 ^ (7 - p)) small in
    rw (one, mod-eq_of_lt fits) (bit-clear k (7 - p) 64 n (omega arith) (omega arith))

set_bit-lt : (n p : ℕ) → set_bit n p < 256
unfolding set_bit
set_bit-lt n p = omega arith

unset_bit-lt : (n p : ℕ) → unset_bit n p < 256
unfolding unset_bit
unset_bit-lt n p = omega arith

-- One bit of one byte.
mark_one :
    (mem : ℕ → ℕ) (i index : ℕ) (used : Bool)
    → Bytes mem
    → i < 8
    → Marked used
        (8 * index + i)
        (8 * index + i + 1)
        mem
        (poke mem index (if used then set_bit (mem index) i else unset_bit (mem index) i))
mark_one mem i index true b h = (
  λ x. bytes x,
  λ q.
      is_used-bit (poke mem index (set_bit (mem index) i)) q
      ∙ ground (arith, is_used-bit mem q, set_bit-bit (7 - q % 8) (mem index) i (b index)),
)
  where
    bytes : (x : ℕ) → poke mem index (set_bit (mem index) i) x < 256
    bytes x = ground (arith, b x, set_bit-lt (mem index) i)
mark_one mem i index false b h = (
  λ x. bytes x,
  λ q.
      is_used-bit (poke mem index (unset_bit (mem index) i)) q
      ∙ ground (arith, is_used-bit mem q, unset_bit-bit (7 - q % 8) (mem index) i (b index)),
)
  where
    bytes : (x : ℕ) → poke mem index (unset_bit (mem index) i) x < 256
    bytes x = ground (arith, b x, unset_bit-lt (mem index) i)

fill_one :
    (mem : ℕ → ℕ) (i : ℕ) (used : Bool)
    → Bytes mem
    → Marked used (8 * i) (8 * i + 8) mem (poke mem i (if used then 0xFF else 0))
fill_one mem i true b = (
  λ x. ground (arith, b x),
  λ q. is_used-bit (poke mem i 0xFF) q ∙ ground (arith, is_used-bit mem q, bit-ones (7 - q % 8) 8),
)
fill_one mem i false b = (
  λ x. ground (arith, b x),
  λ q. is_used-bit (poke mem i 0) q ∙ ground (arith, is_used-bit mem q, bit-zero (7 - q % 8)),
)

Marked-none : (used : Bool) (lo : ℕ) (mem : ℕ → ℕ) → Bytes mem → Marked used lo lo mem mem
Marked-none used lo mem b = (b, λ q. ground arith)

Marked-join :
    (used : Bool) (lo mid hi : ℕ) (m m' m'' : ℕ → ℕ)
    → lo ≤ mid
    → mid ≤ hi
    → Marked used lo mid m m'
    → Marked used mid hi m' m''
    → Marked used lo hi m m''
Marked-join used lo mid hi m m' m'' a b (_, p) (bytes, r) = (bytes, λ q. ground (arith, p q, r q))

Marked-move :
    (used : Bool) (lo hi lo' hi' : ℕ) (m m' : ℕ → ℕ)
    → lo ≡ lo'
    → hi ≡ hi'
    → Marked used lo hi m m'
    → Marked used lo' hi' m m'
Marked-move used lo hi lo' hi' m m' e f (bytes, p) = (bytes, λ q. ground (arith, p q))

mark_bits-Marked :
    (rounds i index : ℕ) (used : Bool) (mem : ℕ → ℕ)
    → Bytes mem
    → i + rounds ≤ 8
    → Marked used (8 * index + i) (8 * index + i + rounds) mem (mark_bits rounds i index used mem)
unfolding mark_bits
mark_bits-Marked zero i index used mem b h =
    let lo = 8 * index + i in
    Marked-move used lo lo lo (lo + 0) mem mem refl (omega arith) (Marked-none used lo mem b)
mark_bits-Marked (suc n) i index used mem b h =
    let lo = 8 * index + i in
    let one = mark_one mem i index used b (omega arith) in
    let m' = poke mem index (if used then set_bit (mem index) i else unset_bit (mem index) i) in
    let rest = mark_bits-Marked n (i + 1) index used m' one.0 (omega arith) in
    let m'' = mark_bits n (i + 1) index used m' in
    Marked-join used lo (lo + 1) (lo + suc n) mem m' m'' (omega arith) (omega arith) one (
      Marked-move used (8 * index + (i + 1)) (8 * index + (i + 1) + n) (lo + 1) (lo + suc n) m' m''
        (omega arith) (omega arith) rest)

fill_bytes_more :
    (n i end : ℕ) (used : Bool) (mem : ℕ → ℕ)
    → i < end
    → end < 2 ^ 32
    → fill_bytes (suc n) i end used mem
      ≡ fill_bytes n (i + 1) end used (poke mem i (if used then 0xFF else 0))
unfolding fill_bytes
fill_bytes_more n i end used mem o h =
    let more : ltb i end ≡ true = ground arith in
    let step : u32 (i + 1) ≡ i + 1 = omega arith in rw (more, step, fill_bytes) refl

-- Within the range of its counter the loop ends.
fill_bytes-Marked :
    (fuel i end : ℕ) (used : Bool) (mem : ℕ → ℕ)
    → Bytes mem
    → i ≤ end
    → end < 2 ^ 32
    → end < i + fuel
    → (mem' : ℕ → ℕ) × (fill_bytes fuel i end used mem ≡ some mem')
      × Marked used (8 * i) (8 * end) mem mem'
unfolding fill_bytes
fill_bytes-Marked zero i end used mem b o h f = absurd (omega arith)
fill_bytes-Marked (suc n) i end used mem b o h f = elim (Bool-cases (ltb i end)) [
  | inl more ↦
      let below : i < end = ground arith in
      let one = fill_one mem i used b in
      let m' = poke mem i (if used then 0xFF else 0) in
      let (m'', e, rest) =
        fill_bytes-Marked n (i + 1) end used m' one.0 (omega arith) h (omega arith) in
      (
        m'',
        fill_bytes_more n i end used mem below h ∙ e,
        Marked-join used (8 * i) (8 * i + 8) (8 * end) mem m' m'' (omega arith) (omega arith) one (
            Marked-move used (8 * (i + 1)) (8 * end) (8 * i + 8) (8 * end) m' m'' (omega arith) refl
              rest),
      )
  | inr done ↦
      let same : i ≡ end = ground arith in
      (
        mem,
        rw (done, fill_bytes) refl,
        Marked-move used (8 * i) (8 * i) (8 * i) (8 * end) mem mem refl (ap (λ t. 8 * t) same)
            (Marked-none used (8 * i) mem b),
      )
]

-- A bound that the counter does not reach.
fill_bytes_endless :
    (fuel i end : ℕ) (used : Bool) (mem : ℕ → ℕ)
    → i < 2 ^ 32
    → 2 ^ 32 ≤ end
    → fill_bytes fuel i end used mem ≡ none
unfolding fill_bytes
fill_bytes_endless zero i end used mem h k = refl
fill_bytes_endless (suc n) i end used mem h k =
    let more : ltb i end ≡ true = ground arith in
    rw (more, fill_bytes)
      (fill_bytes_endless n (u32 (i + 1)) end used (poke mem i (if used then 0xFF else 0))
        (omega arith) k)

-- The two cases of `mark_bitmap`, from section `lo` to section `last`, both included.
within_byte :
    (lo last : ℕ) (used : Bool) (mem : ℕ → ℕ)
    → Bytes mem
    → lo ≤ last
    → lo / 8 ≡ last / 8
    → Marked used lo (last + 1) mem (mark_bits (last % 8 + 1 - lo % 8) (lo % 8) (lo / 8) used mem)
within_byte lo last used mem b h same =
    Marked-move used _ _ lo (last + 1) mem _ (omega arith) (omega arith)
      (mark_bits-Marked (last % 8 + 1 - lo % 8) (lo % 8) (lo / 8) used mem b (omega arith))

across_bytes :
    (lo last : ℕ) (used : Bool) (mem : ℕ → ℕ)
    → Bytes mem
    → lo / 8 < last / 8
    → last < 2 ^ 35
    → (mem' : ℕ → ℕ) × (fill_bytes all_rounds
          (u32 (lo / 8 + 1))
          (last / 8)
          used
          (mark_bits (8 - lo % 8) (lo % 8) (lo / 8) used mem)
        ≡ some mem')
      × Marked used lo (last + 1) mem (mark_bits (last % 8 + 1) 0 (last / 8) used mem')
across_bytes lo last used mem b h small =
    let m1 = mark_bits (8 - lo % 8) (lo % 8) (lo / 8) used mem in
    let from = 8 * (lo / 8 + 1) in
    let to = 8 * (last / 8) in
    let first : Marked used lo from mem m1 =
      Marked-move used _ _ lo from mem m1 (omega arith) (omega arith)
        (mark_bits-Marked (8 - lo % 8) (lo % 8) (lo / 8) used mem b (omega arith)) in
    let begins : u32 (lo / 8 + 1) ≡ lo / 8 + 1 = omega arith in
    let (m2, e, middle) =
      fill_bytes-Marked all_rounds (lo / 8 + 1) (last / 8) used m1 first.0 (omega arith)
        (omega arith) (omega arith) in
    let m3 = mark_bits (last % 8 + 1) 0 (last / 8) used m2 in
    let end : Marked used to (last + 1) m2 m3 =
      Marked-move used _ _ to (last + 1) m2 m3 (omega arith) (omega arith)
        (mark_bits-Marked (last % 8 + 1) 0 (last / 8) used m2 middle.0 (omega arith)) in
    (
      m2,
      ap (λ i. fill_bytes all_rounds i (last / 8) used m1) begins ∙ e,
      Marked-join used lo from (last + 1) mem m1 m3 (omega arith) (omega arith) first
          (Marked-join used from to (last + 1) m1 m2 m3 (omega arith) (omega arith) middle end),
    )

mark_sections-Marked :
    (start last : ℕ) (used : Bool) (mem : ℕ → ℕ)
    → Bytes mem
    → start ≤ last
    → last < 2 ^ 35
    → (mem' : ℕ → ℕ) × (mark_sections start last used mem ≡ some mem')
      × Marked used start (last + 1) mem mem'
unfolding mark_sections
mark_sections-Marked start last used mem b o small = elim (Bool-cases (start / 8 == last / 8)) [
  | inl same ↦ (
    mark_bits (last % 8 + 1 - start % 8) (start % 8) (start / 8) used mem,
    rw (same, mark_sections) refl,
    within_byte start last used mem b o ((==_iff _ _).0 same),
  )
  | inr other ↦
      let (m, e, marked) = across_bytes start last used mem b (ground arith) small in
      (mark_bits (last % 8 + 1) 0 (last / 8) used m, rw (other, mark_sections) (rw e refl), marked)
]

-- `mark_bitmap` of at least one section that ends in the first 2 ^ 35 bits of a bitmap, in a memory of
-- bytes: it returns, exactly the sections from `start` on, as many as asked, get the mark, all others keep
-- theirs, and bytes stay bytes.
pub mark_bitmap-Marked :
    (start bits : ℕ) (used : Bool) (mem : ℕ → ℕ)
    → Bytes mem
    → 0 < bits
    → start + bits ≤ 2 ^ 35
    → (mem' : ℕ → ℕ) × (mark_bitmap start bits used mem ≡ some mem')
      × Marked used start (start + bits) mem mem'
unfolding mark_bitmap
mark_bitmap-Marked start bits used mem b pos small =
    let last = start + bits - 1 in
    let last_is : sub_u64 (u64 (start + bits)) 1 ≡ last = omega arith in
    let (m, e, marked) = mark_sections-Marked start last used mem b (omega arith) (omega arith) in
    (
      m,
      ap (λ t. mark_sections start t used mem) last_is ∙ e,
      Marked-move used start (last + 1) start (start + bits) mem m refl (omega arith) marked,
    )

mark_sections_endless :
    (start last : ℕ) (used : Bool) (mem : ℕ → ℕ)
    → start / 8 < 2 ^ 32
    → 2 ^ 32 ≤ last / 8
    → mark_sections start last used mem ≡ none
unfolding mark_sections
mark_sections_endless start last used mem first far =
    let other : (start / 8 == last / 8) ≡ false = ground arith in
    let never =
      fill_bytes_endless all_rounds (u32 (start / 8 + 1)) (last / 8) used
        (mark_bits (8 - start % 8) (start % 8) (start / 8) used mem) (omega arith) far in
    rw (other, mark_sections) (rw never refl)

-- Sections from the first 2 ^ 35 bits of a bitmap to behind them: the 32-bit counter never reaches the last
-- byte, and `mark_bitmap` does not return.
pub mark_bitmap_endless :
    (start bits : ℕ) (used : Bool) (mem : ℕ → ℕ)
    → start < 2 ^ 35
    → 2 ^ 35 < start + bits
    → start + bits < 2 ^ 64
    → mark_bitmap start bits used mem ≡ none
unfolding mark_bitmap
mark_bitmap_endless start bits used mem first far top =
    ap (λ t. mark_sections start t used mem) (omega arith)
    ∙ mark_sections_endless start (start + bits - 1) used mem (omega arith) (omega arith)
