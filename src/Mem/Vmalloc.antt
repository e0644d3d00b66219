-- ===== src/Mem/Vmalloc.antt =====
-- The kernel heap of src/mem/vmalloc.c. A node is what `vmm_alloc` hands out: a header of 24 bytes,
-- then the bitmap, one bit for a section of 8 bytes, then the sections. The list of nodes is in the
-- order of the `next` pointers, from `heap_head` to `heap_tail`. `mem` are the bytes of a node behind
-- its header, of which only the bitmap is read or written here; `sizes` are the block headers, by
-- their address, apart from them. `vmm_alloc` and `vmm_free` are a parameter, where `none` is a panic.
pub mod Bitmap
pub mod Search
pub mod FirstFit
pub mod Allocation
pub mod Growth
pub mod Overrun
pub mod Release
use lios.Prelude.{
  ℕ, zero, suc, ◌+◌, ◌-◌, ◌*◌, ◌/◌, ◌%◌, ◌^◌, Bool, true, false, not, ◌&&◌, ltb, leb, ◌==◌,
  if◌then◌else◌, bit_and, bit_or, Option, none, some, List, [], ◌∷◌, ◌++◌, u8, u32, u64, sub_u64,
  not_u64, ◌<<<◌, ◌>>>◌,
}
use lios.Util.KMath.{ceil_u64_div, u64_min}
use lios.Mem.Page.{page_size}

abbrev pub section_size : ℕ
section_size = 8

abbrev pub node_header : ℕ
node_header = 24

abbrev pub block_header : ℕ
block_header = 8

pub record Node : Type 0 where
  pub addr : ℕ
  pub bitmap_size : ℕ
  pub total_size : ℕ
  pub mem : ℕ → ℕ

abbrev pub poke : (ℕ → ℕ) → ℕ → ℕ → ℕ → ℕ
poke m p v x = if x == p then v else m x

-- SET_BIT and UNSET_BIT on a byte, and QUERY_BIT: bit 0 is the highest.
unfoldable pub set_bit : (num pos : ℕ) → ℕ
set_bit num pos = u8 (bit_or num (1 <<< (7 - pos)))

unfoldable pub unset_bit : (num pos : ℕ) → ℕ
unset_bit num pos = u8 (bit_and num (not_u64 (1 <<< (7 - pos))))

unfoldable pub query_bit : (num pos : ℕ) → ℕ
query_bit num pos = bit_and (num >>> (7 - pos)) 1

-- Whether section `i` is in use.
unfoldable pub is_used : (ℕ → ℕ) → ℕ → Bool
is_used mem i = not (query_bit (mem (i / 8)) (i % 8) == 0)

-- `for (; i <= last; i++)` with the rounds left, on the bits of one byte
pub mark_bits : (rounds i index : ℕ) → Bool → (ℕ → ℕ) → ℕ → ℕ
mark_bits zero i index used mem = mem
mark_bits (suc n) i index used mem =
    mark_bits n (i + 1) index used
      (poke mem index (if used then set_bit (mem index) i else unset_bit (mem index) i))

-- `for (u32 i = ...; i < end_index; i++)`, the bytes between, whole. The counter has 32 bits, and the bound
-- 64: `none` means that the loop never ends, as it does not once it has run for every value of the counter.
unfoldable pub fill_bytes : (fuel i end_index : ℕ) → Bool → (ℕ → ℕ) → Option (ℕ → ℕ)
fill_bytes zero i end_index used mem = none
fill_bytes (suc n) i end_index used mem = elim (ltb i end_index) [
  | true ↦ fill_bytes n (u32 (i + 1)) end_index used (poke mem i (if used then 0xFF else 0))
  | false ↦ some mem
]

-- More rounds than the counter has values.
abbrev pub all_rounds : ℕ
all_rounds = 4294967297

-- The sections from `start` to `last`.
unfoldable pub mark_sections : (start last : ℕ) → Bool → (ℕ → ℕ) → Option (ℕ → ℕ)
mark_sections start last used mem = elim (start / 8 == last / 8) [
  | true ↦ some (mark_bits (last % 8 + 1 - start % 8) (start % 8) (start / 8) used mem)
  | false ↦
      elim (fill_bytes all_rounds (u32 (start / 8 + 1)) (last / 8) used
        (mark_bits (8 - start % 8) (start % 8) (start / 8) used mem)) [
          | none ↦ none
          | some mem' ↦ some (mark_bits (last % 8 + 1) 0 (last / 8) used mem')
        ]
]

unfoldable pub mark_bitmap : (start bits : ℕ) → Bool → (ℕ → ℕ) → Option (ℕ → ℕ)
mark_bitmap start bits used mem = mark_sections start (sub_u64 (u64 (start + bits)) 1) used mem

-- `*((u64 *) (mem + i)) == 0`
unfoldable pub zero_word : (ℕ → ℕ) → ℕ → Bool
zero_word mem i =
    mem i == 0
    && (mem (i + 1) == 0
        && (mem (i + 2) == 0
            && (mem (i + 3) == 0
                && (mem (i + 4) == 0
                    && (mem (i + 5) == 0 && (mem (i + 6) == 0 && mem (i + 7) == 0))))))

pub data Found : Type 0 where
  found_at : ℕ → Found
  no_room stuck : Found

-- The loop of `vmalloc` over the sections of a node, at section `i`, where `found` sections up to it
-- are free, from `start` on.
unfoldable pub search : (fuel needed size : ℕ) (mem : ℕ → ℕ) (i found start : ℕ) → Found
search zero needed size mem i found start = stuck
search (suc fuel) needed size mem i found start =
    let used = is_used mem i in
    let start' = if used then start else (if found == 0 then i else start) in
    let skip =
      not used
      && (i % 8 == 0
          && (ltb i (sub_u64 size 64) && (ltb (found + 64) needed && zero_word mem (i / 8)))) in
    let found' = if used then 0 else (if skip then found + 64 else found + 1) in
    let rest = search fuel needed size mem (if skip then i + 64 else i + 1) found' start' in
    if not (ltb i size)
    then no_room
    else (if skip then rest else (if found' == needed then found_at start' else rest))

-- The address of section `i` of a node.
unfoldable pub section_addr : Node → ℕ → ℕ
section_addr n i = n.addr + node_header + ceil_u64_div n.bitmap_size 8 + i * section_size

-- What a walk over the nodes comes to; `endless` means that it never returns.
pub data Walk (A : Type 0) : Type 0 where
  hit : A → Walk A
  missed endless : Walk A

-- The allocation of `needed` sections in the first node that has them: the nodes, and the address of
-- the first section.
unfoldable pub alloc_in : (needed : ℕ) → List Node → Walk (List Node × ℕ)
alloc_in needed [] = missed
alloc_in needed (n ∷ ns) = elim (search (n.bitmap_size + 1) needed n.bitmap_size n.mem 0 0 0) [
  | found_at start ↦ elim (mark_bitmap start needed true n.mem) [
    | none ↦ endless
    | some mem' ↦ hit (record n { mem = mem' } ∷ ns, section_addr n start)
  ]
  | no_room ↦ elim (alloc_in needed ns) [
    | missed ↦ missed
    | endless ↦ endless
    | hit (ns', a) ↦ hit (n ∷ ns', a)
  ]
  | stuck ↦ endless
]

-- The virtual page allocator.
pub record Pages : Type 1 where
  pub Pool : Type 0
  pub vmm_alloc : ℕ → Pool → Option (ℕ × Pool)
  pub vmm_free : ℕ → Pool → Option Pool

unfoldable pub block_total : ℕ → ℕ
block_total wanted_sections =
    u64 (u64 (wanted_sections * section_size) + ceil_u64_div wanted_sections 8)

unfoldable pub pages_of : ℕ → ℕ
pages_of wanted_sections = ceil_u64_div (block_total wanted_sections) page_size

-- `for (i = 0; i < bitmap_size_bytes; i++) mem[i] = 0`
pub clear_bytes : (rounds i : ℕ) → (ℕ → ℕ) → ℕ → ℕ
clear_bytes zero i mem = mem
clear_bytes (suc n) i mem = clear_bytes n (i + 1) (poke mem i 0)

-- The node of a new block, where `old` is what its pages hold.
unfoldable pub new_node : (addr wanted_sections : ℕ) → (ℕ → ℕ) → Node
new_node addr wanted_sections old = record {
  addr = addr;
  bitmap_size = wanted_sections;
  total_size = block_total wanted_sections;
  mem = clear_bytes (ceil_u64_div wanted_sections 8) 0 old;
}

-- No byte of the bitmap is set.
pub is_clear : (rounds i : ℕ) → (ℕ → ℕ) → Bool
is_clear zero i mem = true
is_clear (suc n) i mem = mem i == 0 && is_clear n (i + 1) mem

module _ (P : Pages) (old : ℕ → ℕ → ℕ) where
  open P use {Pool, vmm_alloc, vmm_free}

  pub record Heap : Type 0 where
    pub nodes : List Node
    pub sizes : ℕ → ℕ
    pub pool : Pool

  -- `out_of_fuel` means that the call does not return.
  pub data Result (A : Type 0) : Type 0 where
    ok : A → Result A
    panic out_of_fuel : Result A

  infixl 5 ◌>>=◌
  abbrev pub ◌>>=◌ : {A B : Type 0} → Result A → (A → Result B) → Result B
  ok a >>= f = f a
  panic >>= f = panic
  out_of_fuel >>= f = out_of_fuel

  -- The block goes behind `heap_tail`.
  abbrev pub with_block : ℕ → Heap → Option (ℕ × Pool) → Result Heap
  with_block wanted_sections h none = panic
  with_block wanted_sections h (some (addr, pool')) =
      ok (record h {
        nodes = h.nodes ++ new_node addr wanted_sections (old addr) ∷ [];
        pool = pool';
      })

  pub add_block : ℕ → Heap → Result Heap
  add_block wanted_sections h =
      with_block wanted_sections h (vmm_alloc (pages_of wanted_sections) h.pool)

  unfoldable vmalloc_init : Heap → Result Heap
  vmalloc_init h = add_block 504 h

  -- The result of the search: what `vmalloc` returns, or what it does if there is no room.
  abbrev pub answer :
      (needed : ℕ) → Heap → Result (Heap × ℕ) → Walk (List Node × ℕ) → Result (Heap × ℕ)
  answer needed h otherwise missed = otherwise
  answer needed h otherwise endless = out_of_fuel
  answer needed h otherwise (hit (nodes', a)) =
      ok (record h { nodes = nodes'; sizes = poke h.sizes a needed }, a + block_header)

  -- It calls itself again after a new block, with the size that the header is added to.
  pub vmalloc : (fuel size : ℕ) → Heap → Result (Heap × ℕ)
  vmalloc zero size h = out_of_fuel
  vmalloc (suc fuel) size h =
      let size' = u64 (size + block_header) in
      let needed = ceil_u64_div size' section_size in
      let again = add_block (u64 (ceil_u64_div size' 4032 * 504)) h >>= vmalloc fuel size' in
      answer needed h again (alloc_in needed h.nodes)
