-- ===== src/Checks/Programs.antt =====
-- Runs of the models of src/proc and of src/util/hexdump.c on concrete inputs.
use lios.Prelude.{
  ℕ, ◌+◌, ◌≡◌, refl, arith, List, [], ◌∷◌, some, get_or, leb, if◌then◌else◌, ◌-◌, inr,
}
use lios.Util.KMath.{ceil_u64_div}
use lios.Util.Misc.{Memory}
use lios.Proc.Elf.{Machine, file, load_segments, load_segment, map_pages, place_segment, with_page}
use lios.Proc.Elf.Placing.{AllFit, AllLoaded, Outside, headers}
use lios.Proc.Elf.Loading.{load_segments-Loaded}

abbrev machine : Machine
machine = record {
  State = ℕ;
  vcalloc = λ size s. some (0x10000, s);
  vfree = λ a s. some s;
  pmm_alloc_high = λ s. some (s, s + 4096);
  page_map = λ virt phys kernel s. some s;
  frame_bytes = λ s frame offset. 0xAA;
}

-- At 0x10000 a table of one program header, for three bytes at offset 56 that go to 0x400000, where the
-- segment has five.
abbrev table : List ℕ
table =
    1 ∷ 0 ∷ 0 ∷ 0 ∷ 0 ∷ 0 ∷ 0 ∷ 0 ∷ 56 ∷ 0 ∷ 0 ∷ 0 ∷ 0 ∷ 0 ∷ 0 ∷ 0 ∷ 0 ∷ 0 ∷ 0x40 ∷ 0 ∷ 0 ∷ 0 ∷ 0
    ∷ 0 ∷ 0 ∷ 0 ∷ 0 ∷ 0 ∷ 0 ∷ 0 ∷ 0 ∷ 0 ∷ 3 ∷ 0 ∷ 0 ∷ 0 ∷ 0 ∷ 0 ∷ 0 ∷ 0 ∷ 5 ∷ 0 ∷ 0 ∷ 0 ∷ 0 ∷ 0 ∷ 0
    ∷ 0 ∷ 0 ∷ 0 ∷ 0 ∷ 0 ∷ 0 ∷ 0 ∷ 0 ∷ 0 ∷ 7 ∷ 8 ∷ 9 ∷ []

abbrev memory : Memory
memory x = if leb 0x10000 x then get_or table (x - 0x10000) 0 else 0

one_header : headers (file memory 0x10000) 1 0 ≡ 0 ∷ []
unfolding headers
one_header = refl

-- The page of the segment holds the three bytes, two zeros, and what the frame held.
abbrev after : Memory
after = place_segment (file memory 0x10000) 0x10000 0 (with_page 0x400000 (λ offset. 0xAA) memory)

loaded :
    load_segments machine 1 0x10000 0 (memory, 0)
    ≡ some (record { vaddr = 0x400000; num_pages = 1; pages = 0 ∷ [] } ∷ [], (after, 4096))
unfolding load_segments load_segment map_pages ceil_u64_div
loaded = refl

fits : AllFit (file memory 0x10000) 0x10000 59 (headers (file memory 0x10000) 1 0)
unfolding ceil_u64_div
fits = rw one_header (
  record {
    inside = omega arith;
    sizes = omega arith;
    within = omega arith;
    top = omega arith;
    apart = inr (omega arith);
  },
  tt,
  tt,
)

load_segments-Loaded_example :
    AllLoaded (file memory 0x10000) after (headers (file memory 0x10000) 1 0)
    × ((x : ℕ)
        → Outside (file memory 0x10000) x (headers (file memory 0x10000) 1 0)
        → after x ≡ memory x)
load_segments-Loaded_example =
    load_segments-Loaded machine 0x10000 59 1 0 memory 0
      (record { vaddr = 0x400000; num_pages = 1; pages = 0 ∷ [] } ∷ []) after 4096 loaded
      (omega arith) (omega arith) fits
