-- ===== src/Proc/Elf.antt =====
-- The program loader of src/proc/elf.c. Memory maps a virtual address to a byte: the file buffer and the
-- segments lie in it. The heap and the paging calls are a parameter, `Machine`, whose state they change;
-- `none` is a panic. A page that is mapped holds what its frame holds, so mapping replaces the contents of
-- the page. Memory that is not mapped is not told apart. The arrays of page frames and of segments are
-- lists. The messages and the dumps are left out.
pub mod Placing
pub mod Loading
use lios.Prelude.{
  ℕ, zero, suc, ◌+◌, ◌-◌, ◌*◌, ◌/◌, ◌%◌, Bool, true, false, not, ◌&&◌, ltb, leb, ◌==◌,
  if◌then◌else◌, Option, none, some, List, [], ◌∷◌, u32, u64, sub_u64,
}
use lios.Util.KMath.{ceil_u64_div}
use lios.Util.Misc.{Memory, memcpy, memset}
use lios.Mem.Page.{page_size, ◌>>=◌}
use lios.File.Fat32.{Block, Fat32, Result, ok, panic, stuck, le_u16, le_u32, fat32_open, fat32_read}
use lios.File.Gpt.{le_u64}

abbrev pub stack_size : ℕ
stack_size = 0x800000

abbrev pub lower_half_mem_max : ℕ
lower_half_mem_max = 0x800000000000

pub record Machine : Type 1 where
  pub State : Type 0
  pub vcalloc : ℕ → State → Option (ℕ × State)
  pub vfree : ℕ → State → Option State
  pub pmm_alloc_high : State → Option (ℕ × State)
  pub page_map : (virt phys : ℕ) (kernel : Bool) → State → Option State
  pub frame_bytes : State → (frame offset : ℕ) → ℕ

pub record Segment : Type 0 where
  pub vaddr : ℕ
  pub num_pages : ℕ
  pub pages : List ℕ

pub record ElfContext : Type 0 where
  pub file_buffer : ℕ
  pub proc_stack_pages : List ℕ
  pub segments : List Segment
  pub entry_point : ℕ
  pub rbp_rsp : ℕ
  pub stack : ℕ

-- `(struct ELFContext) { 0 }`
abbrev pub no_context : ElfContext
no_context = record {
  file_buffer = 0;
  proc_stack_pages = [];
  segments = [];
  entry_point = 0;
  rbp_rsp = 0;
  stack = 0;
}

-- The bytes of the file buffer, in which the fields are read.
abbrev pub file : Memory → (buffer : ℕ) → Block
file m buffer i = m (buffer + i)

-- The checks on the header, by the offsets of its fields.
unfoldable pub is_executable : Block → Bool
is_executable b =
    (b 0 == 0x7F && (b 1 == b'E' && (b 2 == b'L' && b 3 == b'F')))
    && (b 4 == 2
        && (b 5 == 1
            && (b 6 == 1
                && (le_u16 b 16 == 2
                    && (le_u16 b 18 == 0x3E && (le_u32 b 20 == 1 && le_u16 b 52 == 64))))))

abbrev pub e_entry : Block → ℕ
e_entry b = le_u64 b 24

abbrev pub e_phoff : Block → ℕ
e_phoff b = le_u64 b 32

abbrev pub e_phnum : Block → ℕ
e_phnum b = le_u16 b 56

-- The fields of a program header at an offset in the file.
abbrev pub p_type : Block → ℕ → ℕ
p_type b ph = le_u32 b ph

abbrev pub p_offset : Block → ℕ → ℕ
p_offset b ph = le_u64 b (ph + 8)

abbrev pub p_vaddr : Block → ℕ → ℕ
p_vaddr b ph = le_u64 b (ph + 16)

abbrev pub p_filesz : Block → ℕ → ℕ
p_filesz b ph = le_u64 b (ph + 32)

abbrev pub p_memsz : Block → ℕ → ℕ
p_memsz b ph = le_u64 b (ph + 40)

-- The file bytes and then zeros, at the address of the segment. `b` is the file, whose fields are read
-- before its pages are mapped.
unfoldable pub place_segment : (b : Block) (buffer ph : ℕ) → Memory → Memory
place_segment b buffer ph m =
    memset (u64 (p_vaddr b ph + p_filesz b ph)) 0 (sub_u64 (p_memsz b ph) (p_filesz b ph))
      (memcpy (p_vaddr b ph) (u64 (buffer + p_offset b ph)) (p_filesz b ph) m)

-- Memory with other contents in the page of an address.
abbrev pub with_page : (virt : ℕ) → (contents : ℕ → ℕ) → Memory → Memory
with_page virt contents m x =
    if x / page_size == virt / page_size then contents (x % page_size) else m x

-- The blocks of the file, one after the other from an address on.
pub put_blocks : ℕ → List Block → Memory → Memory
put_blocks p [] m = m
put_blocks p (b ∷ bs) m =
    put_blocks (p + 512) bs (λ y. if leb p y && ltb y (p + 512) then b (y - p) else m y)

module _ (K : Machine) where
  open K use {State, vcalloc, vfree, pmm_alloc_high, page_map, frame_bytes}

  -- The page frames that are mapped from page `j` of an address on.
  unfoldable pub map_pages :
      (rounds j virt : ℕ) → Memory × State → Option (List ℕ × (Memory × State))
  map_pages zero j virt (m, s) = some ([], (m, s))
  map_pages (suc n) j virt (m, s) = do
    (frame, s) ← pmm_alloc_high s
    s ← page_map (u64 (virt + j * page_size)) frame false s
    (frames, rest) ←
        map_pages n (j + 1) virt (with_page (u64 (virt + j * page_size)) (frame_bytes s frame) m, s)
    some (frame ∷ frames, rest)

  -- `ph` is the offset of the program header in the file.
  unfoldable pub load_segment :
      (buffer ph : ℕ) → Memory × State → Option (Segment × (Memory × State))
  load_segment buffer ph (m, s) =
      let b = file m buffer in
      let num_pages = ceil_u64_div (p_memsz b ph) page_size in
      do
        (frames, (m', s')) ← map_pages num_pages 0 (p_vaddr b ph) (m, s)
        some (
          record { vaddr = p_vaddr b ph; num_pages = num_pages; pages = frames },
          (place_segment b buffer ph m', s'),
        )

  -- The loop over the program headers, which takes those of type 1.
  unfoldable pub load_segments :
      (rounds buffer ph : ℕ) → Memory × State → Option (List Segment × (Memory × State))
  load_segments zero buffer ph (m, s) = some ([], (m, s))
  load_segments (suc n) buffer ph (m, s) =
      if p_type (file m buffer) ph == 1
      then (do
        (segment, (m', s')) ← load_segment buffer ph (m, s)
        (segments, rest) ← load_segments n buffer (ph + 56) (m', s')
        some (segment ∷ segments, rest))
      else load_segments n buffer (ph + 56) (m, s)

  -- What `elf_load` does with the file in the buffer.
  pub load_file : (buffer : ℕ) → Memory × State → Option (ElfContext × (Memory × State))
  load_file buffer (m, s) =
      let b = file m buffer in
      if not (is_executable b) then (do s ← vfree buffer s; some (no_context, (m, s))) else (do
        (segments, (m', s)) ← load_segments (e_phnum b) buffer (e_phoff b) (m, s)
        (frames, rest) ←
            map_pages (stack_size / page_size) 0 (lower_half_mem_max - stack_size) (m', s)
        some (
          record {
            file_buffer = buffer;
            proc_stack_pages = frames;
            segments = segments;
            entry_point = e_entry b;
            rbp_rsp = lower_half_mem_max;
            stack = stack_size;
          },
          rest,
        ))

  abbrev pub from_option : {A : Type 0} → Option A → Result A
  from_option none = panic
  from_option (some a) = ok a

  -- `fuel` is for the chains of the file system.
  unfoldable elf_load :
      (fuel : ℕ) (name ext : List ℕ)
      → Fat32
      → Memory × State
      → Result (ElfContext × (Memory × State))
  elf_load fuel name ext fs (m, s) = elim (fat32_open fuel name ext fs) [
    | ok (cluster, size) ↦
        if cluster == 0
        then ok (no_context, (m, s))
        else from_option (do
          (buffer, s) ← vcalloc (u32 (size * 512)) s
          let blocks = (fat32_read cluster size fs).1
          load_file buffer (put_blocks buffer blocks (memset buffer 0 (u32 (size * 512)) m), s))
    | panic ↦ panic
    | stuck ↦ stuck
  ]
