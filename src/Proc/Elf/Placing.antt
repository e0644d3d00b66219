-- ===== src/Proc/Elf/Placing.antt =====
-- The segments that src/proc/elf.c places in memory, in the order of the program headers.
use lios.Prelude.{
  ℕ, zero, suc, ◌+◌, ◌-◌, ◌*◌, ◌≤◌, ◌<◌, ◌^◌, ◌≡◌, refl, arith, ◌==◌, if◌then◌else◌, inl, inr, ◌⊎◌,
  List, [], ◌∷◌, ◌∙◌, ap, ◌/◌, u64, sub_u64,
}
use lios.Util.KMath.{ceil_u64_div}
use lios.Util.Misc.{Memory, memcpy, memset}
use lios.Mem.Page.{page_size}
use lios.Util.Misc.Copy.{memcpy_lem, memset_lem}
use lios.File.Fat32.{Block, le_u32}
use lios.File.Gpt.{le_u64}
use lios.Proc.Elf.{file, p_type, p_offset, p_vaddr, p_filesz, p_memsz, place_segment}

-- The offsets of the program headers of type 1, which are loaded.
unfoldable pub headers : Block → (rounds ph : ℕ) → List ℕ
headers b zero ph = []
headers b (suc n) ph =
    let rest = headers b n (ph + 56) in if p_type b ph == 1 then ph ∷ rest else rest

-- The bytes of the file and then zeros stand at the address of the segment.
abbrev pub Loaded : Block → Memory → ℕ → Type 0
Loaded b m ph =
    ((j : ℕ) → j < p_filesz b ph → m (p_vaddr b ph + j) ≡ b (p_offset b ph + j))
    × ((j : ℕ) → p_filesz b ph ≤ j → j < p_memsz b ph → m (p_vaddr b ph + j) ≡ 0)

abbrev pub AllLoaded : Block → Memory → List ℕ → Type 0
AllLoaded b m [] = Unit {0}
AllLoaded b m (h ∷ hs) = Loaded b m h × AllLoaded b m hs

-- The pages of a segment: from the one that its address lies in, as many as its size asks for.
abbrev pub pages_start : Block → ℕ → ℕ
pages_start b ph = p_vaddr b ph / page_size * page_size

abbrev pub pages_end : Block → ℕ → ℕ
pages_end b ph = pages_start b ph + ceil_u64_div (p_memsz b ph) page_size * page_size

abbrev pub Outside : Block → ℕ → List ℕ → Type 0
Outside b x [] = Unit {0}
Outside b x (h ∷ hs) = ((x < pages_start b h) ⊎ (pages_end b h ≤ x)) × Outside b x hs

abbrev pub Apart : Block → ℕ → List ℕ → Type 0
Apart b h [] = Unit {0}
Apart b h (k ∷ ks) =
    ((pages_end b h ≤ pages_start b k) ⊎ (pages_end b k ≤ pages_start b h)) × Apart b h ks

-- A segment that the file holds, that is no smaller in memory than in the file, that ends within its pages,
-- and whose pages lie apart from the file buffer and below 2 ^ 64.
pub record Fits (b : Block) (buffer len ph : ℕ) : Type 0 where
  pub inside : p_offset b ph + p_filesz b ph ≤ len
  pub sizes : p_filesz b ph ≤ p_memsz b ph
  pub within : p_vaddr b ph + p_memsz b ph ≤ pages_end b ph
  pub top : pages_end b ph < 2 ^ 64
  pub apart : (pages_end b ph ≤ buffer) ⊎ (buffer + len ≤ pages_start b ph)

-- All segments fit, and lie apart from each other.
abbrev pub AllFit : Block → (buffer len : ℕ) → List ℕ → Type 0
AllFit b buffer len [] = Unit {0}
AllFit b buffer len (h ∷ hs) = Fits b buffer len h × Apart b h hs × AllFit b buffer len hs

-- The copy and the zeros of one segment.
placed :
    (d s n k : ℕ) (m : Memory)
    → (d ≤ s) ⊎ (s + n ≤ d)
    → let m' = memset (d + n) 0 k (memcpy d s n m) in
      ((j : ℕ) → j < n → m' (d + j) ≡ m (s + j))
      × ((j : ℕ) → n ≤ j → j < n + k → m' (d + j) ≡ 0)
      × ((x : ℕ) → (x < d) ⊎ (d + n + k ≤ x) → m' x ≡ m x)
placed d s n k m apart =
    let (copied, kept) = memcpy_lem d s n m apart in
    let (zeros, left) = memset_lem (d + n) 0 k (memcpy d s n m) in
    (
      λ j h. left (d + j) (inl (omega arith)) ∙ copied j h,
      λ j a h. zeros (d + j) (omega arith) (omega arith),
      λ x out. left x (outer x out) ∙ kept x (inner x out),
    )
  where
    outer : (x : ℕ) → (x < d) ⊎ (d + n + k ≤ x) → (x < d + n) ⊎ (d + n + k ≤ x)
    outer x h = ground arith

    inner : (x : ℕ) → (x < d) ⊎ (d + n + k ≤ x) → (x < d) ⊎ (d + n ≤ x)
    inner x h = ground arith

module _ (m0 : Memory) (buffer len : ℕ) where
  abbrev pub b0 : Block
  b0 = file m0 buffer

  -- The buffer holds the file.
  abbrev pub Same : Memory → Type 0
  Same m = (i : ℕ) → i < len → file m buffer i ≡ b0 i

  pub u32-Same :
      (m : Memory) (i : ℕ) → Same m → i + 4 ≤ len → le_u32 (file m buffer) i ≡ le_u32 b0 i
  u32-Same m i same h =
      rw
        (
          same i (omega arith),
          same (i + 1) (omega arith),
          same (i + 2) (omega arith),
          same (i + 3) (omega arith),
        )
        refl

  pub u64-Same :
      (m : Memory) (i : ℕ) → Same m → i + 8 ≤ len → le_u64 (file m buffer) i ≡ le_u64 b0 i
  u64-Same m i same h =
      omega (arith, u32-Same m i same (omega arith), u32-Same m (i + 4) same (omega arith))

  -- The segment is placed where the file in the buffer says, whatever its pages held.
  place_segment-file :
      (m m1 : Memory) (ph : ℕ)
      → Same m
      → ph + 56 ≤ len
      → buffer + len < 2 ^ 64
      → Fits b0 buffer len ph
      → place_segment (file m buffer) buffer ph m1
        ≡ memset
            (p_vaddr b0 ph + p_filesz b0 ph)
            0
            (p_memsz b0 ph - p_filesz b0 ph)
            (memcpy (p_vaddr b0 ph) (buffer + p_offset b0 ph) (p_filesz b0 ph) m1)
  unfolding place_segment
  place_segment-file m m1 ph same table low fits =
      let rest : sub_u64 (p_memsz b0 ph) (p_filesz b0 ph) ≡ p_memsz b0 ph - p_filesz b0 ph =
        omega (arith, fits.sizes, fits.within, fits.top) in
      let zeros : u64 (p_vaddr b0 ph + p_filesz b0 ph) ≡ p_vaddr b0 ph + p_filesz b0 ph =
        omega (arith, fits.sizes, fits.within, fits.top) in
      let source : u64 (buffer + p_offset b0 ph) ≡ buffer + p_offset b0 ph =
        omega (arith, fits.inside) in
      rw
        (
          u64-Same m (ph + 8) same (omega arith),
          u64-Same m (ph + 16) same (omega arith),
          u64-Same m (ph + 32) same (omega arith),
          u64-Same m (ph + 40) same (omega arith),
          rest,
          zeros,
          source,
        )
        refl

  -- One segment: it is loaded, and nothing else changes.
  pub place_segment-Loaded :
      (m m1 : Memory) (ph : ℕ)
      → Same m
      → Same m1
      → ph + 56 ≤ len
      → buffer + len < 2 ^ 64
      → Fits b0 buffer len ph
      → Loaded b0 (place_segment (file m buffer) buffer ph m1) ph
        × ((x : ℕ)
            → (x < pages_start b0 ph) ⊎ (pages_end b0 ph ≤ x)
            → place_segment (file m buffer) buffer ph m1 x ≡ m1 x)
  place_segment-Loaded m m1 ph same same1 table low fits =
      rw (place_segment-file m m1 ph same table low fits) (
        all (p_vaddr b0 ph) (p_offset b0 ph) (p_filesz b0 ph) (p_memsz b0 ph) (pages_start b0 ph)
          (pages_end b0 ph) fits.inside fits.sizes (omega arith) fits.within fits.apart)
    where
      regroup : (o j : ℕ) → buffer + o + j ≡ buffer + (o + j)
      regroup o j = omega arith

      wide :
          (d w n lo hi x : ℕ)
          → n ≤ w
          → lo ≤ d
          → d + w ≤ hi
          → (x < lo) ⊎ (hi ≤ x)
          → (x < d) ⊎ (d + n + (w - n) ≤ x)
      wide d w n lo hi x h a b out = ground arith

      all :
          (d o n w lo hi : ℕ)
          → o + n ≤ len
          → n ≤ w
          → lo ≤ d
          → d + w ≤ hi
          → (hi ≤ buffer) ⊎ (buffer + len ≤ lo)
          → let m' = memset (d + n) 0 (w - n) (memcpy d (buffer + o) n m1) in
            (((j : ℕ) → j < n → m' (d + j) ≡ b0 (o + j))
              × ((j : ℕ) → n ≤ j → j < w → m' (d + j) ≡ 0))
            × ((x : ℕ) → (x < lo) ⊎ (hi ≤ x) → m' x ≡ m1 x)
      all d o n w lo hi inside sizes a b apart =
          let (copied, zeros, left) = placed d (buffer + o) n (w - n) m1 (ground arith) in
          (
            (
              λ j h. copied j h ∙ ap m1 (regroup o j) ∙ same1 (o + j) (omega arith),
              λ j a h. zeros j a (omega arith),
            ),
            λ x out. left x (wide d w n lo hi x sizes a b out),
          )

  -- The buffer keeps the file where memory changes only in the pages of a segment that fits.
  pub kept_file :
      (m m1 : Memory) (ph : ℕ)
      → Same m
      → Fits b0 buffer len ph
      → ((x : ℕ) → (x < pages_start b0 ph) ⊎ (pages_end b0 ph ≤ x) → m1 x ≡ m x)
      → Same m1
  kept_file m m1 ph same fits left i h = left (buffer + i) (ground (arith, fits.apart)) ∙ same i h

  -- A segment stays loaded where the memory changes only outside its pages.
  pub Loaded-keep :
      (m m' : Memory) (h : ℕ) (hs : List ℕ)
      → Fits b0 buffer len h
      → Apart b0 h hs
      → ((x : ℕ) → Outside b0 x hs → m' x ≡ m x)
      → Loaded b0 m h
      → Loaded b0 m' h
  Loaded-keep m m' h hs fits apart kept (copied, zeros) = (
    λ j c. kept _ (outside_of j hs apart (omega (arith, c, fits.sizes))) ∙ copied j c,
    λ j a c. kept _ (outside_of j hs apart c) ∙ zeros j a c,
  )
    where
      outside_of :
          (j : ℕ) (ks : List ℕ)
          → Apart b0 h ks
          → j < p_memsz b0 h
          → Outside b0 (p_vaddr b0 h + j) ks
      outside_of j [] a c = tt
      outside_of j (k ∷ ks) (a, rest) c = (
        elsewhere (p_vaddr b0 h) (p_memsz b0 h) (pages_end b0 h) j (pages_start b0 k)
            (pages_end b0 k) fits.within a c,
        outside_of j ks rest c,
      )
        where
          elsewhere :
              (d w hi j lo' hi' : ℕ)
              → d + w ≤ hi
              → (hi ≤ lo') ⊎ (hi' ≤ d / page_size * page_size)
              → j < w
              → (d + j < lo') ⊎ (hi' ≤ d + j)
          elsewhere d w hi j lo' hi' b (inl x) c = inl (omega arith)
          elsewhere d w hi j lo' hi' b (inr x) c = inr (omega arith)
