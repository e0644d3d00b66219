-- ===== src/Proc/Elf/Loading.antt =====
-- What the loop over the program headers in src/proc/elf.c leaves in memory.
use lios.Prelude.{
  ℕ, zero, suc, ◌+◌, ◌*◌, ◌/◌, ◌^◌, ◌≤◌, ◌<◌, ◌≡◌, ◌⊎◌, ◌∙◌, refl, arith, ◌==◌, Bool-cases, inl,
  inr, Option, none, some, List, [], ◌∷◌, true, false, sym, ap, u64,
}
use mathlib.Core.Path.{subst}
use lios.Util.Misc.{Memory}
use lios.Util.KMath.{ceil_u64_div}
use lios.Mem.Page.{page_size, ◌>>=◌}
use lios.Proc.Elf.{
  Machine, Segment, file, p_type, p_vaddr, p_memsz, with_page, map_pages, load_segment,
  load_segments,
}
use lios.Proc.Elf.Placing.{
  headers, Loaded, AllLoaded, Outside, Fits, AllFit, pages_start, pages_end, Same, u32-Same,
  u64-Same, place_segment-Loaded, kept_file, Loaded-keep,
}

-- A property of the memory of a call, if it returns.
abbrev After : {A S : Type 0} → (Memory → Type 0) → Option (A × (Memory × S)) → Type 0
After P none = Unit {0}
After P (some (a, (m, s))) = P m

After-step :
    {A B S : Type 0} (P : Memory → Type 0) (o : Option B) (f : B → Option (A × (Memory × S)))
    → ((b : B) → After P (f b))
    → After P (o >>= f)
After-step P none f k = tt
After-step P (some b) f k = k b

After-bind :
    {A B S : Type 0} (P Q : Memory → Type 0) (o : Option (A × (Memory × S)))
    (f : A × (Memory × S) → Option (B × (Memory × S)))
    → After Q o
    → ((a : A) (m : Memory) (s : S) → Q m → After P (f (a, (m, s))))
    → After P (o >>= f)
After-bind P Q none f e k = tt
After-bind P Q (some (a, (m, s))) f e k = k a m s e

-- The result is put together with what was there before.
After-map :
    {A B S : Type 0} (P Q : Memory → Type 0) (o : Option (B × (Memory × S))) (g : B → A)
    → ((m : Memory) → Q m → P m)
    → After Q o
    → After P (o >>= λ r. some (g r.0, r.1))
After-map P Q none g k e = tt
After-map P Q (some (b, (m, s))) g k e = k m e

with_page_other :
    (virt x : ℕ) (contents : ℕ → ℕ) (m : Memory)
    → (x / page_size < virt / page_size) ⊎ (virt / page_size < x / page_size)
    → with_page virt contents m x ≡ m x
with_page_other virt x contents m o = ground arith

-- The pages from the `j`-th behind an address on, as many as are mapped, do not hold `x`.
abbrev Off : (n j virt x : ℕ) → Type 0
Off n j virt x = (x / page_size < virt / page_size + j) ⊎ (virt / page_size + j + n ≤ x / page_size)

page_of :
    (n j virt : ℕ)
    → (virt / page_size + j + suc n) * page_size < 2 ^ 64
    → u64 (virt + j * page_size) / page_size ≡ virt / page_size + j
page_of n j virt top = omega arith

Off-here :
    (n j virt v x : ℕ)
    → v / page_size ≡ virt / page_size + j
    → Off (suc n) j virt x
    → (x / page_size < v / page_size) ⊎ (v / page_size < x / page_size)
Off-here n j virt v x e (inl a) = inl (omega arith)
Off-here n j virt v x e (inr a) = inr (omega arith)

Off-next : (n j virt x : ℕ) → Off (suc n) j virt x → Off n (j + 1) virt x
Off-next n j virt x (inl a) = inl (omega arith)
Off-next n j virt x (inr a) = inr (omega arith)

module _ (K : Machine) where
  map_pages-After :
      (n j virt : ℕ) (m : Memory) (s : K.State)
      → (virt / page_size + j + n) * page_size < 2 ^ 64
      → After (λ m'. (x : ℕ) → Off n j virt x → m' x ≡ m x) (map_pages K n j virt (m, s))
  unfolding map_pages
  map_pages-After zero j virt m s top = λ x o. refl
  map_pages-After (suc n) j virt m s top =
      let v = u64 (virt + j * page_size) in
      let here = page_of n j virt top in
      After-step (λ m'. (x : ℕ) → Off (suc n) j virt x → m' x ≡ m x) (K.pmm_alloc_high s) _
        (λ fr.
          After-step (λ m'. (x : ℕ) → Off (suc n) j virt x → m' x ≡ m x)
            (K.page_map v fr.0 false fr.1) _
            (λ s'.
              let m1 = with_page v (K.frame_bytes s' fr.0) m in
              After-map (λ m'. (x : ℕ) → Off (suc n) j virt x → m' x ≡ m x)
                (λ m'. (x : ℕ) → Off n (j + 1) virt x → m' x ≡ m1 x)
                (map_pages K n (j + 1) virt (m1, s')) (λ frames. fr.0 ∷ frames)
                (λ m' k x o.
                  k x (Off-next n j virt x o)
                  ∙ with_page_other v x (K.frame_bytes s' fr.0) m (Off-here n j virt v x here o))
                (map_pages-After n (j + 1) virt m1 s' (omega arith))))

module _ (K : Machine) (m0 : Memory) (buffer len : ℕ) (low : buffer + len < 2 ^ 64) where
  -- The segment is loaded, and memory outside its pages is as before.
  abbrev Placed : (m : Memory) (ph : ℕ) → Memory → Type 0
  Placed m ph m' =
      Loaded (file m0 buffer) m' ph
      × ((x : ℕ)
          → (x < pages_start (file m0 buffer) ph) ⊎ (pages_end (file m0 buffer) ph ≤ x)
          → m' x ≡ m x)

  load_segment-After :
      (ph : ℕ) (m : Memory) (s : K.State)
      → Same m0 buffer len m
      → ph + 56 ≤ len
      → Fits (file m0 buffer) buffer len ph
      → After (Placed m ph) (load_segment K buffer ph (m, s))
  unfolding load_segment
  load_segment-After ph m s same table fits =
      let b = file m buffer in
      let virt = p_vaddr b ph in
      let n = ceil_u64_div (p_memsz b ph) page_size in
      let at : virt ≡ p_vaddr (file m0 buffer) ph =
        u64-Same m0 buffer len m (ph + 16) same (omega arith) in
      let size : n ≡ ceil_u64_div (p_memsz (file m0 buffer) ph) page_size =
        ap (λ t. ceil_u64_div t page_size)
          (u64-Same m0 buffer len m (ph + 40) same (omega arith)) in
      let start = ap (λ t. t / page_size) at in
      After-bind (Placed m ph) (λ m1. (x : ℕ) → Off n 0 virt x → m1 x ≡ m x)
        (map_pages K n 0 virt (m, s)) _
        (map_pages-After K n 0 virt m s (omega (arith, start, size, fits.top)))
        (λ frames m1 s1 kept.
          let mapped : (x : ℕ)
              → (x < pages_start (file m0 buffer) ph) ⊎ (pages_end (file m0 buffer) ph ≤ x)
              → m1 x ≡ m x =
            (λ x out. kept x (off x virt n ph start size out)) in
          let same1 = kept_file m0 buffer len m m1 ph same fits mapped in
          let (loaded, left) =
            place_segment-Loaded m0 buffer len m m1 ph same same1 table low fits in
          (loaded, λ x out. left x out ∙ mapped x out))
    where
      off :
          (x virt n ph : ℕ)
          → virt / page_size ≡ p_vaddr (file m0 buffer) ph / page_size
          → n ≡ ceil_u64_div (p_memsz (file m0 buffer) ph) page_size
          → (x < pages_start (file m0 buffer) ph) ⊎ (pages_end (file m0 buffer) ph ≤ x)
          → Off n 0 virt x
      off x virt n ph e f (inl a) = inl (omega arith)
      off x virt n ph e f (inr a) = inr (omega arith)

  -- The segments of some headers are loaded, and memory outside their pages is as before.
  abbrev AllPlaced : (hs : List ℕ) (m m' : Memory) → Type 0
  AllPlaced hs m m' =
      AllLoaded (file m0 buffer) m' hs × ((x : ℕ) → Outside (file m0 buffer) x hs → m' x ≡ m x)

  load_segments-taken :
      (n ph : ℕ) (m : Memory) (s : K.State)
      → (p_type (file m buffer) ph == 1) ≡ true
      → load_segments K (suc n) buffer ph (m, s) ≡ (
          load_segment K buffer ph (m, s) >>= λ r.
          load_segments K n buffer (ph + 56) (r.1.0, r.1.1) >>= λ later.
          some (r.0 ∷ later.0, later.1))
  unfolding load_segments
  load_segments-taken n ph m s load = rw (load, load_segments) refl

  load_segments-skipped :
      (n ph : ℕ) (m : Memory) (s : K.State)
      → (p_type (file m buffer) ph == 1) ≡ false
      → load_segments K (suc n) buffer ph (m, s) ≡ load_segments K n buffer (ph + 56) (m, s)
  unfolding load_segments
  load_segments-skipped n ph m s skip = rw (skip, load_segments) refl

  headers-taken :
      (n ph : ℕ)
      → (p_type (file m0 buffer) ph == 1) ≡ true
      → headers (file m0 buffer) (suc n) ph ≡ ph ∷ headers (file m0 buffer) n (ph + 56)
  unfolding headers
  headers-taken n ph load = rw (load, headers) refl

  headers-skipped :
      (n ph : ℕ)
      → (p_type (file m0 buffer) ph == 1) ≡ false
      → headers (file m0 buffer) (suc n) ph ≡ headers (file m0 buffer) n (ph + 56)
  unfolding headers
  headers-skipped n ph skip = rw (skip, headers) refl

  load_segments-After :
      (n ph : ℕ) (m : Memory) (s : K.State) (hs : List ℕ)
      → headers (file m0 buffer) n ph ≡ hs
      → Same m0 buffer len m
      → ph + 56 * n ≤ len
      → AllFit (file m0 buffer) buffer len hs
      → After (AllPlaced hs m) (load_segments K n buffer ph (m, s))
  load_segments-After zero ph m s hs e same table fit =
      unfold load_segments headers in
      subst (λ t. After {A = List Segment} {S = K.State} (AllPlaced t m) (some ([], (m, s)))) e
        (tt, λ x out. refl)
  load_segments-After (suc n) ph m s hs e same table fit =
      let b0 = file m0 buffer in
      let kind = ap (λ t. t == 1) (u32-Same m0 buffer len m ph same (omega arith)) in
      let ks = headers b0 n (ph + 56) in
      elim (Bool-cases (p_type b0 ph == 1)) [
        | inl load ↦
            let now = sym e ∙ headers-taken n ph load in
            let (fits, apart, rest) : AllFit b0 buffer len (ph ∷ ks) =
              subst (AllFit b0 buffer len) now fit in
            let P = AllPlaced (ph ∷ ks) m in
            subst (λ t. After (AllPlaced t m) (load_segments K (suc n) buffer ph (m, s))) (sym now)
              (subst (After P) (sym (load_segments-taken n ph m s (kind ∙ load))) (
                After-bind P (Placed m ph) (load_segment K buffer ph (m, s)) _
                  (load_segment-After ph m s same (omega arith) fits)
                  (λ g m1 s1 here.
                    let same1 = kept_file m0 buffer len m m1 ph same fits here.1 in
                    After-map P (AllPlaced ks m1) (load_segments K n buffer (ph + 56) (m1, s1))
                      (λ gs. g ∷ gs)
                      (λ m' later. (
                        (Loaded-keep m0 buffer len m1 m' ph ks fits apart later.1 here.0, later.0),
                        λ x out. later.1 x out.1 ∙ here.1 x out.0,
                      ))
                      (load_segments-After n (ph + 56) m1 s1 ks refl same1 (omega arith) rest))))
        | inr skip ↦
            subst (After (AllPlaced hs m)) (sym (load_segments-skipped n ph m s (kind ∙ skip))) (
              load_segments-After n (ph + 56) m s hs (sym (headers-skipped n ph skip) ∙ e) same
                (omega arith) fit)
      ]

-- Where the loop over the program headers returns, whatever the new page frames hold: of every header of
-- type 1 the bytes of the file stand at the segment's address, followed by zeros up to its size in memory,
-- and memory outside the pages of the segments is as before. The header table lies in the file of `len`
-- bytes in the buffer, which ends below 2 ^ 64, and each segment `Fits`: the file holds it, it is no
-- smaller in memory, it ends within its pages below 2 ^ 64, and these lie apart from the buffer and from
-- the pages of the other segments.
pub load_segments-Loaded :
    (K : Machine) (buffer len n ph : ℕ) (m : Memory) (s : K.State) (segments : List Segment)
    (m' : Memory) (s' : K.State)
    → load_segments K n buffer ph (m, s) ≡ some (segments, (m', s'))
    → buffer + len < 2 ^ 64
    → ph + 56 * n ≤ len
    → AllFit (file m buffer) buffer len (headers (file m buffer) n ph)
    → AllLoaded (file m buffer) m' (headers (file m buffer) n ph)
      × ((x : ℕ) → Outside (file m buffer) x (headers (file m buffer) n ph) → m' x ≡ m x)
load_segments-Loaded K buffer len n ph m s segments m' s' e low table fit =
    let hs = headers (file m buffer) n ph in
    subst (After (AllPlaced K m buffer len low hs m)) e
      (load_segments-After K m buffer len low n ph m s hs refl (λ i h. refl) table fit)
