-- ===== src/Mem/Pmm/Pages.antt =====
-- The pages that `pmm_add_block` of src/mem/pmm.c gives to the nodes that are made.
use lios.Prelude.{
  ℕ, zero, suc, ◌+◌, ◌-◌, ◌*◌, ◌/◌, ◌%◌, ◌^◌, ◌≤◌, ◌<◌, ◌≡◌, ◌≢◌, ◌∙◌, refl, sym, ap, ap₂, arith,
  true, false, not, ◌&&◌, ltb, ◌==◌, if◌then◌else◌, Bool-cases, inl, inr, List, [], ◌∷◌, length,
  map, u64, bit_and, bit_and_fields, bit_and_mask, bit_and-zero, not_u64,
}
use lios.Mem.Page.{page_size}
use lios.Mem.Pmm.{Pmm, ok, write, assign_pages, add_pages}
use lios.Mem.Pmm.Chain.{Chain, NotIn, write_other, write_self}
use lios.Mem.Pmm.Split.{Distinct}

-- The addresses of nodes once the pages from `i` on that begin below `end` are given to them in order.
abbrev pub dealt : List ℕ → (i end : ℕ) → List ℕ
dealt [] i end = []
dealt (a ∷ rest) i end =
    let more = dealt rest (i + page_size) end in if ltb i end then i ∷ more else a ∷ rest

-- The nodes that are left without one.
abbrev pub undealt : List ℕ → (i end : ℕ) → List ℕ
undealt [] i end = []
undealt (n ∷ ns) i end =
    let more = undealt ns (i + page_size) end in if ltb i end then more else n ∷ ns

-- From the node `init_temp` on, the nodes have been given the pages; all else is as before.
pub record Dealt (s s' : Pmm) (ns : List ℕ) (i end : ℕ) : Type 0 where
  pub links : s'.next ≡ s.next
  pub low : s'.low ≡ s.low
  pub high : s'.high ≡ s.high
  pub needed : s'.nodes_needed ≡ s.nodes_needed
  pub pages : map s'.addr ns ≡ dealt (map s.addr ns) i end
  pub left : Chain s'.next s'.init_temp (undealt ns i end)
  pub others : (x : ℕ) → NotIn x ns → s'.addr x ≡ s.addr x

map-write : (f : ℕ → ℕ) (n v : ℕ) (ns : List ℕ) → NotIn n ns → map (write f n v) ns ≡ map f ns
map-write f n v [] o = refl
map-write f n v (m ∷ ms) (ne, o) =
    ap₂ (λ a rest. a ∷ rest) (write_other f n v m ne) (map-write f n v ms o)

Dealt-more :
    (s s' : Pmm) (n : ℕ) (ns : List ℕ) (i end : ℕ)
    → NotIn n ns
    → ltb i end ≡ true
    → Dealt (record s { addr = write s.addr n i; init_temp = s.next n }) s' ns (i + page_size) end
    → Dealt s s' (n ∷ ns) i end
Dealt-more s s' n ns i end o more m = record {
  links = m.links;
  low = m.low;
  high = m.high;
  needed = m.needed;
  pages = rw more (
      ap₂ (λ a rest. a ∷ rest) (m.others n o ∙ write_self s.addr n i)
        (m.pages ∙ ap (λ t. dealt t (i + page_size) end) (map-write s.addr n i ns o)));
  left = rw more m.left;
  others = λ x o'. m.others x o'.1 ∙ write_other s.addr n i x (λ e. o'.0 (sym e));
}

Dealt-none :
    (s : Pmm) (n : ℕ) (ns : List ℕ) (i end : ℕ)
    → Chain s.next s.init_temp (n ∷ ns)
    → ltb i end ≡ false
    → Dealt s s (n ∷ ns) i end
Dealt-none s n ns i end c done = record {
  links = refl;
  low = refl;
  high = refl;
  needed = refl;
  pages = rw done refl;
  left = rw done c;
  others = λ x o. refl;
}

assign_pages-again :
    (fuel i end n : ℕ) (s : Pmm)
    → s.init_temp ≡ n
    → n ≢ 0
    → i < end
    → end + page_size ≤ 2 ^ 64
    → assign_pages (suc fuel) i end s
      ≡ assign_pages fuel
          (i + page_size)
          end
          (record s { addr = write s.addr n i; init_temp = s.next n })
unfolding assign_pages
assign_pages-again fuel i end n s e z f b =
    let more : ltb i end ≡ true = ground arith in
    let next_page : u64 (i + page_size) ≡ i + page_size = omega arith in
    let there : (n == 0) ≡ false = ground arith in rw (next_page, more, e, there) refl

pub assign_pages-Dealt :
    (fuel i end : ℕ) (s : Pmm) (ns : List ℕ)
    → Chain s.next s.init_temp ns
    → Distinct ns
    → end + page_size ≤ 2 ^ 64
    → length ns < fuel
    → (s' : Pmm) × (assign_pages fuel i end s ≡ ok s') × Dealt s s' ns i end
unfolding assign_pages
assign_pages-Dealt zero i end s ns c d b f = elim f [ ]
assign_pages-Dealt (suc fuel) i end s [] c d b f =
    let over : (ltb i end && not (s.init_temp == 0)) ≡ false = ground arith in
    (
      s,
      rw over refl,
      record {
        links = refl;
        low = refl;
        high = refl;
        needed = refl;
        pages = refl;
        left = c;
        others = λ x o. refl;
      },
    )
assign_pages-Dealt (suc fuel) i end s (n ∷ ns) (e, z, c) (o, d) b f =
    elim (Bool-cases (ltb i end)) [
      | inl more ↦
          let below : i < end = ground arith in
          let s₁ : Pmm = record s { addr = write s.addr n i; init_temp = s.next n } in
          let (s', e', m) = assign_pages-Dealt fuel (i + page_size) end s₁ ns c d b (omega arith) in
          (
            s',
            assign_pages-again fuel i end n s e z below b ∙ e',
            Dealt-more s s' n ns i end o more m,
          )
      | inr done ↦ (s, rw done refl, Dealt-none s n ns i end (e, z, c) done)
    ]

-- The next page boundary.
abbrev pub page_up : ℕ → ℕ
page_up x = (x + (page_size - 1)) / page_size * page_size

round_up : (x : ℕ) → x < 2 ^ 64 → bit_and x (not_u64 (page_size - 1)) ≡ x / page_size * page_size
round_up x b =
    let hi = x / page_size in
    let lo = x % page_size in
    let whole : x ≡ hi * 2 ^ 12 + lo = omega arith in
    let mask : not_u64 (page_size - 1) ≡ (2 ^ 52 - 1) * 2 ^ 12 + 0 = refl in
    let kept : bit_and hi (2 ^ 52 - 1) ≡ hi = bit_and_mask 52 hi ∙ omega arith in
    ap₂ (λ a m. bit_and a m) whole mask
    ∙ (bit_and_fields 12 hi lo (2 ^ 52 - 1) 0 (omega arith) (omega arith)
        ∙ rw (kept, bit_and-zero lo) (omega arith))

pub add_pages-Dealt :
    (fuel start end : ℕ) (s : Pmm) (ns : List ℕ)
    → Chain s.next s.init_temp ns
    → Distinct ns
    → start + page_size ≤ 2 ^ 64
    → end + page_size ≤ 2 ^ 64
    → length ns < fuel
    → (s' : Pmm) × (add_pages fuel start end s ≡ ok s') × Dealt s s' ns (page_up start) end
unfolding add_pages
add_pages-Dealt fuel start end s ns c d a b f =
    let inside : u64 (start + page_size - 1) ≡ start + (page_size - 1) = omega arith in
    let up = round_up (start + (page_size - 1)) (omega arith) in
    let (s', e, m) = assign_pages-Dealt fuel (page_up start) end s ns c d b f in
    (
      s',
      ap (λ t. assign_pages fuel (bit_and t (not_u64 (page_size - 1))) end s) inside
          ∙ (ap (λ t. assign_pages fuel t end s) up ∙ e),
      m,
    )
