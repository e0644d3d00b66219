-- ===== src/Mem/Vmalloc/Release.antt =====
-- The release of blocks in src/mem/vmalloc.c, and the calls that are made of it and of `vmalloc`. In
-- the list of nodes the node before another one is known, so the check of `prev` has nothing to find.
pub mod RoundTrip
use lios.Prelude.{
  ℕ, zero, suc, ◌+◌, ◌-◌, ◌*◌, ◌/◌, Bool, true, false, not, ◌&&◌, leb, if◌then◌else◌, Option, none,
  some, List, [], ◌∷◌, u64, sub_u64,
}
use lios.Util.KMath.{ceil_u64_div, u64_min}
use lios.Util.Misc.{Memory, memcpy, memset}
use lios.Mem.Vmalloc.{
  Node, Pages, Heap, Walk, hit, missed, endless, Result, ok, panic, out_of_fuel, ◌>>=◌, mark_bitmap,
  is_clear, node_header, block_header, section_size, vmalloc,
}

-- The first byte of the sections, and whether an address is in a node.
unfoldable pub first_section : Node → ℕ
first_section n = n.addr + node_header + ceil_u64_div n.bitmap_size 8

unfoldable pub holds : Node → ℕ → Bool
holds n mem = leb (first_section n) mem && leb mem (n.addr + node_header + n.total_size)

-- `release_if_unused` for the node after its sections are free: what is left in front of the other
-- nodes, and the address to give back.
pub release_if_unused : (is_head : Bool) → Node → List Node → List Node × Option ℕ
release_if_unused true n ns = (n ∷ ns, none)
release_if_unused false n ns =
    if is_clear (ceil_u64_div n.bitmap_size 8) 0 n.mem then (ns, some n.addr) else (n ∷ ns, none)

-- The loop of `vfree` over the nodes; `missed` if no node holds the address.
pub free_in : (is_head : Bool) (mem size : ℕ) → List Node → Walk (List Node × Option ℕ)
free_in is_head mem size [] = missed
free_in is_head mem size (n ∷ ns) =
    let offset = (mem - first_section n) / section_size in
    let there : Walk (List Node × Option ℕ) = elim (free_in false mem size ns) [
      | missed ↦ missed
      | endless ↦ endless
      | hit (ns', o) ↦ hit (n ∷ ns', o)
    ] in
    elim (holds n mem) [
      | true ↦ elim (mark_bitmap offset size false n.mem) [
        | none ↦ endless
        | some mem' ↦ hit (release_if_unused is_head (record n { mem = mem' }) ns)
      ]
      | false ↦ there
    ]

module _ (P : Pages) (old : ℕ → ℕ → ℕ) where
  open P use {Pool, vmm_free}

  pub get_block_size : ℕ → Heap P old → ℕ
  get_block_size mem h = h.sizes (sub_u64 mem block_header)

  abbrev pub give_back : List Node → Heap P old → Option Pool → Result P old (Heap P old)
  give_back nodes' h none = panic
  give_back nodes' h (some pool') = ok (record h { nodes = nodes'; pool = pool' })

  abbrev pub after_release : Heap P old → Walk (List Node × Option ℕ) → Result P old (Heap P old)
  after_release h missed = panic
  after_release h endless = out_of_fuel
  after_release h (hit (nodes', none)) = ok (record h { nodes = nodes' })
  after_release h (hit (nodes', some addr)) = give_back nodes' h (vmm_free addr h.pool)

  pub vfree : ℕ → Heap P old → Result P old (Heap P old)
  vfree mem h =
      after_release h (free_in true (sub_u64 mem block_header) (get_block_size mem h) h.nodes)

  -- The bytes that users of the heap see are a memory of their own.
  unfoldable vcalloc :
      (fuel size : ℕ) → Heap P old → Memory → Result P old (Heap P old × (ℕ × Memory))
  vcalloc fuel size h m =
      ◌>>=◌ P old (vmalloc P old fuel size h) (λ r. ok (r.0, (r.1, memset r.1 0 size m)))

  unfoldable vrealloc :
      (fuel ptr new_size : ℕ) → Heap P old → Memory → Result P old (Heap P old × (ℕ × Memory))
  vrealloc fuel ptr new_size h m =
      let old_size = u64 (get_block_size ptr h * section_size) in
      ◌>>=◌ P old (vmalloc P old fuel new_size h) (λ r.
        ◌>>=◌ P old (vfree ptr r.0)
          (λ h'. ok (h', (r.1, memcpy r.1 ptr (u64_min old_size new_size) m))))
