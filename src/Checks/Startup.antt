-- ===== src/Checks/Startup.antt =====
-- Runs of the models of src/kmain.c and of the set-up of src/mem/pmm.c on concrete inputs.
use lios.Prelude.{◌+◌, ◌*◌, ◌≡◌, ◌↔◌, refl, arith, true, ◌==◌, if◌then◌else◌, [], ◌∷◌, inr}
use lios.Mem.Pmm.{Pmm, ok, pmm_add_block, pmm_clear_blocks}
use lios.Mem.Pmm.Chain.{Chain}
use lios.Mem.Pmm.Building.{Built, pmm_add_block-Built}
use lios.Mem.Pmm.Clearing.{pmm_clear_blocks-lists}
use lios.Boot.{Region, is_usable, zone_blocks}
use lios.Boot.Zones.{InBlocks, IsFree, zone_start_of, zone_blocks-IsFree}

-- Before the first block, with two nodes needed.
abbrev blank : Pmm
blank = record {
  next = λ n. 0;
  addr = λ n. 0;
  low = 0;
  high = 0;
  init_temp = 0;
  free_list = 0;
  nodes_needed = 2;
}

pmm_add_block-Built_example :
    (s' : Pmm) × (pmm_add_block 5 0x100010 0x103000 blank ≡ ok s') × Built s' 2 0x100010 0x103000
pmm_add_block-Built_example =
    pmm_add_block-Built 5 0 0x100010 0x103000 blank refl refl (omega arith) (omega arith)
      (omega arith) (omega arith)

-- Nodes 1 to 4 in a row, with the pages from 4 KiB on.
abbrev four_nodes : Pmm
four_nodes = record {
  next = λ n. if n == 4 then 0 else n + 1;
  addr = λ n. n * 4096;
  low = 1;
  high = 1;
  init_temp = 1;
  free_list = 0;
  nodes_needed = 0;
}

four_nodes-Chain : Chain four_nodes.next 1 (1 ∷ 2 ∷ 3 ∷ 4 ∷ [])
four_nodes-Chain = (
  refl,
  λ e. omega (arith, e),
  (refl, λ e. omega (arith, e), (refl, λ e. omega (arith, e), (refl, λ e. omega (arith, e), refl))),
)

pmm_clear_blocks-lists_example :
    (s' : Pmm) × (pmm_clear_blocks 9 0x2000 0x3000 four_nodes ≡ ok s')
    × Chain s'.next s'.high (1 ∷ 4 ∷ [])
    × (s'.addr ≡ four_nodes.addr)
    × (s'.low ≡ 1)
pmm_clear_blocks-lists_example =
    pmm_clear_blocks-lists 9 0x2000 0x3000 1 3 four_nodes [] (2 ∷ []) (4 ∷ []) four_nodes-Chain tt
      (λ e. omega (arith, e), tt) (omega arith) (omega arith) (omega arith) (omega arith, tt)
      (omega arith, (omega arith, tt)) (omega arith) (omega arith)

-- Eight megabytes of memory from the first one on.
abbrev eight_megabytes : Region
eight_megabytes = record { addr = 0x100000; len = 0x800000; kind = 1 }

eight_megabytes-is_usable : is_usable 0x200123 eight_megabytes ≡ true
unfolding is_usable
eight_megabytes-is_usable = refl

zone_blocks-IsFree_example :
    InBlocks 0x250000 (zone_blocks 0x200123 0x300000 0x301000 eight_megabytes)
    ↔ IsFree (zone_start_of 0x200123 eight_megabytes) 0x900000 0x300000 0x301000 0x250000
zone_blocks-IsFree_example =
    zone_blocks-IsFree 0x200123 0x300000 0x301000 0x250000 eight_megabytes eight_megabytes-is_usable
      (omega arith) (omega arith) (inr (omega arith))
