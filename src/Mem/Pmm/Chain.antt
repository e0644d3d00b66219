-- ===== src/Mem/Pmm/Chain.antt =====
-- The nodes that a list pointer of src/mem/pmm.c leads through.
use lios.Prelude.{ℕ, zero, suc, ◌<◌, ◌≡◌, ◌≢◌, arith, List, [], ◌∷◌, ◌++◌, length}
use lios.Mem.Pmm.{Pmm, ok, write, find_node}

-- From `p` the `next` pointers lead through the nodes of the list, to the null pointer.
abbrev pub Chain : (ℕ → ℕ) → ℕ → List ℕ → Type 0
Chain next p [] = p ≡ 0
Chain next p (n ∷ ns) = (p ≡ n) × (n ≢ 0) × Chain next (next n) ns

abbrev pub NotIn : ℕ → List ℕ → Type 0
NotIn n [] = Unit {0}
NotIn n (m ∷ ms) = (m ≢ n) × NotIn n ms

pub write_other : (f : ℕ → ℕ) (n v m : ℕ) → m ≢ n → write f n v m ≡ f m
write_other f n v m ne = ground arith

pub write_self : (f : ℕ → ℕ) (n v : ℕ) → write f n v n ≡ v
write_self f n v = ground arith

-- A write to a node that is not in the list keeps the list.
pub Chain-write :
    (next : ℕ → ℕ) (p n v : ℕ) (ns : List ℕ)
    → Chain next p ns
    → NotIn n ns
    → Chain (write next n v) p ns
Chain-write next p n v [] c o = c
Chain-write next p n v (m ∷ ms) (e, z, c) (ne, o) =
    (e, z, rw (write_other next n v m ne) (Chain-write next (next m) n v ms c o))

-- A write to a node in the middle redirects the list behind it.
pub Chain-redirect :
    (next : ℕ → ℕ) (p n v : ℕ) (pre post new : List ℕ)
    → Chain next p (pre ++ n ∷ post)
    → NotIn n pre
    → NotIn n new
    → Chain next v new
    → Chain (write next n v) p (pre ++ n ∷ new)
Chain-redirect next p n v [] post new (e, z, c) o o' c' =
    (e, z, rw (write_self next n v) (Chain-write next v n v new c' o'))
Chain-redirect next p n v (m ∷ ms) post new (e, z, c) (ne, o) o' c' =
    (e, z, rw (write_other next n v m ne) (Chain-redirect next (next m) n v ms post new c o o' c'))

-- No node of the list holds the address.
abbrev pub NoneAt : (ℕ → ℕ) → ℕ → List ℕ → Type 0
NoneAt addr mem [] = Unit {0}
NoneAt addr mem (n ∷ ns) = (addr n ≢ mem) × NoneAt addr mem ns

pub find_node-found :
    (fuel mem p n : ℕ) (s : Pmm) (pre post : List ℕ)
    → Chain s.next p (pre ++ n ∷ post)
    → NoneAt s.addr mem pre
    → s.addr n ≡ mem
    → length pre < fuel
    → find_node fuel mem p s ≡ ok n
unfolding find_node
find_node-found zero mem p n s pre post c away here f = elim f [ ]
find_node-found (suc fuel) mem p n s [] post (e, z, c) away here f = ground arith
find_node-found (suc fuel) mem p n s (m ∷ ms) post (e, z, c) (ne, away) here f =
    ground (arith, find_node-found fuel mem (s.next m) n s ms post c away here (omega arith))

pub find_node-missing :
    (fuel mem p : ℕ) (s : Pmm) (ns : List ℕ)
    → Chain s.next p ns
    → NoneAt s.addr mem ns
    → length ns < fuel
    → find_node fuel mem p s ≡ ok 0
unfolding find_node
find_node-missing zero mem p s ns c away f = elim f [ ]
find_node-missing (suc fuel) mem p s [] c away f = ground arith
find_node-missing (suc fuel) mem p s (m ∷ ms) (e, z, c) (ne, away) f =
    ground (arith, find_node-missing fuel mem (s.next m) s ms c away (omega arith))
