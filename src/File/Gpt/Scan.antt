-- ===== src/File/Gpt/Scan.antt =====
-- The result of `gpt_read` of src/file/gpt.c against the list of the disk's basic data partitions.
use lios.Prelude.{
  ℕ, zero, suc, ◌+◌, ◌≡◌, refl, arith, Bool, true, List, [], ◌∷◌, ◌==◌, if◌then◌else◌, Bool-cases,
  inl, inr, ==_iff,
}
use lios.File.Fat32.{Block}
use lios.File.Gpt.{
  Partition, Result, found, panic, more_than_one, none_found, is_basic_data, entry_at, is_set, scan,
  header_ok, gpt_read, le_u64,
}

-- The basic data partitions among the entries from (block, j) on.
unfoldable pub basic_from : (disk : ℕ → Block) → (rounds block j : ℕ) → List Partition
basic_from disk zero block j = []
basic_from disk (suc n) block j =
    let rest =
      basic_from disk n (if j == 3 then block + 1 else block) (if j == 3 then 0 else j + 1) in
    if is_basic_data (disk block) j then entry_at (disk block) j ∷ rest else rest

abbrev pub AllSet : List Partition → Type 0
AllSet [] = Unit {0}
AllSet (p ∷ ps) = (is_set p ≡ true) × AllSet ps

-- One partition is found; none and more than one are panics.
unfoldable pub outcome : List Partition → Result
outcome [] = panic none_found
outcome (p ∷ []) = found p
outcome (p ∷ (q ∷ r)) = panic more_than_one

abbrev after_one : Partition → List Partition → Result
after_one p [] = found p
after_one p (q ∷ r) = panic more_than_one

scan-set :
    (disk : ℕ → Block) (n block j : ℕ) (p : Partition)
    → is_set p ≡ true
    → scan disk n block j p ≡ after_one p (basic_from disk n block j)
unfolding scan basic_from
scan-set disk zero block j p h = refl
scan-set disk (suc n) block j p h = elim (Bool-cases (is_basic_data (disk block) j)) [
  | inl yes_it ↦ rw yes_it (if_true (is_set p) _ h)
  | inr not_it ↦
      rw not_it
        (scan-set disk n (if j == 3 then block + 1 else block) (if j == 3 then 0 else j + 1) p h)
]
  where
    if_true :
        (b : Bool) (x : Result)
        → b ≡ true
        → (if b then panic more_than_one else x) ≡ panic more_than_one
    if_true b x e = rw e

abbrev none_yet : Partition
none_yet = record { first_lba = 0; last_lba = 0 }

abbrev from_start : List Partition → Result
from_start [] = found none_yet
from_start (p ∷ ps) = after_one p ps

scan-unset :
    (disk : ℕ → Block) (n block j : ℕ)
    → AllSet (basic_from disk n block j)
    → scan disk n block j none_yet ≡ from_start (basic_from disk n block j)
unfolding scan basic_from
scan-unset disk zero block j h = refl
scan-unset disk (suc n) block j h = elim (Bool-cases (is_basic_data (disk block) j)) [
  | inl yes_it ↦ rw yes_it (scan-set disk n _ _ (entry_at (disk block) j) (rw yes_it at h).0)
  | inr not_it ↦ rw not_it (scan-unset disk n _ _ (rw not_it at h))
]

-- On a disk with the GPT signature and the header fields that the code checks, whose basic data
-- partitions among the 128 entries do not have both addresses zero, `gpt_read` finds the partition if
-- there is exactly one, and panics if there is none or more than one.
pub gpt_read-outcome :
    (disk : ℕ → Block)
    → le_u64 (disk 1) 0 ≡ 0x5452415020494645
    → header_ok (disk 1) ≡ true
    → AllSet (basic_from disk 128 2 0)
    → gpt_read disk ≡ outcome (basic_from disk 128 2 0)
unfolding gpt_read
gpt_read-outcome disk sig ok set =
    let same : (le_u64 (disk 1) 0 == 0x5452415020494645) ≡ true = (==_iff _ _).1 sig in
    rw (same, ok, scan-unset disk 128 2 0 set) (last_step (basic_from disk 128 2 0) set)
  where
    last_step :
        (l : List Partition)
        → AllSet l
        → elim (from_start l) [
          | panic p ↦ panic p
          | found part ↦ if is_set part then found part else panic none_found
        ]
          ≡ outcome l
    last_step [] h = unfold outcome in refl
    last_step (p ∷ []) h = unfold outcome in ground arith
    last_step (p ∷ (q ∷ r)) h = unfold outcome in refl
