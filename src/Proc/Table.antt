-- ===== src/Proc/Table.antt =====
-- The process table of src/proc/proc.c: a growable array of records of 88 bytes, where the process number
-- stands from byte 56 on.
use lios.Prelude.{ℕ, zero, suc, ◌+◌, ◌*◌, ◌/◌, ◌%◌, List, [], ◌∷◌, ◌++◌, set, replicate}
use lios.Util.ArrayList.{ArrayList, arraylist_new, arraylist_add}

abbrev process_size : ℕ
process_size = 88

-- A word of 64 bits, the lowest byte first.
bytes_of : (count n : ℕ) → List ℕ
bytes_of zero n = []
bytes_of (suc k) n = n % 256 ∷ bytes_of k (n / 256)

-- `struct Process` with only its number set.
process : ℕ → List ℕ
unfolding bytes_of
process pid = replicate 56 0 ++ bytes_of 8 pid ++ replicate 24 0

write_bytes : ℕ → List ℕ → List ℕ → List ℕ
write_bytes i [] l = l
write_bytes i (b ∷ bs) l = write_bytes (i + 1) bs (set l i b)

unfoldable proc_init : ArrayList
unfolding arraylist_new
proc_init = arraylist_new process_size

-- The table, and the index of the new record in it.
unfoldable proc_create : (ℕ → List ℕ) → ArrayList → ArrayList × ℕ
unfolding process write_bytes
proc_create fresh table =
    let (table', index) = arraylist_add fresh table in
    (record table' { l = write_bytes (index * process_size) (process index) table'.l }, index)
