-- ===== src/Util/ArrayList.antt =====
-- The growable array of src/util/arraylist.c. The block that `l` points to is the list of its bytes
-- (`capacity * entry_size` of them); a null `l` is the empty block, and a freed one is dropped.
-- `fresh` gives the contents of a block that the kernel heap has just handed out, which the code
-- does not rely on. `vrealloc` keeps the old bytes in front of fresh ones.
pub mod Loops
pub mod Growth
pub mod Removal
use lios.Prelude.{
  ℕ, zero, suc, ◌+◌, ◌-◌, ◌*◌, ◌/◌, ◌≤◌, ◌≡◌, Bool, true, false, leb, ◌==◌, if◌then◌else◌, List, [],
  ◌++◌, length, get_or, set, take, drop, u64,
}

pub record ArrayList : Type 0 where
  pub l : List ℕ
  pub size : ℕ
  pub capacity : ℕ
  pub entry_size : ℕ

unfoldable pub arraylist_new : ℕ → ArrayList
arraylist_new entry_size = record { l = []; size = 0; capacity = 0; entry_size = entry_size }

-- What `vrealloc` leaves in the new block.
pub grown : (ℕ → List ℕ) → List ℕ → ℕ → List ℕ
grown fresh old new_size = take new_size old ++ drop (length old) (fresh new_size)

-- The list and the index of the new item.
pub arraylist_add : (ℕ → List ℕ) → ArrayList → ArrayList × ℕ
arraylist_add fresh list =
    if list.capacity == 0
    then (record list { capacity = 1; size = 1; l = fresh (u64 (1 * list.entry_size)) }, 0)
    else (if leb (list.size + 1) list.capacity
        then (record list { size = list.size + 1 }, list.size)
        else (let capacity = u64 (list.capacity * 2) in
            (
              record list {
                capacity = capacity;
                l = grown fresh list.l (u64 (capacity * list.entry_size));
                size = list.size + 1;
              },
              list.size,
            )))

-- `for (; i < hi; i++) l[i] = l[i + entry_size];` with hi - i rounds left
pub shift_down : (entry_size rounds i : ℕ) → List ℕ → List ℕ
shift_down es zero i l = l
shift_down es (suc rounds) i l = shift_down es rounds (i + 1) (set l i (get_or l (i + es) 0))

-- `for (; i < hi; i++) new_list[i] = l[i + offset];`
pub copy_to : (offset rounds i : ℕ) → List ℕ → List ℕ → List ℕ
copy_to offset zero i l new_list = new_list
copy_to offset (suc rounds) i l new_list =
    copy_to offset rounds (i + 1) l (set new_list i (get_or l (i + offset) 0))

-- The products of sizes are bounded by the block's length, so they do not wrap.
pub arraylist_remove : (ℕ → List ℕ) → ArrayList → ℕ → ArrayList × Bool
arraylist_remove fresh list index =
    if leb list.size index
    then (list, false)
    else (let es = list.entry_size in
        let new_size = list.size - 1 in
        let tail = new_size * es - index * es in
        if leb (list.capacity / 2) new_size
        then (
          record list { l = shift_down es tail (index * es) list.l; size = list.size - 1 },
          true,
        )
        else (let new_capacity = list.capacity / 2 in
            let front = copy_to 0 (index * es) 0 list.l (fresh (new_capacity * es)) in
            let new_list = copy_to es tail (index * es) list.l front in
            (record list { l = new_list; capacity = new_capacity; size = new_size }, true)))

unfoldable pub arraylist_free : ArrayList → ArrayList
arraylist_free list = record list { l = []; capacity = 0; size = 0 }

-- The block has its capacity in bytes, and the items fit.
pub record IsValid (list : ArrayList) : Type 0 where
  pub block : length list.l ≡ list.capacity * list.entry_size
  pub fits : list.size ≤ list.capacity
