-- ===== src/File/Fat32.antt =====
-- The FAT32 driver of src/file/fat32.c. The disk maps a block address and a byte index to a byte, and
-- reading or writing a block never fails. The FAT array maps a cluster to its 32-bit entry. A name is
-- the list of its characters without the terminator. Loops along the FAT take fuel, since a chain may
-- be cyclic: `stuck` means that the fuel ran out, and `panic` is the kernel's panic.
pub mod Cluster
pub mod Reading
pub mod Naming
pub mod Mount
pub mod Create
pub mod Text
pub mod Lookup
pub mod Opening
use lios.Prelude.{
  ℕ, zero, suc, ◌+◌, ◌-◌, ◌*◌, ◌/◌, ◌%◌, ◌^◌, Bool, true, false, not, ◌&&◌, ◌||◌, ltb, leb, ◌==◌,
  if◌then◌else◌, List, [], ◌∷◌, ◌++◌, map, length, get_or, set, replicate, bit_and, bit_or, u8, u16,
  u32, u64, sub_u32, sub_u64, ◌<<<◌, ◌>>>◌,
}
use lios.Util.Misc.{strncmp, toupper}

-- A block of 512 bytes, by index.
abbrev pub Block : Type 0
Block = ℕ → ℕ

pub record Fat32 : Type 0 where
  pub disk : ℕ → Block
  pub fat : ℕ → ℕ
  pub fat_size : ℕ
  pub fat_start_lba : ℕ
  pub data_start_lba : ℕ
  pub root_dir_lba : ℕ

pub data Result (A : Type 0) : Type 0 where
  ok : A → Result A
  panic stuck : Result A

abbrev pub le_u16 : Block → ℕ → ℕ
le_u16 b i = b i + 256 * b (i + 1)

abbrev pub le_u32 : Block → ℕ → ℕ
le_u32 b i = b i + 256 * b (i + 1) + 65536 * b (i + 2) + 16777216 * b (i + 3)

-- The array after `update_fat`: the blocks of the first FAT, then zeros.
pub update_fat : Fat32 → Fat32
update_fat s = record s {
  fat = λ i.
      if ltb i (s.fat_size * 128)
      then le_u32 (s.disk (s.fat_start_lba + i / 128)) (i % 128 * 4)
      else 0;
}

-- `for (i = 0; i < FAT_size * 512; i++) if (FAT[i] == 0) return i;`
pub find_free_from : (rounds i : ℕ) → (ℕ → ℕ) → ℕ
find_free_from zero i fat = 0
find_free_from (suc n) i fat =
    let rest = find_free_from n (i + 1) fat in if fat i == 0 then i else rest

pub find_free_fat_cluster : Fat32 → ℕ
find_free_fat_cluster s = find_free_from (s.fat_size * 512) 0 s.fat

unfoldable pub is_ending_cluster : ℕ → Bool
is_ending_cluster num = leb 0xFFFFFF8 (bit_and num 0xFFFFFFF) && leb num 0xFFFFFFF

-- `for (i = 0; i < strlen(text); i++) buf[i + offset] = toupper(text[i]);`
pub put_upper : (offset : ℕ) → List ℕ → List ℕ → List ℕ
put_upper offset [] buf = buf
put_upper offset (c ∷ cs) buf = put_upper (offset + 1) cs (set buf offset (toupper c))

-- The eleven characters of a directory entry for a name and an extension.
pub short_name : (name ext : List ℕ) → List ℕ
short_name name ext = put_upper 8 ext (put_upper 0 name (replicate 11 b' '))

-- Where `strncmp` finds a block, from address 0, and a text behind it, from address 512.
abbrev pub beside : Block → List ℕ → ℕ → ℕ
beside b text x = if ltb x 512 then b x else get_or text (x - 512) 0

-- The loop over the entries of a directory block, from entry `i`.
unfoldable pub find_entry : (rounds i : ℕ) → Block → (want : List ℕ) → ℕ
find_entry zero i b want = 0
find_entry (suc n) i b want =
    let rest = find_entry n (i + 1) b want in
    let cluster = bit_or (le_u16 b (32 * i + 20) <<< 16) (le_u16 b (32 * i + 26)) in
    if strncmp (beside b want) (32 * i) 512 11 == 0 then cluster else rest

unfoldable pub check_directory_entry_for_file : (sector_num : ℕ) → (name ext : List ℕ) → Fat32 → ℕ
check_directory_entry_for_file sector_num name ext s =
    find_entry 16 0 (s.disk (u64 (sub_u32 sector_num 2 + s.data_start_lba))) (short_name name ext)

-- The do-while loop over the clusters of the root directory.
unfoldable pub search_directory :
    ℕ → (directory_cluster : ℕ) → (name ext : List ℕ) → Fat32 → Result ℕ
search_directory zero directory_cluster name ext s = stuck
search_directory (suc fuel) directory_cluster name ext s =
    let file_cluster = check_directory_entry_for_file (u32 directory_cluster) name ext s in
    let next = s.fat directory_cluster in
    let rest = search_directory fuel next name ext s in
    if not (file_cluster == 0)
    then ok file_cluster
    else (if next == 0 then panic else (if is_ending_cluster next then ok 0 else rest))

unfoldable pub get_cluster_num : ℕ → (name ext : List ℕ) → Fat32 → Result ℕ
get_cluster_num fuel name ext s =
    if ltb 8 (length name)
    then ok 0
    else (if ltb 3 (length ext) then ok 0 else search_directory fuel s.root_dir_lba name ext s)

-- The do-while loop of `fat32_open` that counts clusters.
pub count_clusters : ℕ → (current_sector num_clusters : ℕ) → Fat32 → Result ℕ
count_clusters zero current_sector num_clusters s = stuck
count_clusters (suc fuel) current_sector num_clusters s =
    let next = s.fat current_sector in
    let rest = count_clusters fuel next (num_clusters + 1) s in
    if next == 0 then panic else (if is_ending_cluster next then ok (num_clusters + 1) else rest)

-- The cluster and the size; with cluster 0, the error code in place of the size.
unfoldable pub fat32_open : ℕ → (name ext : List ℕ) → Fat32 → Result (ℕ × ℕ)
fat32_open fuel name ext s =
    if ltb 8 (length name)
    then ok (0, 0)
    else (if ltb 3 (length ext) then ok (0, 1) else elim (get_cluster_num fuel name ext s) [
      | ok file_cluster ↦
          if file_cluster == 0 then ok (0, 2) else elim (count_clusters fuel file_cluster 0 s) [
            | ok size ↦ ok (file_cluster, u32 size)
            | panic ↦ panic
            | stuck ↦ stuck
          ]
      | panic ↦ panic
      | stuck ↦ stuck
    ])

-- The loop of `fat32_read` with the rounds left, the last one without a step along the FAT. The result
-- is the return value and the blocks that were read, in order.
pub read_clusters : (rounds cluster : ℕ) → Fat32 → ℕ × List Block
read_clusters zero cluster s = (if not (is_ending_cluster cluster) then 1 else 0, [])
read_clusters (suc zero) cluster s =
    let (code, blocks) = read_clusters zero cluster s in
    (code, s.disk (sub_u32 (u32 (s.data_start_lba + cluster)) 2) ∷ blocks)
read_clusters (suc (suc n)) cluster s =
    let (code, blocks) = read_clusters (suc n) (s.fat cluster) s in
    if is_ending_cluster cluster
    then (1, [])
    else (code, s.disk (sub_u32 (u32 (s.data_start_lba + cluster)) 2) ∷ blocks)

pub fat32_read : (cluster size : ℕ) → Fat32 → ℕ × List Block
fat32_read cluster size s = read_clusters size cluster s

-- A name is readable if its eleven bytes are printable characters.
unfoldable pub is_readable : (rounds p : ℕ) → Block → Bool
is_readable zero p b = true
is_readable (suc n) p b = not (ltb (b p) 32 || ltb 126 (b p)) && is_readable n (p + 1) b

-- The first entry of a directory block whose name is not readable, 16 if there is none.
unfoldable pub usable_entry : (rounds i : ℕ) → Block → ℕ
usable_entry zero i b = 16
usable_entry (suc n) i b =
    let rest = usable_entry n (i + 1) b in if not (is_readable 11 (32 * i) b) then i else rest

-- The do-while loop of `fat32_new_file`: the entry and the cluster at which it stops.
unfoldable pub find_usable : ℕ → (current_cluster : ℕ) → Fat32 → Result (ℕ × ℕ)
find_usable zero current_cluster s = stuck
find_usable (suc fuel) current_cluster s =
    let index = usable_entry 16 0 (s.disk (u64 (sub_u64 current_cluster 2 + s.data_start_lba))) in
    let next = s.fat current_cluster in
    let rest = find_usable fuel next s in
    if not (index == 16)
    then ok (index, current_cluster)
    else (if next == 0 then panic else (if is_ending_cluster next then ok (16, next) else rest))

-- The bytes of an entry behind the name: the attributes, eight bytes, the high half of the cluster, two
-- times, the low half of the cluster and the size 512.
abbrev pub after_name : (hi lo : ℕ) → List ℕ
after_name hi lo =
    0x20
    ∷ 0
    ∷ 0
    ∷ 0
    ∷ 0
    ∷ 0
    ∷ 0
    ∷ 0
    ∷ 0
    ∷ (hi % 256)
    ∷ (hi / 256)
    ∷ 0
    ∷ 0
    ∷ 0
    ∷ 0
    ∷ (lo % 256)
    ∷ (lo / 256)
    ∷ 0
    ∷ 2
    ∷ 0
    ∷ 0
    ∷ []

-- The entry of a new file: DIR_FstClusHI is cut to 16 bits after the mask.
pub new_entry : (cluster : ℕ) → (name ext : List ℕ) → List ℕ
new_entry cluster name ext =
    short_name name ext
    ++ after_name (u16 (bit_and cluster 0xFFFF0000)) (bit_and cluster 0x0000FFFF)

abbrev pub put_entry : (index : ℕ) → List ℕ → Block → Block
put_entry index entry b x =
    if leb (32 * index) x && ltb x (32 * index + 32) then get_or entry (x - 32 * index) 0 else b x
