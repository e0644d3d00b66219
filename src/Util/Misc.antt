-- ===== src/Util/Misc.antt =====
-- The memory and string functions of src/util/misc.c, over a memory that maps an address to a byte.
-- Pointer arithmetic does not wrap. `strlen` and `strcmp` scan for a terminator, so they take fuel;
-- `none` means that the fuel ran out.
pub mod Copy
pub mod Compare
use lios.Prelude.{
  ℕ, zero, suc, ◌+◌, ◌-◌, ◌*◌, ◌/◌, ◌%◌, ◌^◌, Bool, ◌&&◌, ◌||◌, not, ltb, leb, ◌==◌, if◌then◌else◌,
  Option, none, some, u8, u32, sub_u32,
}

abbrev pub Memory : Type 0
Memory = ℕ → ℕ

abbrev pub poke : Memory → ℕ → ℕ → Memory
poke m p v x = if x == p then v else m x

-- `while (len--) *d++ = *s++;`
unfoldable pub memcpy : (dest src len : ℕ) → Memory → Memory
memcpy dest src zero m = m
memcpy dest src (suc len) m = memcpy (dest + 1) (src + 1) len (poke m dest (m src))

-- `while (len-- > 0) *ptr++ = val;`, where `val` is cut to an unsigned char.
unfoldable pub memset : (dest val len : ℕ) → Memory → Memory
memset dest val zero m = m
memset dest val (suc len) m = memset (dest + 1) val len (poke m dest (u8 val))

strlen_scan : ℕ → Memory → (s count : ℕ) → Option ℕ
strlen_scan zero m s count = none
strlen_scan (suc fuel) m s count =
    let rest = strlen_scan fuel m (s + 1) (count + 1) in if m s == 0 then some count else rest

unfoldable pub strlen : ℕ → Memory → ℕ → Option ℕ
unfolding strlen_scan
strlen fuel m str = strlen_scan fuel m str 0

-- The do-while loop: both bytes are read, and the loop goes on while they are equal and not NUL.
unfoldable pub strcmp : ℕ → Memory → (p1 p2 : ℕ) → Option ℕ
strcmp zero m p1 p2 = none
strcmp (suc fuel) m p1 p2 =
    let c1 = m p1 in
    let c2 = m p2 in
    let rest = strcmp fuel m (p1 + 1) (p2 + 1) in
    if c1 == 0 then some (sub_u32 c1 c2) else (if c1 == c2 then rest else some (sub_u32 c1 c2))

-- `c1 == '\0' || c1 != c2`
abbrev stops : ℕ → ℕ → Bool
stops c1 c2 = c1 == 0 || not (c1 == c2)

-- The loop that compares one byte at a time, with the last two bytes read.
pub strncmp_bytes : Memory → (n s1 s2 c1 c2 : ℕ) → ℕ
strncmp_bytes m zero s1 s2 c1 c2 = sub_u32 c1 c2
strncmp_bytes m (suc n) s1 s2 c1 c2 =
    let rest = strncmp_bytes m n (s1 + 1) (s2 + 1) (m s1) (m s2) in
    if stops (m s1) (m s2) then sub_u32 (m s1) (m s2) else rest

-- The unrolled loop: n4 rounds of four bytes, and then the byte loop on what is left.
strncmp_rounds : Memory → (n4 left s1 s2 c1 c2 : ℕ) → ℕ
strncmp_rounds m zero left s1 s2 c1 c2 = strncmp_bytes m left s1 s2 c1 c2
strncmp_rounds m (suc n4) left s1 s2 c1 c2 =
    let again = strncmp_rounds m n4 left (s1 + 4) (s2 + 4) (m (s1 + 3)) (m (s2 + 3)) in
    if stops (m s1) (m s2)
    then sub_u32 (m s1) (m s2)
    else (if stops (m (s1 + 1)) (m (s2 + 1))
        then sub_u32 (m (s1 + 1)) (m (s2 + 1))
        else (if stops (m (s1 + 2)) (m (s2 + 2))
            then sub_u32 (m (s1 + 2)) (m (s2 + 2))
            else (if stops (m (s1 + 3)) (m (s2 + 3))
                then sub_u32 (m (s1 + 3)) (m (s2 + 3))
                else again)))

unfoldable pub strncmp : Memory → (s1 s2 n : ℕ) → ℕ
unfolding strncmp_rounds strncmp_bytes
strncmp m s1 s2 n =
    if leb 4 n then strncmp_rounds m (n / 4) (n % 4) s1 s2 0 0 else strncmp_bytes m n s1 s2 0 0

unfoldable pub toupper : ℕ → ℕ
toupper c = if leb b'a' c && leb c b'z' then c + b'A' - b'a' else c
