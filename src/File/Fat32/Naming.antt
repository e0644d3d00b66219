-- ===== src/File/Fat32/Naming.antt =====
-- The directory entry that `fat32_new_file` writes, read back as the directory search does, in
-- src/file/fat32.c.
use lios.Prelude.{
  ℕ, suc, ◌+◌, ◌*◌, ◌/◌, ◌%◌, ◌^◌, ◌≡◌, refl, arith, List, [], ◌∷◌, ◌++◌, length, get_or, set,
  replicate, length-set, ◌∙◌, bit_and, bit_and_mask, bit_or, bit_and-zero, bit_and_fields,
  zero-bit_or, u16, ap, ap₂, ◌<<<◌,
}
use mathlib.Core.Path.{subst}
use native.Mathlib.Nat.{zero-add}
use lios.File.Fat32.{put_upper, short_name, after_name, new_entry}

length-put_upper : (o : ℕ) (cs buf : List ℕ) → length (put_upper o cs buf) ≡ length buf
unfolding put_upper
length-put_upper o [] buf = refl
length-put_upper o (c ∷ cs) buf = length-put_upper (o + 1) cs (set buf o _) ∙ length-set buf o _

pub length-short_name : (name ext : List ℕ) → length (short_name name ext) ≡ 11
unfolding short_name
length-short_name name ext =
    length-put_upper 8 ext (put_upper 0 name (replicate 11 b' '))
    ∙ length-put_upper 0 name (replicate 11 b' ')

get_or-append_right : (xs ys : List ℕ) (i : ℕ) → get_or (xs ++ ys) (length xs + i) 0 ≡ get_or ys i 0
get_or-append_right [] ys i = rw zero-add
get_or-append_right (x ∷ xs) ys i = rw (add_suc_left (length xs) i) (get_or-append_right xs ys i)
  where
    add_suc_left : (n i : ℕ) → suc n + i ≡ suc (n + i)
    add_suc_left n i = omega arith

-- The number in the mask of the high half, cut to 16 bits, is zero.
high_half : (c : ℕ) → u16 (bit_and c 0xFFFF0000) ≡ 0
high_half c =
    ap (λ x. u16 (bit_and x 0xFFFF0000)) cut
    ∙ ap u16 (bit_and_fields 16 (c / 65536) (c % 65536) 0xFFFF 0 (omega arith) (omega arith))
    ∙ omega (arith, bit_and-zero (c % 65536))
  where
    cut : c ≡ c / 65536 * 2 ^ 16 + c % 65536
    cut = omega arith

-- In the entry of a new file the high half of the first cluster is zero, so the cluster that a
-- directory search reads back is the real one only modulo 2 ^ 16.
pub new_entry-cluster :
    (c : ℕ) (name ext : List ℕ)
    → let e = new_entry c name ext in
      let hi = get_or e 20 0 + 256 * get_or e 21 0 in
      let lo = get_or e 26 0 + 256 * get_or e 27 0 in bit_or (hi <<< 16) lo ≡ c % 2 ^ 16
unfolding new_entry
new_entry-cluster c name ext =
    ap₂ bit_or (ap₂ (λ a b. (a + 256 * b) <<< 16) (field 9) (field 10) ∙ hi_zero)
      (ap₂ (λ a b. a + 256 * b) (field 15) (field 16) ∙ lo_parts)
    ∙ zero-bit_or (c % 2 ^ 16)
  where
    rest : List ℕ
    rest = after_name (u16 (bit_and c 0xFFFF0000)) (bit_and c 0x0000FFFF)

    field : (i : ℕ) → get_or (short_name name ext ++ rest) (11 + i) 0 ≡ get_or rest i 0
    field i =
        subst (λ k. get_or (short_name name ext ++ rest) (k + i) 0 ≡ get_or rest i 0)
          (length-short_name name ext) (get_or-append_right (short_name name ext) rest i)

    hi_zero :
        (u16 (bit_and c 0xFFFF0000) % 256 + 256 * (u16 (bit_and c 0xFFFF0000) / 256)) <<< 16 ≡ 0
    hi_zero = omega (arith, high_half c)

    lo_parts : bit_and c 0x0000FFFF % 256 + 256 * (bit_and c 0x0000FFFF / 256) ≡ c % 2 ^ 16
    lo_parts = omega (arith, bit_and_mask 16 c)
