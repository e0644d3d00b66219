-- ===== src/Util/Hexdump.antt =====
-- The hex dump of src/util/hexdump.c: the characters that it prints to the serial port, of the bytes that
-- `src` points to, with its two lines of headings and the last empty one of debug output.
pub mod Width
use lios.Prelude.{
  ℕ, zero, suc, ◌+◌, ◌-◌, ◌*◌, ◌/◌, ◌%◌, Bool, true, false, not, ◌&&◌, leb, ltb, ◌==◌,
  if◌then◌else◌, List, [], ◌∷◌, ◌++◌, replicate,
}
use lios.Util.Const.{codes}
use lios.Io.Format.{print_hex}

-- `"0%x "` or `"%x "`
unfoldable pub print_byte : ℕ → List ℕ
print_byte byte =
    if leb byte 0xF then b'0' ∷ (print_hex byte ++ b' ' ∷ []) else print_hex byte ++ b' ' ∷ []

unfoldable pub print_byte_ascii : ℕ → ℕ
print_byte_ascii byte = if leb 32 byte && leb byte 126 then byte else b'.'

-- `for (; j < ...; j++) print_byte(src, index)`
pub print_bytes : (rounds index : ℕ) → (ℕ → ℕ) → List ℕ
print_bytes zero index src = []
print_bytes (suc n) index src = print_byte (src index) ++ print_bytes n (index + 1) src

pub print_ascii : (rounds index : ℕ) → (ℕ → ℕ) → List ℕ
print_ascii zero index src = []
print_ascii (suc n) index src = print_byte_ascii (src index) ∷ print_ascii n (index + 1) src

abbrev pub margin : List ℕ
margin = codes "DEBUG:     "

-- Line `i` of sixteen bytes.
pub full_line : (find_readable : Bool) (i : ℕ) → (ℕ → ℕ) → List ℕ
full_line find_readable i src =
    let bytes =
      margin ++ (print_bytes 8 (i * 16) src ++ (codes "  " ++ print_bytes 8 (i * 16 + 8) src)) in
    if not find_readable
    then bytes ++ 10 ∷ []
    else bytes ++ (codes " |" ++ (print_ascii 16 (i * 16) src ++ b'|' ∷ (10 ∷ [])))

pub full_lines : (rounds i : ℕ) (find_readable : Bool) → (ℕ → ℕ) → List ℕ
full_lines zero i find_readable src = []
full_lines (suc n) i find_readable src =
    full_line find_readable i src ++ full_lines n (i + 1) find_readable src

-- The bytes of the last line at position `i` of it, with two spaces behind the eighth.
pub last_bytes : (rounds i index : ℕ) → (ℕ → ℕ) → List ℕ
last_bytes zero i index src = []
last_bytes (suc n) i index src =
    print_byte (src index)
    ++ ((if i == 7 then codes "  " else []) ++ last_bytes n (i + 1) (index + 1) src)

-- What the code counts in `chars_printed` for `count` bytes.
unfoldable pub chars_printed : ℕ → ℕ
chars_printed count = 3 * count + (if ltb 7 count then 2 else 0)

pub last_line : (find_readable : Bool) (len : ℕ) → (ℕ → ℕ) → List ℕ
last_line find_readable len src =
    let count = len % 16 in
    let start = len / 16 * 16 in
    let bytes = margin ++ last_bytes count 0 start src in
    if not find_readable
    then bytes
    else bytes
      ++ (replicate (51 - chars_printed count) b' '
          ++ (b'|'
              ∷ (print_ascii count start src ++ (replicate (16 - count) b' ' ++ b'|' ∷ (10 ∷ [])))))

-- The lines of the dump.
pub dump_lines : (find_readable : Bool) (len : ℕ) → (ℕ → ℕ) → List ℕ
dump_lines find_readable len src =
    let full = full_lines (len / 16) 0 find_readable src in
    if len % 16 == 0 then full else full ++ last_line find_readable len src

-- `addr` is the value of the pointer. Only a last line that is not full is followed by an empty one.
unfoldable hexdump : (find_readable : Bool) (addr len : ℕ) → (ℕ → ℕ) → List ℕ
hexdump find_readable addr len src =
    codes "DEBUG: "
    ++ (10
        ∷ (codes "DEBUG: hexdumping addr 0x"
            ++ (print_hex addr
                ++ (b':'
                    ∷ (10
                        ∷ (dump_lines find_readable len src
                            ++ (if not (len % 16 == 0) && find_readable
                                then codes "DEBUG: " ++ 10 ∷ []
                                else [])))))))
