-- ===== src/Util/Const.antt =====
-- The tables of src/util/const.c.
use lios.Prelude.{ℕ, List, [], ◌∷◌, length}
use Prim.Native.String.{String}
use Prim.Native.Char.{code}

-- The bytes of a text of ASCII characters.
abbrev pub codes : String → List ℕ
codes String.[] = []
codes (String.◌∷◌ c s) = code c ∷ codes s

abbrev pub exceptions : List String
exceptions =
    "Division Error" ∷ "Debug" ∷ "Non-maskable Interrupt" ∷ "Breakpoint" ∷ "Overflow"
    ∷ "Bound Range Exceeded" ∷ "Invalid Opcode" ∷ "Device Not Available" ∷ "Double Fault"
    ∷ "Coprocessor Segment Overrun" ∷ "Invalid TSS" ∷ "Segment Not Present" ∷ "Stack-Segment Fault"
    ∷ "General Protection Fault" ∷ "Page Fault" ∷ "Reserved" ∷ "x87 Floating-Point Exception"
    ∷ "Alignment Check" ∷ "Machine Check" ∷ "SIMD Floating-Point Exception"
    ∷ "Virtualization Exception" ∷ "Control Protection Exception" ∷ "Reserved" ∷ "Reserved"
    ∷ "Reserved" ∷ "Reserved" ∷ "Reserved" ∷ "Reserved" ∷ "Hyprevisor Injection Exception"
    ∷ "VMM Communication Exception" ∷ "Security Exception" ∷ "Reserved" ∷ []

abbrev pub keycodes : List String
keycodes =
    "" ∷ "<ESC>" ∷ "1" ∷ "2" ∷ "3" ∷ "4" ∷ "5" ∷ "6" ∷ "7" ∷ "8" ∷ "9" ∷ "0" ∷ "-" ∷ "="
    ∷ "<Backspace>" ∷ "<Tab>" ∷ "q" ∷ "w" ∷ "e" ∷ "r" ∷ "t" ∷ "y" ∷ "u" ∷ "i" ∷ "o" ∷ "p" ∷ "["
    ∷ "]" ∷ "<Enter>" ∷ "<LCtrl>" ∷ "a" ∷ "s" ∷ "d" ∷ "f" ∷ "g" ∷ "h" ∷ "j" ∷ "k" ∷ "l" ∷ ";" ∷ "'"
    ∷ "`" ∷ "<LShift>" ∷ "\\" ∷ "z" ∷ "x" ∷ "c" ∷ "v" ∷ "b" ∷ "n" ∷ "m" ∷ "," ∷ "." ∷ "/"
    ∷ "<RShift>" ∷ "<Keypad *>" ∷ "<LAlt>" ∷ " " ∷ "<CapsLock>" ∷ "<F1>" ∷ "<F2>" ∷ "<F3>" ∷ "<F4>"
    ∷ "<F5>" ∷ "<F6>" ∷ "<F7>" ∷ "<F8>" ∷ "<F9>" ∷ "<F10>" ∷ "<NumLock>" ∷ "<ScrollLock>"
    ∷ "<Keypad 7>" ∷ "<Keypad 8>" ∷ "<Keypad 9>" ∷ "<Keypad ->" ∷ "<Keypad 4>" ∷ "<Keypad 5>"
    ∷ "<Keypad 6>" ∷ "<Keypad +>" ∷ "<Keypad 1>" ∷ "<Keypad 2>" ∷ "<Keypad 3>" ∷ "<Keypad 0>"
    ∷ "<Keypad .>" ∷ "" ∷ "" ∷ "" ∷ "<F11>" ∷ "<F12>" ∷ []

-- `sizeof(KEYCODES) / sizeof(KEYCODES[0])`
abbrev pub max_keycode : ℕ
max_keycode = length keycodes

abbrev pub fat32_open_errors : List String
fat32_open_errors = "name too long" ∷ "extension too long" ∷ "file not found" ∷ []

abbrev pub fat32_new_file_errors : List String
fat32_new_file_errors =
    "name too long" ∷ "extension too long" ∷ "file exists" ∷ "no space remaining" ∷ []
