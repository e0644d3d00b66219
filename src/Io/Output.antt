-- ===== src/Io/Output.antt =====
-- Where src/io/output.c sends its characters: to the console or to the serial port, each of which is the
-- list of the characters that it has received. The build sets whether debug, info and warning messages are
-- printed, so that is an argument.
use lios.Prelude.{
  ℕ, zero, suc, ◌+◌, ◌≡◌, ◌∙◌, sym, ap, Bool, not, if◌then◌else◌, List, [], ◌∷◌, ◌++◌, append_assoc,
  append-nil, Option, none, some, get_or,
}
use lios.Io.Format.{Arg, printf}

data Destination : Type 0 where
  frame_buffer serial : Destination

record Sinks : Type 0 where
  console : List ℕ
  port : List ℕ

putchar : ℕ → Destination → Sinks → Sinks
putchar c frame_buffer s = record s { console = s.console ++ c ∷ [] }
putchar c serial s = record s { port = s.port ++ c ∷ [] }

-- The loop of `print` from index `i` on.
print_from : (rounds i : ℕ) → Destination → List ℕ → Sinks → Sinks
print_from zero i dest text s = s
print_from (suc n) i dest text s = print_from n (i + 1) dest text (putchar (get_or text i 0) dest s)

print : Destination → List ℕ → (len : ℕ) → Sinks → Sinks
print dest text len s = print_from len 0 dest text s

-- What `printf` prints, character by character.
put_all : List ℕ → Destination → Sinks → Sinks
put_all [] dest s = s
put_all (c ∷ cs) dest s = put_all cs dest (putchar c dest s)

printf_to : Destination → List ℕ → List Arg → Sinks → Option (Sinks × ℕ)
printf_to dest format args s = elim (printf format args) [
  | none ↦ none
  | some (text, len) ↦ some (put_all text dest s, len)
]

-- A message, its prefix of seven characters and the end of the line.
message : (prefix format : List ℕ) → List Arg → Sinks → Option (Sinks × ℕ)
message prefix format args s = elim (printf_to serial format args (print serial prefix 7 s)) [
  | none ↦ none
  | some (s', len) ↦ some (putchar 10 serial s', len)
]

abbrev debug_prefix : List ℕ
debug_prefix = b'D' ∷ b'E' ∷ b'B' ∷ b'U' ∷ b'G' ∷ b':' ∷ b' ' ∷ []

abbrev info_prefix : List ℕ
info_prefix = b'I' ∷ b'N' ∷ b'F' ∷ b'O' ∷ b':' ∷ b' ' ∷ b' ' ∷ []

abbrev warn_prefix : List ℕ
warn_prefix = b'W' ∷ b'A' ∷ b'R' ∷ b'N' ∷ b':' ∷ b' ' ∷ b' ' ∷ []

abbrev error_prefix : List ℕ
error_prefix = b'E' ∷ b'R' ∷ b'R' ∷ b'O' ∷ b'R' ∷ b':' ∷ b' ' ∷ []

unfoldable serial_debug : (enabled : Bool) (format : List ℕ) → List Arg → Sinks → Option (Sinks × ℕ)
serial_debug enabled format args s =
    if not enabled then some (s, 0) else message debug_prefix format args s

unfoldable serial_info : (enabled : Bool) (format : List ℕ) → List Arg → Sinks → Option (Sinks × ℕ)
serial_info enabled format args s =
    if not enabled then some (s, 0) else message info_prefix format args s

unfoldable serial_warn : (enabled : Bool) (format : List ℕ) → List Arg → Sinks → Option (Sinks × ℕ)
serial_warn enabled format args s =
    if not enabled then some (s, 0) else message warn_prefix format args s

unfoldable serial_error : (format : List ℕ) → List Arg → Sinks → Option (Sinks × ℕ)
serial_error format args s = message error_prefix format args s

unfoldable serial_print_no_fancy : (format : List ℕ) → List Arg → Sinks → Option (Sinks × ℕ)
serial_print_no_fancy format args s = printf_to serial format args s

abbrev not_ready : List ℕ
not_ready =
    b'o' ∷ b'u' ∷ b't' ∷ b'p' ∷ b'u' ∷ b't' ∷ b':' ∷ b' ' ∷ b'p' ∷ b'r' ∷ b'i' ∷ b'n' ∷ b't' ∷ b' '
    ∷ b't' ∷ b'o' ∷ b' ' ∷ b'v' ∷ b'g' ∷ b'a' ∷ b' ' ∷ b'b' ∷ b'e' ∷ b'f' ∷ b'o' ∷ b'r' ∷ b'e'
    ∷ b' ' ∷ b'i' ∷ b'n' ∷ b'i' ∷ b't' ∷ b'i' ∷ b'a' ∷ b'l' ∷ b'i' ∷ b'z' ∷ b'a' ∷ b't' ∷ b'i'
    ∷ b'o' ∷ b'n' ∷ []

-- The length returned is 0 if the console is not there yet.
unfoldable vga_printf :
    (initialized enabled : Bool) (format : List ℕ) → List Arg → Sinks → Option (Sinks × ℕ)
vga_printf initialized enabled format args s =
    if not initialized
    then (elim (serial_warn enabled not_ready [] s) [ none ↦ none | some (s', n) ↦ some (s', 0) ])
    else printf_to frame_buffer format args s

put_all-serial :
    (text : List ℕ) (s : Sinks) → put_all text serial s ≡ record s { port = s.port ++ text }
unfolding put_all putchar
put_all-serial [] s = ap (λ t. record s { port = t }) (sym (append-nil s.port))
put_all-serial (c ∷ cs) s =
    put_all-serial cs (putchar c serial s)
    ∙ ap (λ t. record s { port = t }) (append_assoc s.port (c ∷ []) cs)

-- A message whose format fits its arguments adds its prefix, the text and the end of the line to the
-- serial port, leaves the console alone, and returns the length that `printf` counted.
message-line :
    (a b c d e f g : ℕ) (format text : List ℕ) (args : List Arg) (len : ℕ) (s : Sinks)
    → printf format args ≡ some (text, len)
    → message (a ∷ b ∷ c ∷ d ∷ e ∷ f ∷ g ∷ []) format args s
      ≡ some (
        record s { port = s.port ++ ((a ∷ b ∷ c ∷ d ∷ e ∷ f ∷ g ∷ []) ++ (text ++ 10 ∷ [])) },
        len,
      )
unfolding message printf_to print print_from putchar put_all
message-line a b c d e f g format text args len s h =
    let prefix = a ∷ b ∷ c ∷ d ∷ e ∷ f ∷ g ∷ [] in
    let printed : print serial prefix 7 s ≡ record s { port = s.port ++ prefix } =
      put_all-serial prefix s in
    let text_put = put_all-serial text (record s { port = s.port ++ prefix }) in
    let joined : ((s.port ++ prefix) ++ text) ++ 10 ∷ [] ≡ s.port ++ (prefix ++ (text ++ 10 ∷ [])) =
      append_assoc (s.port ++ prefix) text (10 ∷ [])
      ∙ append_assoc s.port prefix (text ++ 10 ∷ []) in
    rw (h, printed, text_put, message, printf_to)
      (ap (λ t. some (record s { port = t }, len)) joined)
