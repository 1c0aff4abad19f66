-- ===== src/Keyboard.antt =====
-- drivers/in/ps2.c, the keyboard: the ring buffer that the interrupt handler fills, the translation
-- of scancodes, and the line that `kgets` edits. A `char` is its byte; all that occur are below 128.
pub mod Queue
pub mod Keys
pub mod Input
mod Tests
use hatcher.Base.{
  ℕ, zero, suc, ◌+◌, ◌-◌, ◌%◌, Bool, true, false, not, Option, none, some, List, [], ◌∷◌, ◌++◌,
  ◌&&◌, ◌||◌, ◌==◌, ltb, leb, if◌then◌else◌, get_or, set, take, u32,
}

-- The file's static variables. `kb_buf` has 128 bytes.
pub record Keyboard : Type 0 where
  pub kb_buf : List ℕ
  pub kb_head : ℕ
  pub kb_tail : ℕ
  pub shift_pressed : Bool
  pub caps_lock : Bool

abbrev pub kb_buf_size : ℕ
kb_buf_size = 128

-- The table's entries up to the last one that is not 0; the entries behind it are 0.
abbrev pub scancode_ascii : List ℕ
scancode_ascii =
    0 ∷ 27 ∷ b'1' ∷ b'2' ∷ b'3' ∷ b'4' ∷ b'5' ∷ b'6' ∷ b'7' ∷ b'8' ∷ b'9' ∷ b'0' ∷ b'-' ∷ b'=' ∷ 8
    ∷ b'\t' ∷ b'q' ∷ b'w' ∷ b'e' ∷ b'r' ∷ b't' ∷ b'y' ∷ b'u' ∷ b'i' ∷ b'o' ∷ b'p' ∷ b'[' ∷ b']'
    ∷ b'\n' ∷ 0 ∷ b'a' ∷ b's' ∷ b'd' ∷ b'f' ∷ b'g' ∷ b'h' ∷ b'j' ∷ b'k' ∷ b'l' ∷ b';' ∷ b'\'' ∷ b'`'
    ∷ 0 ∷ b'\\' ∷ b'z' ∷ b'x' ∷ b'c' ∷ b'v' ∷ b'b' ∷ b'n' ∷ b'm' ∷ b',' ∷ b'.' ∷ b'/' ∷ 0 ∷ b'*' ∷ 0
    ∷ b' ' ∷ []

abbrev pub scancode_ascii_shift : List ℕ
scancode_ascii_shift =
    0 ∷ 27 ∷ b'!' ∷ b'@' ∷ b'#' ∷ b'$' ∷ b'%' ∷ b'^' ∷ b'&' ∷ b'*' ∷ b'(' ∷ b')' ∷ b'_' ∷ b'+' ∷ 8
    ∷ b'\t' ∷ b'Q' ∷ b'W' ∷ b'E' ∷ b'R' ∷ b'T' ∷ b'Y' ∷ b'U' ∷ b'I' ∷ b'O' ∷ b'P' ∷ b'{' ∷ b'}'
    ∷ b'\n' ∷ 0 ∷ b'A' ∷ b'S' ∷ b'D' ∷ b'F' ∷ b'G' ∷ b'H' ∷ b'J' ∷ b'K' ∷ b'L' ∷ b':' ∷ b'"' ∷ b'~'
    ∷ 0 ∷ b'|' ∷ b'Z' ∷ b'X' ∷ b'C' ∷ b'V' ∷ b'B' ∷ b'N' ∷ b'M' ∷ b'<' ∷ b'>' ∷ b'?' ∷ 0 ∷ b'*' ∷ 0
    ∷ b' ' ∷ []

unfoldable pub keyboard_buffer_push : ℕ → Keyboard → Keyboard
keyboard_buffer_push c k =
    let next = u32 (k.kb_head + 1) % kb_buf_size in
    if next == k.kb_tail then k else record k { kb_buf = set k.kb_buf k.kb_head c; kb_head = next }

-- The result is 0 where this is `none`.
unfoldable pub keyboard_buffer_pop : Keyboard → Option ℕ × Keyboard
keyboard_buffer_pop k = if k.kb_head == k.kb_tail then (none, k) else (
  some (get_or k.kb_buf k.kb_tail 0),
  record k { kb_tail = u32 (k.kb_tail + 1) % kb_buf_size },
)

abbrev pub xor : Bool → Bool → Bool
xor true b = not b
xor false b = b

-- The character of a key, from its entries in the two tables.
unfoldable pub translate : Bool → Bool → ℕ → ℕ → ℕ
translate shift caps c c_shift =
    if leb b'a' c && leb c b'z'
    then (if xor shift caps then c - b'a' + b'A' else c)
    else if leb b'A' c && leb c b'Z'
    then (if not (xor shift caps) then c - b'A' + b'a' else c)
    else if shift && not (c_shift == 0)
    then c_shift
    else c

-- `scancode` is what `inb(0x60)` returns.
unfoldable pub keyboard_handler : ℕ → Keyboard → Keyboard
unfolding keyboard_buffer_push translate
keyboard_handler scancode k =
    if scancode == 42 || scancode == 54
    then record k { shift_pressed = true }
    else if scancode == 170 || scancode == 182
    then record k { shift_pressed = false }
    else if scancode == 58
    then record k { caps_lock = not k.caps_lock }
    else if ltb scancode 128
    then (let c =
          translate k.shift_pressed k.caps_lock (get_or scancode_ascii scancode 0)
            (get_or scancode_ascii_shift scancode 0) in
        if c == 0 then k else keyboard_buffer_push c k)
    else k

-- The interrupts that come in one call of `thread_yield`.
unfoldable pub handle_all : List ℕ → Keyboard → Keyboard
unfolding keyboard_handler
handle_all [] k = k
handle_all (scancode ∷ rest) k = handle_all rest (keyboard_handler scancode k)

-- The list holds the scancodes that come in each call of `thread_yield`; `none` if the loop still
-- waits at its end. The rounds that are not used are returned.
unfoldable pub kgetch : List (List ℕ) → Keyboard → Option (ℕ × Keyboard × List (List ℕ))
kgetch [] k = elim (keyboard_buffer_pop k).0 [
  | none ↦ none
  | some c ↦ some (c, (keyboard_buffer_pop k).1, [])
]
kgetch (codes ∷ rounds) k =
    let waited = kgetch rounds (handle_all codes (keyboard_buffer_pop k).1) in
    elim (keyboard_buffer_pop k).0 [
      | none ↦ waited
      | some c ↦ some (c, (keyboard_buffer_pop k).1, codes ∷ rounds)
    ]

-- `buf` and `pos` of `kgets`, and what it has printed.
pub record Line : Type 0 where
  pub buf : List ℕ
  pub pos : ℕ
  pub echo : List ℕ

-- One round of the loop of `kgets` for a character that does not end the line.
unfoldable pub kgets_char : ℕ → Line → Line
kgets_char c l =
    if (c == 8 || c == 127) && ltb 0 l.pos
    then record l { pos = l.pos - 1; echo = l.echo ++ (8 ∷ b' ' ∷ 8 ∷ []) }
    else if leb 32 c && ltb c 127 && ltb l.pos 255
    then record l { buf = set l.buf l.pos c; pos = l.pos + 1; echo = l.echo ++ (c ∷ []) }
    else l

-- The loop, on the characters that `kgetch` returns; `none` if no line end is among them. The static
-- buffer keeps its bytes from one call to the next.
unfoldable pub kgets_loop : List ℕ → Line → Option Line
unfolding kgets_char
kgets_loop [] l = none
kgets_loop (c ∷ input) l =
    let rest = kgets_loop input (kgets_char c l) in
    if c == b'\n' || c == b'\r'
    then some (record l { buf = set l.buf l.pos 0; echo = l.echo ++ (b'\n' ∷ []) })
    else rest

-- The line, up to the NUL that was written at `pos`.
unfoldable pub kgets : List ℕ → List ℕ → Option (List ℕ)
unfolding kgets_loop
kgets buf input = elim (kgets_loop input (record { buf = buf; pos = 0; echo = [] })) [
  | none ↦ none
  | some l ↦ some (take l.pos l.buf)
]
