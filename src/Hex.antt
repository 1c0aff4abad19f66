-- ===== src/Hex.antt =====
-- The hexadecimal output of drivers/video/vga_default.c, the other direct writers of that file, and
-- kernel/utils.c: the reading of hexadecimal text and the 8.3 names.
pub mod Bytes
mod Tests
use hatcher.Base.{
  ℕ, zero, suc, ◌+◌, ◌-◌, ◌*◌, ◌/◌, ◌%◌, ◌^◌, Bool, true, false, Option, none, some, List, [], ◌∷◌,
  ◌==◌, ◌&&◌, ltb, leb, not, if◌then◌else◌, u8, u16, length, replicate, set,
}
use hatcher.Text.{toupper, skip_while, take_while, strlen}
use hatcher.Console.{Screen, get_cursor, set_cursor, move_back, putchar, kprint, write, max_cols}
use hatcher.Format.{digit_char, int_to_str}

-- The loop that fills `hex_str` from its end, with `i` digits left.
unfoldable pub hex_loop : ℕ → ℕ → List ℕ → List ℕ
hex_loop zero value s = s
hex_loop (suc i) value s = hex_loop i (value / 16) (digit_char b'A' (value % 16) ∷ s)

unfoldable pub put_digits : List ℕ → Screen → Screen
unfolding putchar
put_digits [] s = s
put_digits (c ∷ str) s = put_digits str (putchar c 0x07 s)

unfoldable pub kprint_hex : ℕ → Screen → Screen
unfolding hex_loop put_digits
kprint_hex value s = put_digits (hex_loop 8 value []) s

-- `set_cursor(get_cursor() + n)`
unfoldable pub move_on : ℕ → Screen → Screen
unfolding get_cursor set_cursor
move_on n s = set_cursor (u16 (get_cursor s + n)) s

unfoldable pub put_digits_apart : List ℕ → Screen → Screen
unfolding putchar move_on
put_digits_apart [] s = s
put_digits_apart (c ∷ str) s = put_digits_apart str (move_on 2 (putchar c 0x07 s))

unfoldable pub kprint_hex_w : ℕ → Screen → Screen
unfolding hex_loop put_digits_apart
kprint_hex_w value s = put_digits_apart (hex_loop 4 value []) s

unfoldable pub kprintc : List ℕ → ℕ → Screen → Screen
unfolding putchar move_back move_on
kprintc [] attr s = s
kprintc (c ∷ str) attr s =
    if c == 8
    then kprintc str attr (move_back 2 (putchar b' ' attr s))
    else kprintc str attr (move_on 1 (putchar c attr s))

unfoldable pub kprinti : ℕ → Screen → Screen
unfolding int_to_str kprint
kprinti number s = kprint (int_to_str number) s

unfoldable pub kprintci : ℕ → ℕ → Screen → Screen
unfolding int_to_str kprintc
kprintci number attr s = kprintc (int_to_str number) attr s

-- The characters of a text with an attribute, at consecutive cells.
unfoldable pub write_cells : List ℕ → ℕ → ℕ → Screen → Screen
unfolding write
write_cells [] attr offset s = s
write_cells (c ∷ str) attr offset s = write_cells str attr (offset + 2) (write c attr offset s)

unfoldable pub kprintci_vidmem : ℕ → ℕ → ℕ → Screen → Screen
unfolding int_to_str write_cells
kprintci_vidmem number attr offset s = write_cells (int_to_str number) attr offset s

unfoldable pub kprinti_vidmem : ℕ → ℕ → Screen → Screen
unfolding int_to_str write_cells
kprinti_vidmem number offset s = write_cells (int_to_str number) 0x07 offset s

-- The loop of `vga_draw_text`; `write` takes a `uint16_t`.
unfoldable pub draw_cells : List ℕ → ℕ → ℕ → Screen → Screen
unfolding write
draw_cells [] color offset s = s
draw_cells (c ∷ text) color offset s =
    draw_cells text color (offset + 2) (write c color (u16 offset) s)

unfoldable pub vga_draw_text : List ℕ → ℕ → ℕ → ℕ → Screen → Screen
unfolding draw_cells
vga_draw_text text x y color s = draw_cells text color ((y * max_cols + x) * 2) s

abbrev pub hex_char_to_byte : ℕ → ℕ
hex_char_to_byte c =
    if leb b'0' c && leb c b'9'
    then c - b'0'
    else if leb b'a' c && leb c b'f'
    then c - b'a' + 10
    else if leb b'A' c && leb c b'F'
    then c - b'A' + 10
    else 0

-- The bytes that are written, at most `max_bytes`.
unfoldable pub hexstr_to_bytes : ℕ → List ℕ → List ℕ
hexstr_to_bytes zero hex_str = []
hexstr_to_bytes (suc max_bytes) [] = []
hexstr_to_bytes (suc max_bytes) (c ∷ []) = []
hexstr_to_bytes (suc max_bytes) (c ∷ d ∷ hex_str) =
    (u8 (hex_char_to_byte c * 16) + hex_char_to_byte d) ∷ hexstr_to_bytes max_bytes hex_str

-- The loops of `fat_name_from_string`: at most `room` characters, from place `j` on.
unfoldable pub copy_upper : ℕ → ℕ → List ℕ → List ℕ → List ℕ
copy_upper zero j src dest = dest
copy_upper (suc room) j [] dest = dest
copy_upper (suc room) j (c ∷ src) dest = copy_upper room (j + 1) src (set dest j (toupper c))

abbrev pub behind_dot : List ℕ → List ℕ
behind_dot [] = []
behind_dot (c ∷ s) = s

-- `src` is none where it is NULL.
unfoldable pub fat_name_from_string : Option (List ℕ) → List ℕ
unfolding copy_upper take_while skip_while
fat_name_from_string none = replicate 11 b' '
fat_name_from_string (some src) =
    let is_name = λ (c : ℕ). not (c == b'.') in
    copy_upper 3 8 (behind_dot (skip_while is_name src))
      (copy_upper 8 0 (take_while is_name src) (replicate 11 b' '))
