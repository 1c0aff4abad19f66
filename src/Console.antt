-- ===== src/Console.antt =====
-- drivers/video/vga_default.c, the text screen: the 4000 bytes at VIDEO_ADDRESS, two for each cell of
-- 25 rows of 80 (the character and its attribute), and the cursor in registers 14 and 15 of the
-- controller behind the ports. The lock of `kprint` is left out, as one call runs at a time here.
pub mod Scroll
pub mod Cursor
pub mod Put
pub mod Cells
pub mod Print
mod Tests
use hatcher.Base.{
  ℕ, zero, suc, ◌+◌, ◌-◌, ◌*◌, ◌/◌, ◌%◌, ◌^◌, Bool, true, false, Option, none, some, List, [], ◌∷◌,
  ◌==◌, ◌&&◌, ◌||◌, ltb, leb, if◌then◌else◌, u8, u16, update,
}

-- `vga` is by the offset from VIDEO_ADDRESS, `crtc` by the register; `color` is the static variable
-- of `kprint`.
pub record Screen : Type 0 where
  pub vga : ℕ → ℕ
  pub crtc : ℕ → ℕ
  pub color : ℕ

abbrev pub max_rows : ℕ
max_rows = 25

abbrev pub max_cols : ℕ
max_cols = 80

abbrev pub white_on_black : ℕ
white_on_black = 0x07

unfoldable pub get_cursor : Screen → ℕ
get_cursor s = u16 ((s.crtc 14 * 2 ^ 8 + s.crtc 15) * 2)

-- `pos` is a `uint16_t`.
unfoldable pub set_cursor : ℕ → Screen → Screen
set_cursor pos s = record s {
  crtc = update (update s.crtc 14 (u8 (u16 pos / 2 / 2 ^ 8))) 15 (u8 (u16 pos / 2));
}

unfoldable pub write : ℕ → ℕ → ℕ → Screen → Screen
write character attribute_byte offset s = record s {
  vga = update (update s.vga offset character) (offset + 1) attribute_byte;
}

-- The inner loop of `scroll_line`, with `n` columns left from `col` on.
unfoldable pub scroll_cols : ℕ → ℕ → ℕ → (ℕ → ℕ) → ℕ → ℕ
scroll_cols row zero col f = f
scroll_cols row (suc n) col f =
    let from = (row * max_cols + col) * 2 in
    let to = ((row - 1) * max_cols + col) * 2 in
    let g = update f to (f from) in scroll_cols row n (col + 1) (update g (to + 1) (g (from + 1)))

-- Its outer loop, with `n` rows left from `row` on.
unfoldable pub scroll_rows : ℕ → ℕ → (ℕ → ℕ) → ℕ → ℕ
unfolding scroll_cols
scroll_rows zero row f = f
scroll_rows (suc n) row f = scroll_rows n (row + 1) (scroll_cols row max_cols 0 f)

-- Its last loop, which blanks the last row.
unfoldable pub blank_cols : ℕ → ℕ → (ℕ → ℕ) → ℕ → ℕ
blank_cols zero col f = f
blank_cols (suc n) col f =
    let last = (max_rows - 1) * max_cols * 2 in
    blank_cols n (col + 1)
      (update (update f (last + col * 2) b' ') (last + col * 2 + 1) white_on_black)

unfoldable pub scroll_line : Screen → Screen
unfolding scroll_rows blank_cols set_cursor
scroll_line s =
    set_cursor ((max_rows - 1) * max_cols * 2)
      (record s { vga = blank_cols max_cols 0 (scroll_rows (max_rows - 1) 1 s.vga) })

-- The next line, at the cursor's offset.
unfoldable pub new_line : ℕ → Screen → Screen
unfolding scroll_line set_cursor
new_line offset s =
    if offset / 2 / max_cols == max_rows - 1
    then scroll_line s
    else set_cursor (offset - offset % (max_cols * 2) + max_cols * 2) s

-- The last lines of `putchar`.
unfoldable pub put_at_cursor : ℕ → ℕ → Screen → Screen
unfolding get_cursor scroll_line write set_cursor
put_at_cursor character attribute_byte s =
    let offset = get_cursor s in
    let s' = if offset == max_cols * max_rows * 2 then scroll_line s else s in
    set_cursor (offset + 2) (write character attribute_byte offset s')

-- `putchar` of a character that is neither a newline nor a backspace.
unfoldable pub put_plain : ℕ → ℕ → Screen → Screen
unfolding get_cursor new_line put_at_cursor
put_plain character attribute_byte s =
    let offset = get_cursor s in
    put_at_cursor character attribute_byte
      (if leb (max_cols - 1) (offset / 2 % max_cols) then new_line offset s else s)

-- `set_cursor(get_cursor() - n)`
unfoldable pub move_back : ℕ → Screen → Screen
unfolding get_cursor set_cursor
move_back n s = set_cursor (u16 (get_cursor s + 2 ^ 16 - n)) s

unfoldable pub putchar : ℕ → ℕ → Screen → Screen
unfolding get_cursor new_line put_plain move_back
putchar character attribute_byte s =
    if character == b'\n'
    then new_line (get_cursor s) s
    else if character == 8
    then move_back 2 (put_plain b' ' attribute_byte (move_back 1 s))
    else put_plain character attribute_byte s

unfoldable pub kclear_loop : ℕ → ℕ → Screen → Screen
unfolding write
kclear_loop zero offset s = s
kclear_loop (suc n) offset s = kclear_loop n (offset + 2) (write 0 white_on_black offset s)

-- One round of its loop for each cell.
unfoldable pub kclear : Screen → Screen
unfolding kclear_loop set_cursor
kclear s = set_cursor 0 (kclear_loop (max_rows * max_cols) 0 s)

unfoldable pub get_cursor_x : Screen → ℕ
unfolding get_cursor
get_cursor_x s = u8 (get_cursor s / 2 % max_cols)

unfoldable pub get_cursor_y : Screen → ℕ
unfolding get_cursor
get_cursor_y s = u8 (get_cursor s / 2 / max_cols)

unfoldable pub set_cursor_xy : ℕ → ℕ → Screen → Screen
unfolding set_cursor
set_cursor_xy x y s =
    let x' = if leb max_cols x then max_cols - 1 else x in
    let y' = if leb max_rows y then max_rows - 1 else y in
    set_cursor (u16 (y' * max_cols + x') * 2) s

abbrev pub is_hex : ℕ → Bool
is_hex c = (leb b'0' c && leb c b'9') || (leb b'A' c && leb c b'F')

abbrev pub hex_value : ℕ → ℕ
hex_value c = if leb c b'9' then c - b'0' else c - b'A' + 10

abbrev pub set_color : ℕ → Screen → Screen
set_color c s = record s { color = c }

-- Whether a text begins with a colour code, and the colour.
unfoldable pub color_code : List ℕ → Option ℕ
color_code (c₀ ∷ c₁ ∷ hi ∷ lo ∷ c₄ ∷ c₅ ∷ str) =
    if c₀ == b'<' && c₁ == b'(' && is_hex hi && is_hex lo && c₄ == b')' && c₅ == b'>'
    then some (hex_value hi * 16 + hex_value lo)
    else none
color_code _ = none

-- The loop of `kprint`; `skip` characters of a code are still to be passed over.
unfoldable pub kprint_loop : ℕ → List ℕ → Screen → Screen
unfolding color_code putchar
kprint_loop skip [] s = s
kprint_loop (suc skip) (c ∷ str) s = kprint_loop skip str s
kprint_loop zero (c ∷ str) s = elim (color_code (c ∷ str)) [
  | none ↦ kprint_loop 0 str (putchar c s.color s)
  | some color ↦ kprint_loop 5 str (set_color color s)
]

unfoldable pub kprint : List ℕ → Screen → Screen
unfolding kprint_loop
kprint str s = kprint_loop 0 str s
