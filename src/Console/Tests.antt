-- ===== src/Console/Tests.antt =====
-- The screen's theorems with the cursor in the last row.
use hatcher.Base.{ℕ, ◌≡◌, refl, [], ◌∷◌, arith, inl, ltb, if◌then◌else◌}
use hatcher.Console.{
  Screen, get_cursor, scroll_line, putchar, kprint, get_cursor_x, get_cursor_y, set_cursor_xy,
}
use hatcher.Console.Cursor.{get_cursor-set_cursor_xy}
use hatcher.Console.Scroll.{scrolled, scroll_line-scrolled}
use hatcher.Console.Put.{Does, cursor_after, bytes_after, putchar_lem}
use hatcher.Console.Cells.{IsOn}

-- The cursor is at cell 1999, the last one.
abbrev corner : Screen
corner = record { vga = λ x. x; crtc = λ r. if ltb r 15 then 7 else 207; color = 7 }

corner_cursor : get_cursor corner ≡ 3998
unfolding get_cursor
corner_cursor = refl

corner-IsOn : IsOn corner
unfolding get_cursor
corner-IsOn = (omega arith, refl)

get_cursor-set_cursor_xy_example :
    let s = set_cursor_xy 100 3 corner in
    (get_cursor_x s ≡ (if ltb 100 80 then 100 else 79))
    × (get_cursor_y s ≡ (if ltb 3 25 then 3 else 24))
get_cursor-set_cursor_xy_example = get_cursor-set_cursor_xy 100 3 corner

scroll_line-scrolled_example :
    ((x : ℕ) → (scroll_line corner).vga x ≡ scrolled corner.vga x)
    × (get_cursor (scroll_line corner) ≡ 3840)
    × ((scroll_line corner).color ≡ 7)
scroll_line-scrolled_example = scroll_line-scrolled corner

putchar_lem_example :
    Does
      (cursor_after b'A' (get_cursor corner))
      (bytes_after b'A' 7 (get_cursor corner) corner.vga)
      (putchar b'A' 7 corner)
putchar_lem_example = putchar_lem b'A' 7 corner corner-IsOn (inl (λ e. omega arith))

-- A backspace at the first cell puts the cursor behind the screen.
abbrev origin : Screen
origin = record { vga = λ x. x; crtc = λ r. 0; color = 7 }

backspace_leaves : get_cursor (putchar 8 7 origin) ≡ 65534
unfolding putchar
backspace_leaves = refl

-- "<(0A)>" sets the colour.
kprint_color : (kprint (b'<' ∷ b'(' ∷ b'0' ∷ b'A' ∷ b')' ∷ b'>' ∷ []) origin).color ≡ 10
unfolding kprint
kprint_color = refl
