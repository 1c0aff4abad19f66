-- ===== src/Console/Cursor.antt =====
-- The cursor registers.
use hatcher.Base.{ℕ, ◌*◌, ◌/◌, ◌≡◌, arith, ltb, if◌then◌else◌, u16}
use hatcher.Console.{Screen, get_cursor, set_cursor, get_cursor_x, get_cursor_y, set_cursor_xy}

-- `get_cursor` returns what was given to `set_cursor`, rounded down to a cell.
pub get_cursor-set_cursor : (pos : ℕ) (s : Screen) → get_cursor (set_cursor pos s) ≡ u16 pos / 2 * 2
unfolding get_cursor set_cursor
get_cursor-set_cursor pos s = omega arith

-- `get_cursor_x` and `get_cursor_y` return the column and the row given to `set_cursor_xy`, which
-- stops at the last ones.
pub get_cursor-set_cursor_xy :
    (x y : ℕ) (s : Screen)
    → let s' = set_cursor_xy x y s in
      (get_cursor_x s' ≡ (if ltb x 80 then x else 79))
      × (get_cursor_y s' ≡ (if ltb y 25 then y else 24))
unfolding get_cursor_x get_cursor_y set_cursor_xy get_cursor
get_cursor-set_cursor_xy x y s = (ground arith, ground arith)
