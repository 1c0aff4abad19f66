-- ===== src/Console/Cells.antt =====
-- What `new_line`, `put_plain` and `move_back` do to the cells and the cursor.
use hatcher.Base.{
  ℕ, ◌+◌, ◌-◌, ◌*◌, ◌/◌, ◌%◌, ◌^◌, ◌≤◌, ◌<◌, ◌≡◌, refl, ap, ◌∙◌, Bool, true, false, inl, inr, arith,
  if-true, if-false, ◌==◌, leb, if◌then◌else◌, Bool-cases, u16,
}
use hatcher.Console.{
  Screen, get_cursor, set_cursor, write, scroll_line, new_line, put_at_cursor, put_plain, move_back,
  max_rows, max_cols,
}
use hatcher.Console.Cursor.{get_cursor-set_cursor}
use hatcher.Console.Scroll.{scrolled, scroll_line-scrolled}

-- The cursor stands on a cell of the screen.
abbrev pub IsOn : Screen → Type 0
IsOn s = (get_cursor s < 4000) × (get_cursor s % 2 ≡ 0)

-- Where the line break puts the cursor, and whether it scrolls.
abbrev pub line_start : ℕ → ℕ
line_start offset = if leb 3840 offset then 3840 else (offset / 160 + 1) * 160

abbrev pub line_bytes : ℕ → (ℕ → ℕ) → ℕ → ℕ
line_bytes offset f x = if leb 3840 offset then scrolled f x else f x

scrolls :
    (offset : ℕ) (s : Screen)
    → (offset / 2 / max_cols == max_rows - 1) ≡ true
    → new_line offset s ≡ scroll_line s
unfolding new_line
scrolls offset s h =
    if-true (scroll_line s) (set_cursor (offset - offset % (max_cols * 2) + max_cols * 2) s) h

moves :
    (offset : ℕ) (s : Screen)
    → (offset / 2 / max_cols == max_rows - 1) ≡ false
    → new_line offset s ≡ set_cursor (offset - offset % (max_cols * 2) + max_cols * 2) s
unfolding new_line
moves offset s h =
    if-false (scroll_line s) (set_cursor (offset - offset % (max_cols * 2) + max_cols * 2) s) h

next_row :
    (offset : ℕ)
    → offset < 4000
    → leb 3840 offset ≡ false
    → u16 (offset - offset % (max_cols * 2) + max_cols * 2) / 2 * 2 ≡ (offset / 160 + 1) * 160
next_row offset low more =
    let small : offset - offset % 160 + 160 ≡ (offset / 160 + 1) * 160 = omega arith in
    rw small (ground arith)

vga-set_cursor : (pos : ℕ) (s : Screen) → (set_cursor pos s).vga ≡ s.vga
unfolding set_cursor
vga-set_cursor pos s = refl

pub new_line_lem :
    (offset : ℕ) (s : Screen)
    → offset < 4000
    → offset % 2 ≡ 0
    → (get_cursor (new_line offset s) ≡ line_start offset)
      × ((x : ℕ) → (new_line offset s).vga x ≡ line_bytes offset s.vga x)
new_line_lem offset s low even = elim (Bool-cases (leb 3840 offset)) [
  | inl last ↦
      let at_end : (offset / 2 / max_cols == max_rows - 1) ≡ true = ground arith in
      let (bytes, place, _) = scroll_line-scrolled s in
      rw (scrolls offset s at_end) (simp last (place, bytes))
  | inr more ↦
      let not_end : (offset / 2 / max_cols == max_rows - 1) ≡ false = ground arith in
      let to = offset - offset % (max_cols * 2) + max_cols * 2 in
      rw (moves offset s not_end) (
        simp more (
          get_cursor-set_cursor to s ∙ next_row offset low more,
          λ x. ap (λ f. f x) (vga-set_cursor to s),
        ))
]

-- A character goes to the cell of the cursor, or to the start of the next line if that cell is in
-- the last column.
abbrev pub wraps : ℕ → Bool
wraps offset = leb 79 (offset / 2 % 80)

abbrev pub place : ℕ → ℕ
place offset = if wraps offset then line_start offset else offset

abbrev pub put : ℕ → ℕ → ℕ → (ℕ → ℕ) → ℕ → ℕ
put character attribute_byte offset f x =
    let q = place offset in
    let g : ℕ → ℕ = λ y. if wraps offset then line_bytes offset f y else f y in
    if x == q + 1 then attribute_byte else if x == q then character else g x

put_here :
    (c a q : ℕ) (w : Screen)
    → get_cursor w ≡ q
    → q < 3998
    → q % 2 ≡ 0
    → (get_cursor (put_at_cursor c a w) ≡ q + 2)
      × ((x : ℕ)
          → (put_at_cursor c a w).vga x ≡ (if x == q + 1 then a else if x == q then c else w.vga x))
put_here c a q w at low even =
    let inside : (q == max_cols * max_rows * 2) ≡ false = ground arith in
    rw (plain c a w, at)
      (simp inside (
        get_cursor-set_cursor (q + 2) (write c a q w) ∙ omega arith,
        λ x. ap (λ f. f x) (vga-set_cursor (q + 2) (write c a q w)) ∙ vga-write c a q w x,
      ))
  where
    plain :
        (c a : ℕ) (w : Screen)
        → put_at_cursor c a w
          ≡ set_cursor (get_cursor w + 2) (
              write c a
                (get_cursor w)
                (if get_cursor w == max_cols * max_rows * 2 then scroll_line w else w))
    plain c a w = unfold put_at_cursor in refl

    vga-write :
        (c a q : ℕ) (w : Screen) (x : ℕ)
        → (write c a q w).vga x ≡ (if x == q + 1 then a else if x == q then c else w.vga x)
    vga-write c a q w x = unfold write in refl

pub put_plain_lem :
    (c a offset : ℕ) (s : Screen)
    → get_cursor s ≡ offset
    → offset < 4000
    → offset % 2 ≡ 0
    → (get_cursor (put_plain c a s) ≡ place offset + 2)
      × ((x : ℕ) → (put_plain c a s).vga x ≡ put c a offset s.vga x)
put_plain_lem c a offset s at low even = elim (Bool-cases (wraps offset)) [
  | inl wrap ↦
      let (start, bytes) = new_line_lem offset s low even in
      let (cursor, cells) =
        put_here c a (line_start offset) (new_line offset s) start (ground arith) (ground arith) in
      rw (wrapped c a s, at)
        (simp wrap (
          cursor,
          λ x.
              cells x
              ∙ ap
                  (λ v.
                    if x == line_start offset + 1
                    then a
                    else if x == line_start offset
                    then c
                    else v)
                  (bytes x),
        ))
  | inr fits ↦
      let (cursor, cells) = put_here c a offset s at (ground arith) even in
      rw (wrapped c a s, at) (simp fits (cursor, cells))
]
  where
    wrapped :
        (c a : ℕ) (s : Screen)
        → put_plain c a s
          ≡ put_at_cursor c a (if wraps (get_cursor s) then new_line (get_cursor s) s else s)
    wrapped c a s = unfold put_plain in refl

pub moved_back :
    (n offset : ℕ) (s : Screen)
    → get_cursor s ≡ offset
    → n ≤ offset
    → offset < 2 ^ 16
    → (get_cursor (move_back n s) ≡ (offset - n) / 2 * 2) × ((move_back n s).vga ≡ s.vga)
moved_back n offset s at le small =
    rw (back n s, at)
      (
        get_cursor-set_cursor (u16 (offset + 2 ^ 16 - n)) s ∙ omega arith,
        vga-set_cursor (u16 (offset + 2 ^ 16 - n)) s,
      )
  where
    back : (n : ℕ) (s : Screen) → move_back n s ≡ set_cursor (u16 (get_cursor s + 2 ^ 16 - n)) s
    back n s = unfold move_back in refl
