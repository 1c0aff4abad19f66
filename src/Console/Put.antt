-- ===== src/Console/Put.antt =====
-- `putchar` on every branch, and that it stays on the screen.
use hatcher.Base.{
  ℕ, ◌+◌, ◌-◌, ◌*◌, ◌/◌, ◌%◌, ◌<◌, ◌≡◌, ◌≢◌, refl, ap, ◌∙◌, false, inl, inr, arith, if-false, ◌⊎◌,
  ==_iff, ◌==◌, if◌then◌else◌, Bool-cases,
}
use hatcher.Console.{Screen, get_cursor, new_line, put_plain, move_back, putchar}
use hatcher.Console.Cells.{
  IsOn, line_start, line_bytes, new_line_lem, place, put, put_plain_lem, moved_back,
}

-- Where `putchar` leaves the cursor, and the bytes of the screen.
abbrev pub cursor_after : ℕ → ℕ → ℕ
cursor_after c offset =
    if c == b'\n'
    then line_start offset
    else if c == 8
    then place (offset - 2)
    else place offset + 2

abbrev pub bytes_after : ℕ → ℕ → ℕ → (ℕ → ℕ) → ℕ → ℕ
bytes_after c a offset f x =
    if c == b'\n'
    then line_bytes offset f x
    else if c == 8
    then put b' ' a (offset - 2) f x
    else put c a offset f x

place_on :
    (offset : ℕ) → offset < 4000 → offset % 2 ≡ 0 → (place offset < 3998) × (place offset % 2 ≡ 0)
place_on offset low even = (ground arith, ground arith)

line_start_on :
    (offset : ℕ) → offset < 4000 → (line_start offset < 4000) × (line_start offset % 2 ≡ 0)
line_start_on offset low = (ground arith, ground arith)

-- What a step does to the cursor and the bytes; the cursor stays on a cell.
abbrev pub Does : ℕ → (ℕ → ℕ) → Screen → Type 0
Does offset f s =
    (get_cursor s ≡ offset) × ((x : ℕ) → s.vga x ≡ f x) × (offset < 4000) × (offset % 2 ≡ 0)

backspace :
    (a offset : ℕ) (s : Screen)
    → get_cursor s ≡ offset
    → offset < 4000
    → offset % 2 ≡ 0
    → 0 < offset
    → Does
        (place (offset - 2))
        (put b' ' a (offset - 2) s.vga)
        (move_back 2 (put_plain b' ' a (move_back 1 s)))
backspace a offset s at low even some_left =
    let (start, same) = moved_back 1 offset s at (omega arith) (omega arith) in
    let half : (offset - 1) / 2 * 2 ≡ offset - 2 = omega arith in
    let (cursor, cells) =
      put_plain_lem b' ' a (offset - 2) (move_back 1 s) (start ∙ half) (omega arith)
        (omega arith) in
    let (on, even') = place_on (offset - 2) (omega arith) (omega arith) in
    let (end, kept) =
      moved_back 2 (place (offset - 2) + 2) (put_plain b' ' a (move_back 1 s)) cursor (omega arith)
        (omega arith) in
    (
      end ∙ omega arith,
      λ x. ap (λ f. f x) kept ∙ cells x ∙ ap (λ f. put b' ' a (offset - 2) f x) same,
      omega arith,
      even',
    )

putchar_newline : (a : ℕ) (s : Screen) → putchar b'\n' a s ≡ new_line (get_cursor s) s
unfolding putchar
putchar_newline a s = refl

putchar_backspace :
    (a : ℕ) (s : Screen) → putchar 8 a s ≡ move_back 2 (put_plain b' ' a (move_back 1 s))
unfolding putchar
putchar_backspace a s = refl

putchar_plain :
    (c a : ℕ) (s : Screen)
    → (c == b'\n') ≡ false
    → (c == 8) ≡ false
    → putchar c a s ≡ put_plain c a s
unfolding putchar
putchar_plain c a s h h' =
    if-false (new_line (get_cursor s) s)
      (if c == 8 then move_back 2 (put_plain b' ' a (move_back 1 s)) else put_plain c a s) h
    ∙ if-false (move_back 2 (put_plain b' ' a (move_back 1 s))) (put_plain c a s) h'

-- `putchar` with the cursor on the screen leaves it there, except for a backspace at the first cell.
-- A newline goes to the start of the next line, and scrolls on the last one. A backspace writes a blank
-- to the cell before the cursor and goes there; with the cursor in the first column it writes the blank
-- to the cell of the cursor, and the cursor stays. Any other character is written with its attribute at
-- the cursor; with the cursor in the last column it is written at the start of the next line, on the last
-- line after a scroll. No byte changes but those of the cell that is written and those that a scroll
-- moves or blanks.
pub putchar_lem :
    (c a : ℕ) (s : Screen)
    → IsOn s
    → (c ≢ 8) ⊎ (0 < get_cursor s)
    → Does (cursor_after c (get_cursor s)) (bytes_after c a (get_cursor s) s.vga) (putchar c a s)
putchar_lem c a s on ok = elim (Bool-cases (c == b'\n')) [
  | inl newline ↦
      let same : c ≡ b'\n' = (==_iff _ _).0 newline in
      let (cursor, cells) = new_line_lem (get_cursor s) s on.0 on.1 in
      let (low, even) = line_start_on (get_cursor s) on.0 in
      simp same (rw (putchar_newline a s) (cursor, cells, low, even))
  | inr other ↦ elim (Bool-cases (c == 8)) [
    | inl erase ↦
        let same : c ≡ 8 = (==_iff _ _).0 erase in
        simp same
          (rw (putchar_backspace a s) (backspace a (get_cursor s) s refl on.0 on.1 (ground arith)))
    | inr plain ↦
        let (cursor, cells) = put_plain_lem c a (get_cursor s) s refl on.0 on.1 in
        let (low, even) = place_on (get_cursor s) on.0 on.1 in
        rw (putchar_plain c a s other plain)
          (simp (other, plain) (cursor, cells, omega arith, omega arith))
  ]
]
