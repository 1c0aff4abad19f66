-- ===== src/Console/Scroll.antt =====
-- `scroll_line` moves each row one up.
use hatcher.Base.{
  ℕ, zero, suc, ◌+◌, ◌-◌, ◌*◌, ◌%◌, ◌<◌, ◌≡◌, refl, ap, ◌∙◌, Bool, true, false, inl, inr, arith,
  ◌==◌, ◌&&◌, ltb, leb, if◌then◌else◌, Bool-cases, update,
}
use hatcher.Console.{Screen, scroll_cols, scroll_rows, blank_cols, scroll_line, get_cursor}
use hatcher.Console.Cursor.{get_cursor-set_cursor}

abbrev within : ℕ → ℕ → ℕ → Bool
within d n x = leb d x && ltb x (d + n)

two_moved :
    (f : ℕ → ℕ) (to x : ℕ)
    → let from = to + 160 in
      let g = update f to (f from) in
      update g (to + 1) (g (from + 1)) x ≡ (if within to 2 x then f (x + 160) else f x)
two_moved f to x = elim (Bool-cases (x == to)) [
  | inl first ↦
      let here : within to 2 x ≡ true = ground arith in
      let not_second : (x == to + 1) ≡ false = ground arith in
      let same : to + 160 ≡ x + 160 = ground arith in simp (first, here, not_second) (ap f same)
  | inr other ↦ elim (Bool-cases (x == to + 1)) [
    | inl second ↦
        let here : within to 2 x ≡ true = ground arith in
        let apart : (to + 160 + 1 == to) ≡ false = ground arith in
        let same : to + 160 + 1 ≡ x + 160 = ground arith in
        simp (other, second, here, apart) (ap f same)
    | inr neither ↦ let away : within to 2 x ≡ false = ground arith in simp (other, neither, away)
  ]
]

scroll_cols_lem :
    (row n col : ℕ) (f : ℕ → ℕ) (x : ℕ)
    → 0 < row
    → scroll_cols row n col f x
      ≡ (if within (((row - 1) * 80 + col) * 2) (n * 2) x then f (x + 160) else f x)
unfolding scroll_cols
scroll_cols_lem row zero col f x h =
    let away : within (((row - 1) * 80 + col) * 2) (zero * 2) x ≡ false = ground arith in simp away
scroll_cols_lem row (suc n) col f x h =
    let to = ((row - 1) * 80 + col) * 2 in
    let up : (row * 80 + col) * 2 ≡ to + 160 = omega arith in
    let g : ℕ → ℕ = update f to (f (to + 160)) in
    let f' : ℕ → ℕ = update g (to + 1) (g (to + 160 + 1)) in
    rw up (
      scroll_cols_lem row n (col + 1) f' x h
      ∙ elim (Bool-cases (within (((row - 1) * 80 + (col + 1)) * 2) (n * 2) x)) [
        | inl later ↦
            let all : within to (suc n * 2) x ≡ true = ground arith in
            let away : within to 2 (x + 160) ≡ false = ground arith in
            simp (later, all) (two_moved f to (x + 160) ∙ simp away refl)
        | inr other ↦ elim (Bool-cases (within to 2 x)) [
          | inl now ↦
              let all : within to (suc n * 2) x ≡ true = ground arith in
              simp (other, all) (two_moved f to x ∙ simp now refl)
          | inr never ↦
              let all : within to (suc n * 2) x ≡ false = ground arith in
              simp (other, all) (two_moved f to x ∙ simp never refl)
        ]
      ])

scroll_rows_lem :
    (n row : ℕ) (f : ℕ → ℕ) (x : ℕ)
    → 0 < row
    → scroll_rows n row f x ≡ (if within ((row - 1) * 160) (n * 160) x then f (x + 160) else f x)
unfolding scroll_rows
scroll_rows_lem zero row f x h =
    let away : within ((row - 1) * 160) (zero * 160) x ≡ false = ground arith in simp away
scroll_rows_lem (suc n) row f x h =
    scroll_rows_lem n (row + 1) (scroll_cols row 80 0 f) x (omega arith)
    ∙ elim (Bool-cases (within ((row + 1 - 1) * 160) (n * 160) x)) [
      | inl later ↦
          let all : within ((row - 1) * 160) (suc n * 160) x ≡ true = ground arith in
          let away : within (((row - 1) * 80 + 0) * 2) (80 * 2) (x + 160) ≡ false = ground arith in
          simp (later, all) (scroll_cols_lem row 80 0 f (x + 160) h ∙ simp away refl)
      | inr other ↦ elim (Bool-cases (within (((row - 1) * 80 + 0) * 2) (80 * 2) x)) [
        | inl now ↦
            let all : within ((row - 1) * 160) (suc n * 160) x ≡ true = ground arith in
            simp (other, all) (scroll_cols_lem row 80 0 f x h ∙ simp now refl)
        | inr never ↦
            let all : within ((row - 1) * 160) (suc n * 160) x ≡ false = ground arith in
            simp (other, all) (scroll_cols_lem row 80 0 f x h ∙ simp never refl)
      ]
    ]

abbrev pub blank : ℕ → ℕ
blank x = if x % 2 == 0 then b' ' else 0x07

two_blank :
    (f : ℕ → ℕ) (to x : ℕ)
    → to % 2 ≡ 0
    → update (update f to b' ') (to + 1) 0x07 x ≡ (if within to 2 x then blank x else f x)
two_blank f to x even = ground arith

blank_cols_lem :
    (n col : ℕ) (f : ℕ → ℕ) (x : ℕ)
    → blank_cols n col f x ≡ (if within (3840 + col * 2) (n * 2) x then blank x else f x)
unfolding blank_cols
blank_cols_lem zero col f x =
    let away : within (3840 + col * 2) (zero * 2) x ≡ false = ground arith in simp away
blank_cols_lem (suc n) col f x =
    let to = 3840 + col * 2 in
    let f' : ℕ → ℕ = update (update f to b' ') (to + 1) 0x07 in
    blank_cols_lem n (col + 1) f' x ∙ elim (Bool-cases (within (3840 + (col + 1) * 2) (n * 2) x)) [
      | inl later ↦ let all : within to (suc n * 2) x ≡ true = ground arith in simp (later, all)
      | inr other ↦ elim (Bool-cases (within to 2 x)) [
        | inl now ↦
            let all : within to (suc n * 2) x ≡ true = ground arith in
            simp (other, all) (two_blank f to x (omega arith) ∙ simp now refl)
        | inr never ↦
            let all : within to (suc n * 2) x ≡ false = ground arith in
            simp (other, all) (two_blank f to x (omega arith) ∙ simp never refl)
      ]
    ]

-- The screen's bytes after a scroll: each row holds what stood in the row below, and the last one
-- blanks.
abbrev pub scrolled : (ℕ → ℕ) → ℕ → ℕ
scrolled f x = if ltb x 3840 then f (x + 160) else if ltb x 4000 then blank x else f x

-- `scroll_line` moves each row one up, blanks the last one, sets the cursor to its first cell and
-- changes no byte behind the screen.
pub scroll_line-scrolled :
    (s : Screen)
    → ((x : ℕ) → (scroll_line s).vga x ≡ scrolled s.vga x)
      × (get_cursor (scroll_line s) ≡ 3840)
      × ((scroll_line s).color ≡ s.color)
unfolding scroll_line
scroll_line-scrolled s = (
  λ x.
      blank_cols_lem 80 0 (scroll_rows 24 1 s.vga) x
      ∙ last_or_above x (scroll_rows 24 1 s.vga x) (scroll_rows_lem 24 1 s.vga x (omega arith)),
  get_cursor-set_cursor 3840 (record s { vga = blank_cols 80 0 (scroll_rows 24 1 s.vga) }),
  refl,
)
  where
    last_or_above :
        (x moved : ℕ)
        → moved ≡ (if within ((1 - 1) * 160) (24 * 160) x then s.vga (x + 160) else s.vga x)
        → (if within (3840 + 0 * 2) (80 * 2) x then blank x else moved) ≡ scrolled s.vga x
    last_or_above x moved e = elim (Bool-cases (ltb x 3840)) [
      | inl above ↦
          let not_last : within (3840 + 0 * 2) (80 * 2) x ≡ false = ground arith in
          let inside : within ((1 - 1) * 160) (24 * 160) x ≡ true = ground arith in
          simp (above, not_last) (e ∙ simp inside refl)
      | inr below ↦
          let outside : within ((1 - 1) * 160) (24 * 160) x ≡ false = ground arith in
          elim (Bool-cases (ltb x 4000)) [
            | inl last ↦
                let here : within (3840 + 0 * 2) (80 * 2) x ≡ true = ground arith in
                simp here (simp (below, last))
            | inr behind ↦
                let away : within (3840 + 0 * 2) (80 * 2) x ≡ false = ground arith in
                simp away (simp (below, behind) (e ∙ simp outside refl))
          ]
    ]
