-- ===== src/Console/Print.antt =====
-- `kprint` stays on the screen.
use hatcher.Base.{
  ℕ, zero, suc, ◌≡◌, ◌≢◌, refl, ap, List, [], ◌∷◌, inl, inr, none, some, Option-cases, All,
}
use hatcher.Console.{Screen, get_cursor, putchar, kprint_loop, kprint, color_code, set_color}
use hatcher.Console.Put.{putchar_lem}
use hatcher.Console.Cells.{IsOn}

set_color-IsOn : (c : ℕ) (s : Screen) → IsOn s → IsOn (set_color c s)
unfolding get_cursor
set_color-IsOn c s on = on

kprint_code :
    (str : List ℕ) (c color : ℕ) (s : Screen)
    → color_code (c ∷ str) ≡ some color
    → kprint_loop 0 (c ∷ str) s ≡ kprint_loop 5 str (set_color color s)
unfolding kprint_loop
kprint_code str c color s e =
    ap
      (λ o. elim o [
        | none ↦ kprint_loop 0 str (putchar c s.color s)
        | some color' ↦ kprint_loop 5 str (set_color color' s)
      ])
      e

kprint_char :
    (str : List ℕ) (c : ℕ) (s : Screen)
    → color_code (c ∷ str) ≡ none
    → kprint_loop 0 (c ∷ str) s ≡ kprint_loop 0 str (putchar c s.color s)
unfolding kprint_loop
kprint_char str c s e =
    ap
      (λ o. elim o [
        | none ↦ kprint_loop 0 str (putchar c s.color s)
        | some color' ↦ kprint_loop 5 str (set_color color' s)
      ])
      e

kprint_skip :
    (skip : ℕ) (str : List ℕ) (c : ℕ) (s : Screen)
    → kprint_loop (suc skip) (c ∷ str) s ≡ kprint_loop skip str s
unfolding kprint_loop
kprint_skip skip str c s = refl

kprint_end : (skip : ℕ) (s : Screen) → kprint_loop skip [] s ≡ s
unfolding kprint_loop
kprint_end zero s = refl
kprint_end (suc skip) s = refl

kprint_loop-IsOn :
    (skip : ℕ) (str : List ℕ) (s : Screen)
    → All (λ c. c ≢ 8) str
    → IsOn s
    → IsOn (kprint_loop skip str s)
kprint_loop-IsOn skip [] s plainly on = rw (kprint_end skip s) on
kprint_loop-IsOn (suc skip) (c ∷ str) s plainly on =
    rw (kprint_skip skip str c s) (kprint_loop-IsOn skip str s plainly.1 on)
kprint_loop-IsOn zero (c ∷ str) s plainly on = elim (Option-cases (color_code (c ∷ str))) [
  | inl plain ↦
      let (cursor, _, low, even) = putchar_lem c s.color s on (inl plainly.0) in
      rw (kprint_char str c s plain)
        (kprint_loop-IsOn 0 str (putchar c s.color s) plainly.1 (rw cursor (low, even)))
  | inr (color, code) ↦
      rw (kprint_code str c color s code)
        (kprint_loop-IsOn 5 str (set_color color s) plainly.1 (set_color-IsOn color s on))
]

-- `kprint` of a text without backspaces leaves the cursor on the screen.
pub kprint-IsOn : (str : List ℕ) (s : Screen) → All (λ c. c ≢ 8) str → IsOn s → IsOn (kprint str s)
unfolding kprint
kprint-IsOn str s plainly on = kprint_loop-IsOn 0 str s plainly on
