-- ===== src/Text/Split.antt =====
-- `split`: the words it finds.
use hatcher.Base.{
  ◌⊎◌, dec_lt, ℕ, zero, suc, ◌≤◌, ◌<◌, ◌≡◌, refl, sym, ap, ◌∙◌, false, List, [], ◌∷◌, ◌++◌, inl,
  inr, arith, ◌==◌, if◌then◌else◌, Bool-cases, length, All,
}
use hatcher.Text.{skip_while, split_word, split_next, split_loop, split}

-- The characters of a text that are no delimiter.
abbrev pub without : ℕ → List ℕ → List ℕ
without delimiter [] = []
without delimiter (c ∷ s) = if c == delimiter then without delimiter s else c ∷ without delimiter s

abbrev pub joined : List (List ℕ) → List ℕ
joined [] = []
joined (w ∷ ws) = w ++ joined ws

abbrev pub IsWord : ℕ → List ℕ → Type 0
IsWord delimiter w = (0 < length w) × (length w ≤ 63) × All (λ c. (c == delimiter) ≡ false) w

without-append :
    (delimiter : ℕ) (w s : List ℕ)
    → All (λ c. (c == delimiter) ≡ false) w
    → without delimiter (w ++ s) ≡ w ++ without delimiter s
without-append delimiter [] s h = refl
without-append delimiter (c ∷ w) s h = simp h.0 (ap (λ t. c ∷ t) (without-append delimiter w s h.1))

-- A text that begins with no delimiter.
abbrev Starts : ℕ → List ℕ → Type 0
Starts delimiter [] = Unit
Starts delimiter (c ∷ s) = (c == delimiter) ≡ false

skip-delimiters :
    (delimiter : ℕ) (s : List ℕ)
    → let t = skip_while (λ c. c == delimiter) s in
      (without delimiter t ≡ without delimiter s) × Starts delimiter t
unfolding skip_while
skip-delimiters delimiter [] = (refl, tt)
skip-delimiters delimiter (c ∷ s) = elim (Bool-cases (c == delimiter)) [
  | inl skipped ↦ simp skipped (skip-delimiters delimiter s)
  | inr kept ↦ simp kept (refl, refl)
]

split_word_lem :
    (delimiter room : ℕ) (s : List ℕ)
    → let word = split_word delimiter room s in
      (s ≡ word.0 ++ word.1) × All (λ c. (c == delimiter) ≡ false) word.0 × (length word.0 ≤ room)
unfolding split_word
split_word_lem delimiter zero s = (refl, tt, omega arith)
split_word_lem delimiter (suc room) [] = (refl, tt, omega arith)
split_word_lem delimiter (suc room) (c ∷ s) = elim (Bool-cases (c == delimiter)) [
  | inl end ↦ simp end (refl, tt, omega arith)
  | inr more ↦
      let (all, clean, short) = split_word_lem delimiter room s in
      simp more (ap (λ t. c ∷ t) all, (refl, clean), omega arith)
]

split_word-nonempty :
    (delimiter room c : ℕ) (s : List ℕ)
    → (c == delimiter) ≡ false
    → 0 < length (split_word delimiter (suc room) (c ∷ s)).0
unfolding split_word
split_word-nonempty delimiter room c s h = simp h (omega arith)

abbrev Splits : ℕ → ℕ → List ℕ → List (List ℕ) → Type 0
Splits delimiter n s words =
    All (IsWord delimiter) words
    × (length words ≤ n)
    × (length words < n → joined words ≡ without delimiter s)

first_word :
    (delimiter n c : ℕ) (u : List ℕ) (rest : List (List ℕ))
    → (c == delimiter) ≡ false
    → Splits delimiter n (split_word delimiter 63 (c ∷ u)).1 rest
    → Splits delimiter (suc n) (c ∷ u) ((split_word delimiter 63 (c ∷ u)).0 ∷ rest)
first_word delimiter n c u rest start (good, few, whole) =
    let (all, clean, short) = split_word_lem delimiter 63 (c ∷ u) in
    (
      ((split_word-nonempty delimiter 62 c u start, short, clean), good),
      omega arith,
      λ lt.
          ap (λ v. (split_word delimiter 63 (c ∷ u)).0 ++ v) (whole (omega arith))
          ∙ sym (
              without-append delimiter (split_word delimiter 63 (c ∷ u)).0
                (split_word delimiter 63 (c ∷ u)).1 clean)
          ∙ ap (without delimiter) (sym all),
    )

split_next-Splits :
    (delimiter n : ℕ) (t : List ℕ) (rest : List ℕ → List (List ℕ))
    → Starts delimiter t
    → ((u : List ℕ) → Splits delimiter n u (rest u))
    → Splits delimiter (suc n) t (split_next delimiter rest t)
split_next-Splits delimiter n [] rest starts rec =
    unfold split_next in (tt, omega arith, λ lt. refl)
split_next-Splits delimiter n (c ∷ u) rest start rec = rw (next_word delimiter c u rest) (
    first_word delimiter n c u (rest (split_word delimiter 63 (c ∷ u)).1) start
      (rec (split_word delimiter 63 (c ∷ u)).1))
  where
    next_word :
        (delimiter c : ℕ) (u : List ℕ) (rest : List ℕ → List (List ℕ))
        → split_next delimiter rest (c ∷ u)
          ≡ (split_word delimiter 63 (c ∷ u)).0 ∷ rest (split_word delimiter 63 (c ∷ u)).1
    next_word delimiter c u rest = unfold split_next in refl

split_loop-Splits :
    (delimiter n : ℕ) (s : List ℕ)
    → ((u : List ℕ) → Splits delimiter n u (split_loop delimiter n u))
    → Splits delimiter (suc n) s (split_loop delimiter (suc n) s)
split_loop-Splits delimiter n s rec =
    let (same, starts) = skip-delimiters delimiter s in
    let (good, few, whole) =
      split_next-Splits delimiter n (skip_while (λ c. c == delimiter) s) (split_loop delimiter n)
        starts rec in
    unfold split_loop in (good, few, λ lt. whole lt ∙ same)

split_loop_lem : (delimiter n : ℕ) (s : List ℕ) → Splits delimiter n s (split_loop delimiter n s)
split_loop_lem delimiter zero s = unfold split_loop in (tt, omega arith, λ lt. absurd (omega arith))
split_loop_lem delimiter (suc n) s =
    split_loop-Splits delimiter n s (λ u. split_loop_lem delimiter n u)

-- `split` returns at most 64 words; each has 1 to 63 characters, none of them the delimiter. The
-- words joined are the text without its delimiters, unless there are 64.
pub split_lem :
    (delimiter : ℕ) (s : List ℕ)
    → let words = split delimiter s in
      All (IsWord delimiter) words
      × (length words ≤ 64)
      × ((joined words ≡ without delimiter s) ⊎ (length words ≡ 64))
unfolding split
split_lem delimiter s =
    let (good, few, whole) = split_loop_lem delimiter 64 s in
    (
      good,
      few,
      elim (dec_lt (length (split_loop delimiter 64 s)) 64) [
        | yes less ↦ inl (whole less)
        | no not_less ↦ inr (omega arith)
      ],
    )
