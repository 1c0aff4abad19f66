-- ===== src/Text/Search.antt =====
-- `strchr` and `strstr` find the first place.
use hatcher.Base.{
  ℕ, zero, suc, ◌%◌, ◌^◌, ◌≤◌, ◌<◌, ◌≡◌, ◌≢◌, ◌↔◌, refl, ap, true, false, Option, none, some, List,
  [], ◌∷◌, inl, inr, arith, ◌==◌, Bool-cases, ==_iff, length, take, drop, get_elem?,
}
use hatcher.Text.{strchr, begins, strstr}

abbrev pub FirstChar : List ℕ → ℕ → Option (List ℕ) → Type 0
FirstChar s c none = (j : ℕ) → get_elem? s j ≢ some c
FirstChar s c (some t) =
    (i : ℕ) × (t ≡ drop i s) × (get_elem? s i ≡ some c) × ((j : ℕ) → j < i → get_elem? s j ≢ some c)

later_char :
    (s : List ℕ) (c d : ℕ) (o : Option (List ℕ)) → d ≢ c → FirstChar s c o → FirstChar (d ∷ s) c o
later_char s c d none ne h = λ j. away j
  where
    away : (j : ℕ) → get_elem? (d ∷ s) j ≢ some c
    away zero = λ e. ne (let head : d ≡ c = cc in head)
    away (suc j) = h j
later_char s c d (some t) ne (i, at, hit, before) = (suc i, at, hit, away)
  where
    away : (j : ℕ) → j < suc i → get_elem? (d ∷ s) j ≢ some c
    away zero lt = λ e. ne (let head : d ≡ c = cc in head)
    away (suc j) lt = before j (omega arith)

-- `strchr` of a character that is not NUL points to its first occurrence; NULL means that it does
-- not occur.
pub strchr-FirstChar : (s : List ℕ) (c : ℕ) → 0 < c → c < 2 ^ 8 → FirstChar s c (strchr s c)
unfolding strchr
strchr-FirstChar [] c some_char small =
    let test : (c == 0) ≡ false = ground arith in simp test (λ j e. cc)
strchr-FirstChar (d ∷ s) c some_char small =
    let byte : c % 2 ^ 8 ≡ c = omega arith in
    elim (Bool-cases (d == c)) [
      | inl hit ↦
          let same : d ≡ c = (==_iff d c).0 hit in
          simp (byte, hit) (0, refl, ap some same, λ j lt. absurd (omega arith))
      | inr miss ↦
          simp (byte, miss)
            (later_char s c d (strchr s c) (λ e. ground arith)
              (strchr-FirstChar s c some_char small))
    ]

-- The needle stands in `h` at index `i`.
abbrev pub StandsAt : List ℕ → List ℕ → ℕ → Type 0
StandsAt h n i = take (length n) (drop i h) ≡ n

begins-take : (h n : List ℕ) → (begins h n ≡ true) ↔ (take (length n) h ≡ n)
unfolding begins
begins-take h [] = (λ e. refl, λ e. refl)
begins-take [] (d ∷ n) = (λ e. cc, λ e. cc)
begins-take (c ∷ h) (d ∷ n) = elim (Bool-cases (c == d)) [
  | inl same ↦
      let equal : c ≡ d = (==_iff c d).0 same in
      let rest = begins-take h n in
      simp same (
        λ e. let tail = rest.0 e in cc,
        λ e. rest.1 (let tail : take (length n) h ≡ n = cc in tail),
      )
  | inr other ↦
      let differ : c ≢ d = λ e. ground arith in
      simp other (λ e. cc, λ e. absurd (differ (let head : c ≡ d = cc in head)))
]

abbrev pub FirstPlace : List ℕ → List ℕ → Option (List ℕ) → Type 0
FirstPlace h n none = (j : ℕ) → ¬ (StandsAt h n j)
FirstPlace h n (some t) =
    (i : ℕ) × (i ≤ length h)
    × (t ≡ drop i h)
    × StandsAt h n i
    × ((j : ℕ) → j < i → ¬ (StandsAt h n j))

later_place :
    (c : ℕ) (h n : List ℕ) (o : Option (List ℕ))
    → ¬ (StandsAt (c ∷ h) n 0)
    → FirstPlace h n o
    → FirstPlace (c ∷ h) n o
later_place c h n none ne p = away
  where
    away : (j : ℕ) → ¬ (StandsAt (c ∷ h) n j)
    away zero = ne
    away (suc j) = p j
later_place c h n (some t) ne (i, le, at, hit, before) = (suc i, omega arith, at, hit, away)
  where
    away : (j : ℕ) → j < suc i → ¬ (StandsAt (c ∷ h) n j)
    away zero lt = ne
    away (suc j) lt = before j (omega arith)

-- `strstr` points to the first place at which the needle stands in the haystack; NULL means that it
-- stands nowhere in it.
pub strstr-FirstPlace : (h n : List ℕ) → FirstPlace h n (strstr h n)
unfolding strstr
strstr-FirstPlace [] [] = (0, omega arith, refl, refl, λ j lt. absurd (omega arith))
strstr-FirstPlace [] (d ∷ n) = nowhere
  where
    nowhere : (j : ℕ) → ¬ (StandsAt [] (d ∷ n) j)
    nowhere zero = λ e. cc
    nowhere (suc j) = λ e. cc
strstr-FirstPlace (c ∷ h) n = elim (Bool-cases (begins (c ∷ h) n)) [
  | inl hit ↦
      simp hit (0, omega arith, refl, (begins-take (c ∷ h) n).0 hit, λ j lt. absurd (omega arith))
  | inr miss ↦ simp miss (
      later_place c h n (strstr h n) (λ at. let hit = (begins-take (c ∷ h) n).1 at in cc)
        (strstr-FirstPlace h n))
]
