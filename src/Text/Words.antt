-- ===== src/Text/Words.antt =====
-- `strtok`: the tokens it finds.
use hatcher.Base.{
  ℕ, ◌<◌, ◌≡◌, refl, ap, Bool, true, false, not, Option, none, some, List, [], ◌∷◌, ◌++◌, inl, inr,
  arith, Bool-cases, length, All,
}
use hatcher.Text.{skip_while, take_while, found, strchr, strtok_token, strtok_from, strtok}

-- Whether `strtok` takes a character for a delimiter.
abbrev pub separates : List ℕ → ℕ → Bool
separates delim c = found (strchr delim c)

-- What `strtok` leaves behind a token for the next call: all but the byte that ends it.
abbrev pub Rest : List ℕ → List ℕ → Option (List ℕ) → Type 0
Rest delim [] last = last ≡ none
Rest delim (d ∷ s) last = (separates delim d ≡ true) × (last ≡ some s)

abbrev pub Token : List ℕ → List ℕ → Option (List ℕ) × Option (List ℕ) → Type 0
Token delim s (none, last) = All (λ c. separates delim c ≡ true) s × (last ≡ none)
Token delim s (some token, last) =
    (before behind : List ℕ) × (s ≡ before ++ (token ++ behind))
    × All (λ c. separates delim c ≡ true) before
    × (0 < length token)
    × All (λ c. separates delim c ≡ false) token
    × Rest delim behind last

later-Token :
    (delim s : List ℕ) (c : ℕ) (r : Option (List ℕ) × Option (List ℕ))
    → separates delim c ≡ true
    → Token delim s r
    → Token delim (c ∷ s) r
later-Token delim s c (none, last) h (all, e) = ((h, all), e)
later-Token delim s c (some token, last) h (before, behind, e, seps, more, clean, rest) =
    (c ∷ before, behind, ap (λ t. c ∷ t) e, (h, seps), more, clean, rest)

token_end :
    (delim t : List ℕ)
    → let test : ℕ → Bool = λ c. not (separates delim c) in
      (t ≡ take_while test t ++ skip_while test t)
      × All (λ c. separates delim c ≡ false) (take_while test t)
      × Rest delim (skip_while test t) (elim (skip_while test t) [ [] ↦ none | ◌∷◌ d v ↦ some v ])
unfolding take_while skip_while
token_end delim [] = (refl, tt, refl)
token_end delim (c ∷ t) = elim (Bool-cases (separates delim c)) [
  | inl end ↦ simp end (refl, tt, (refl, refl))
  | inr more ↦
      let (all, clean, rest) = token_end delim t in
      simp more (ap (λ u. c ∷ u) all, (refl, clean), rest)
]

drop_one :
    (delim s : List ℕ) (c : ℕ)
    → separates delim c ≡ true
    → skip_while (λ d. separates delim d) (c ∷ s) ≡ skip_while (λ d. separates delim d) s
unfolding skip_while
drop_one delim s c h = rw h refl

drop_none :
    (delim s : List ℕ) (c : ℕ)
    → separates delim c ≡ false
    → skip_while (λ d. separates delim d) (c ∷ s) ≡ c ∷ s
unfolding skip_while
drop_none delim s c h = rw h refl

some_taken :
    (delim s : List ℕ) (c : ℕ)
    → separates delim c ≡ false
    → 0 < length (take_while (λ d. not (separates delim d)) (c ∷ s))
unfolding take_while
some_taken delim s c h = simp h (omega arith)

token_eq :
    (delim s : List ℕ) (c : ℕ)
    → strtok_token delim (c ∷ s) ≡ (
      some (take_while (λ d. not (separates delim d)) (c ∷ s)),
      elim (skip_while (λ d. not (separates delim d)) (c ∷ s)) [ [] ↦ none | ◌∷◌ d v ↦ some v ],
    )
unfolding strtok_token
token_eq delim s c = refl

strtok_from_eq :
    (delim s : List ℕ)
    → strtok_from s delim ≡ strtok_token delim (skip_while (λ c. separates delim c) s)
unfolding strtok_from
strtok_from_eq delim s = refl

Token-here :
    (delim s : List ℕ) (c : ℕ)
    → separates delim c ≡ false
    → Token delim (c ∷ s) (strtok_token delim (c ∷ s))
Token-here delim s c h =
    let (all, clean, rest) = token_end delim (c ∷ s) in
    rw (token_eq delim s c) ([], _, all, tt, some_taken delim s c h, clean, rest)

strtok_token-Token :
    (delim s : List ℕ) → Token delim s (strtok_token delim (skip_while (λ c. separates delim c) s))
strtok_token-Token delim [] = unfold strtok_token skip_while in (tt, refl)
strtok_token-Token delim (c ∷ s) = elim (Bool-cases (separates delim c)) [
  | inl skipped ↦
      rw (drop_one delim s c skipped) (later-Token delim s c _ skipped (strtok_token-Token delim s))
  | inr kept ↦ rw (drop_none delim s c kept) (Token-here delim s c kept)
]

strtok_from-Token : (delim s : List ℕ) → Token delim s (strtok_from s delim)
strtok_from-Token delim s = rw (strtok_from_eq delim s) (strtok_token-Token delim s)

-- `strtok` skips delimiters and returns the characters up to the next one, which are at least one;
-- the next call goes on behind that delimiter. It returns NULL exactly when only delimiters are
-- left, and without a text.
pub strtok-Token :
    (delim s : List ℕ) (last : Option (List ℕ))
    → Token delim s (strtok (some s) delim last)
      × Token delim s (strtok none delim (some s))
      × (strtok none delim none ≡ (none, none))
unfolding strtok
strtok-Token delim s last = (strtok_from-Token delim s, strtok_from-Token delim s, refl)
