-- ===== src/Text/Trim.antt =====
-- `trim`.
use mathlib.Core.List.{append_assoc}
use hatcher.Base.{
  ℕ, zero, suc, ◌-◌, ◌≡◌, ◌≢◌, refl, ap, ◌∙◌, some, List, [], ◌∷◌, ◌++◌, inl, inr, arith, ◌==◌,
  Bool-cases, ==_iff, length, take, get_or, get_elem?, replicate, length-take,
}
use hatcher.Text.{skip_while, trim_end, trim}

abbrev pub spaces : ℕ → List ℕ
spaces n = replicate n b' '

skip_spaces :
    (s : List ℕ)
    → (a : ℕ) × (s ≡ spaces a ++ skip_while (λ c. c == b' ') s)
      × (get_elem? (skip_while (λ c. c == b' ') s) 0 ≢ some b' ')
unfolding skip_while
skip_spaces [] = (0, refl, λ e. cc)
skip_spaces (c ∷ s) = elim (Bool-cases (c == b' ')) [
  | inl blank ↦
      let same : c ≡ b' ' = (==_iff _ _).0 blank in
      let (a, all, first) = skip_spaces s in simp blank (suc a, cc, first)
  | inr other ↦ simp other (0, refl, λ e. let same : c ≡ b' ' = cc in ground arith)
]

take_last : (n : ℕ) (s : List ℕ) → length s ≡ suc n → s ≡ take n s ++ (get_or s n 0 ∷ [])
take_last n [] e = absurd (omega arith)
take_last zero (c ∷ []) e = refl
take_last zero (c ∷ d ∷ s) e = absurd (omega arith)
take_last (suc n) (c ∷ s) e = ap (λ t. c ∷ t) (take_last n s (omega arith))

spaces-snoc : (b : ℕ) → spaces b ++ (b' ' ∷ []) ≡ spaces (suc b)
spaces-snoc zero = refl
spaces-snoc (suc b) = ap (λ t. b' ' ∷ t) (spaces-snoc b)

get_elem?-get_or : (s : List ℕ) (i c : ℕ) → get_elem? s i ≡ some c → get_or s i 0 ≡ c
get_elem?-get_or [] i c e = cc
get_elem?-get_or (d ∷ s) zero c e = cc
get_elem?-get_or (d ∷ s) (suc i) c e = get_elem?-get_or s i c e

trim_end-spaces :
    (len : ℕ) (s : List ℕ)
    → length s ≡ len
    → (b : ℕ) × (s ≡ trim_end len s ++ spaces b)
      × (get_elem? (trim_end len s) (length (trim_end len s) - 1) ≢ some b' ')
unfolding trim_end
trim_end-spaces zero [] e = (0, refl, λ e. cc)
trim_end-spaces zero (c ∷ s) e = absurd (omega arith)
trim_end-spaces (suc len) s e = elim (Bool-cases (get_or s len 0 == b' ')) [
  | inl blank ↦
      let same : get_or s len 0 ≡ b' ' = (==_iff _ _).0 blank in
      let (b, all, last) = trim_end-spaces len (take len s) (omega (arith, length-take len s)) in
      let r = trim_end len (take len s) in
      let joined : s ≡ r ++ spaces (suc b) =
        take_last len s e
        ∙ ap (λ c. take len s ++ (c ∷ [])) same
        ∙ ap (λ t. t ++ (b' ' ∷ [])) all
        ∙ append_assoc r (spaces b) (b' ' ∷ [])
        ∙ ap (λ t. r ++ t) (spaces-snoc b) in
      simp blank (suc b, joined, last)
  | inr other ↦
      let place : length s - 1 ≡ len = omega arith in
      let no_space : get_elem? s len ≢ some b' ' =
        λ at. let same = get_elem?-get_or s len b' ' at in ground arith in
      simp (other, place) (0, append_nil s, no_space)
]
  where
    append_nil : (t : List ℕ) → t ≡ t ++ []
    append_nil [] = refl
    append_nil (c ∷ t) = ap (λ u. c ∷ u) (append_nil t)

first_of : (r t : List ℕ) (c : ℕ) → get_elem? r 0 ≡ some c → get_elem? (r ++ t) 0 ≡ some c
first_of [] t c e = cc
first_of (d ∷ r) t c e = e

-- `trim` takes away the spaces at both ends and nothing else: what is left neither begins nor ends
-- with a space.
pub trim-spaces :
    (s : List ℕ)
    → (a b : ℕ) × (s ≡ spaces a ++ (trim s ++ spaces b))
      × (get_elem? (trim s) 0 ≢ some b' ')
      × (get_elem? (trim s) (length (trim s) - 1) ≢ some b' ')
unfolding trim
trim-spaces s =
    let t = skip_while (λ c. c == b' ') s in
    let (a, all, first) = skip_spaces s in
    let (b, rest, last) = trim_end-spaces (length t) t refl in
    (
      a,
      b,
      all ∙ ap (λ u. spaces a ++ u) rest,
      λ e.
          first (ap (λ u. get_elem? u 0) rest ∙ first_of (trim_end (length t) t) (spaces b) b' ' e),
      last,
    )
