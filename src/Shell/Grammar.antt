-- ===== src/Shell/Grammar.antt =====
-- What the text of a line stands for, with its variables: `$NAME` and `${NAME}`.
use mathlib.Core.Path.{subst}
use hatcher.Base.{
  ℕ, zero, suc, ◌≤◌, ◌≡◌, ◌≢◌, ◌⊎◌, refl, sym, ap, ◌∙◌, Bool, true, false, List, [], ◌∷◌, ◌++◌,
  arith, inl, inr, ◌==◌, ◌&&◌, ==_iff, Bool-cases, All, drop, get_or, length, if-true, if-false,
  not_both,
}
use hatcher.Shell.{
  EnvVar, get_env_var, read_name, not_brace, in_name, starts_name, value_or_nothing, expand_round,
}

-- The first character of what is left, 0 at the end.
abbrev first : List ℕ → ℕ
first s = get_or s 0 0

-- `name` is what can be read of a name by this test in front of `rest`: all that pass, 31 at most.
abbrev pub IsLongest : (ℕ → Bool) → List ℕ → List ℕ → Type 0
IsLongest test name rest =
    All (λ c. test c ≡ true) name
    × (length name ≤ 31)
    × ((length name ≡ 31) ⊎ ((rest ≡ []) ⊎ (test (first rest) ≡ false)))

-- `Expands line text`: with its variables replaced, the line is the text. A `$` that begins no name is an
-- ordinary character; a name in braces that is not closed behind at most 31 characters is passed over.
pub data Expands (env_vars : List EnvVar) : List ℕ → List ℕ → Type 0 where
  nothing : Expands env_vars [] []
  character :
      {c : ℕ} {src text : List ℕ}
      → (c ≢ b'$') ⊎ ((first src ≢ b'{') × (starts_name (first src) ≡ false))
      → Expands env_vars src text
      → Expands env_vars (c ∷ src) (c ∷ text)
  named :
      (name rest text : List ℕ)
      → starts_name (first (name ++ rest)) ≡ true
      → IsLongest in_name name rest
      → Expands env_vars rest text
      → Expands env_vars
          (b'$' ∷ name ++ rest)
          (value_or_nothing (get_env_var name env_vars) ++ text)
  braces :
      (name rest text : List ℕ)
      → IsLongest not_brace name (b'}' ∷ rest)
      → Expands env_vars rest text
      → Expands env_vars
          (b'$' ∷ b'{' ∷ name ++ b'}' ∷ rest)
          (value_or_nothing (get_env_var name env_vars) ++ text)
  unclosed :
      (name rest text : List ℕ)
      → IsLongest not_brace name rest
      → first rest ≢ b'}'
      → Expands env_vars rest text
      → Expands env_vars (b'$' ∷ b'{' ∷ name ++ rest) text

-- What `read_name` reads of at most `n` characters.
Reads : (ℕ → Bool) → ℕ → List ℕ → List ℕ → List ℕ → Type 0
Reads test n src name rest =
    (src ≡ name ++ rest)
    × All (λ c. test c ≡ true) name
    × (length name ≤ n)
    × ((length name ≡ n) ⊎ ((rest ≡ []) ⊎ (test (first rest) ≡ false)))

read_name-Reads :
    (test : ℕ → Bool) (n : ℕ) (src : List ℕ)
    → Reads test n src (read_name test n src).0 (read_name test n src).1
unfolding read_name Reads
read_name-Reads test zero src = (refl, tt, omega arith, inl refl)
read_name-Reads test (suc n) [] = (refl, tt, omega arith, inr (inl refl))
read_name-Reads test (suc n) (c ∷ src) = elim (Bool-cases (test c)) [
  | inl on ↦
      let (whole, all, few, stop) = read_name-Reads test n src in
      rw on (
        ap (λ s. c ∷ s) whole,
        (on, all),
        omega arith,
        elim stop [ inl full ↦ inl (ap suc full) | inr ended ↦ inr ended ],
      )
  | inr off ↦ rw off (refl, tt, omega arith, inr (inr off))
]

starts_with : (d : ℕ) (src : List ℕ) → d ≢ 0 → (first src == d) ≡ true → src ≡ d ∷ drop 1 src
starts_with d [] real h = absurd (real (sym ((==_iff _ _).0 h)))
starts_with d (c ∷ src) real h = ap (λ x. x ∷ src) ((==_iff _ _).0 h)

module _ (env_vars : List EnvVar) (c : ℕ) (src : List ℕ) where
  abbrev name_of : (ℕ → Bool) → List ℕ → List ℕ
  name_of test s = (read_name test 31 s).0

  abbrev rest_of : (ℕ → Bool) → List ℕ → List ℕ
  rest_of test s = (read_name test 31 s).1

  abbrev value : List ℕ → List ℕ
  value name = value_or_nothing (get_env_var name env_vars)

  module _ (dollar : (c == b'$' && first src == b'{') ≡ true) where
    round_braces :
        (first (rest_of not_brace (drop 1 src)) == b'}') ≡ true
        → expand_round env_vars c src
          ≡ (value (name_of not_brace (drop 1 src)), drop 1 (rest_of not_brace (drop 1 src)))
    unfolding expand_round
    round_braces closed = if-true _ _ dollar ∙ if-true _ _ closed

    round_unclosed :
        (first (rest_of not_brace (drop 1 src)) == b'}') ≡ false
        → expand_round env_vars c src ≡ ([], rest_of not_brace (drop 1 src))
    unfolding expand_round
    round_unclosed cut = if-true _ _ dollar ∙ if-false _ _ cut

  module _ (plain : (c == b'$' && first src == b'{') ≡ false) where
    round_named :
        (c == b'$' && starts_name (first src)) ≡ true
        → expand_round env_vars c src ≡ (value (name_of in_name src), rest_of in_name src)
    unfolding expand_round
    round_named name = if-false _ _ plain ∙ if-true _ _ name

    round_character :
        (c == b'$' && starts_name (first src)) ≡ false → expand_round env_vars c src ≡ (c ∷ [], src)
    unfolding expand_round
    round_character other = if-false _ _ plain ∙ if-false _ _ other

  -- A round whose outcome is `r` follows the grammar.
  Follows : List ℕ → List ℕ × List ℕ → Type 0
  Follows text r = Expands env_vars r.1 text → Expands env_vars (c ∷ src) (r.0 ++ text)

  module _ (dollar : (c == b'$' && first src == b'{') ≡ true) (text : List ℕ) where
    opened : c ∷ src ≡ b'$' ∷ b'{' ∷ drop 1 src
    opened =
        let is_dollar : c ≡ b'$' = ground arith in
        let brace : (first src == b'{') ≡ true = ground arith in
        λ i. is_dollar i ∷ starts_with b'{' src (λ e. omega arith) brace i

    braces-Follows : Follows text (expand_round env_vars c src)
    unfolding Follows Reads
    braces-Follows =
        let name = name_of not_brace (drop 1 src) in
        let rest = rest_of not_brace (drop 1 src) in
        let (whole, all, few, stop) = read_name-Reads not_brace 31 (drop 1 src) in
        let line = opened ∙ ap (λ s. b'$' ∷ b'{' ∷ s) whole in
        elim (Bool-cases (first rest == b'}')) [
          | inl closed ↦
              let end = starts_with b'}' rest (λ e. omega arith) closed in
              subst (λ r. Follows text r) (sym (round_braces dollar closed))
                (λ e.
                  subst (λ l. Expands env_vars l (value name ++ text))
                    (sym (line ∙ ap (λ s. b'$' ∷ b'{' ∷ name ++ s) end))
                    (braces name (drop 1 rest) text (all, few, inr (inr refl)) e))
          | inr cut ↦
              subst (λ r. Follows text r) (sym (round_unclosed dollar cut))
                (λ e.
                  subst (λ l. Expands env_vars l text) (sym line)
                    (unclosed name rest text (all, few, stop)
                      (λ e'. not_both ((==_iff _ _).1 e') cut) e))
        ]

  module _ (plain : (c == b'$' && first src == b'{') ≡ false) (text : List ℕ) where
    named-Follows :
        (c == b'$' && starts_name (first src)) ≡ true → Follows text (expand_round env_vars c src)
    unfolding Follows Reads
    named-Follows starts =
        let name = name_of in_name src in
        let rest = rest_of in_name src in
        let (whole, all, few, stop) = read_name-Reads in_name 31 src in
        let is_dollar : c ≡ b'$' = ground arith in
        let starts' : starts_name (first src) ≡ true = ground arith in
        subst (λ r. Follows text r) (sym (round_named plain starts))
          (λ e.
            subst (λ l. Expands env_vars l (value name ++ text)) (sym (λ i. is_dollar i ∷ whole i))
              (named name rest text (subst (λ s. starts_name (first s) ≡ true) whole starts')
                (all, few, stop) e))

    character-Follows :
        (c == b'$' && starts_name (first src)) ≡ false → Follows text (expand_round env_vars c src)
    unfolding Follows
    character-Follows other =
        let ordinary : (c ≢ b'$') ⊎ ((first src ≢ b'{') × (starts_name (first src) ≡ false)) =
          elim (Bool-cases (c == b'$')) [
            | inl yes_ ↦
                inr ((λ e. not_both ((==_iff _ _).1 e) (simp yes_ at plain)), simp yes_ at other)
            | inr no_ ↦ inl (λ e. not_both ((==_iff _ _).1 e) no_)
          ] in
        subst (λ r. Follows text r) (sym (round_character plain other)) (λ e. character ordinary e)

  pub expand_round-Expands :
      (text : List ℕ)
      → Expands env_vars (expand_round env_vars c src).1 text
      → Expands env_vars (c ∷ src) ((expand_round env_vars c src).0 ++ text)
  unfolding Follows
  expand_round-Expands text = elim (Bool-cases (c == b'$' && first src == b'{')) [
    | inl dollar ↦ braces-Follows dollar text
    | inr plain ↦ elim (Bool-cases (c == b'$' && starts_name (first src))) [
      | inl name ↦ named-Follows plain text name
      | inr other ↦ character-Follows plain text other
    ]
  ]
