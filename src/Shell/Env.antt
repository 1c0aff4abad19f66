-- ===== src/Shell/Env.antt =====
-- The environment as a table from names to values.
use hatcher.Base.{
  ℕ, ◌≤◌, ◌<◌, ◌≡◌, ◌≢◌, refl, sym, ap, ◌∙◌, true, false, Option, none, some, List, [], ◌∷◌, ◌++◌,
  arith, inl, inr, ltb, Bool-cases, Option-cases, not_both, All, if◌then◌else◌, take_all, length,
  if-true, if-false,
}
use hatcher.Text.{strcmp, strncpy}
use hatcher.Text.Compare.{IsChar, strcmp-eq}
use hatcher.Base.Int.{is_zero_iff}
use hatcher.Shell.{EnvVar, max_env_vars, name_matches, replace_var, set_env_var, get_env_var}

abbrev pub IsNamed : EnvVar → Type 0
IsNamed v = All IsChar v.name

-- The comparison finds the name.
module _ (name : List ℕ) (v : EnvVar) (chars : All IsChar name) (named : IsNamed v) where
  same_name : name_matches name v ≡ true → v.name ≡ name
  same_name h = (strcmp-eq v.name name named chars).0 ((is_zero_iff (strcmp v.name name)).0 h)

  matches_itself : v.name ≡ name → name_matches name v ≡ true
  matches_itself e = (is_zero_iff (strcmp v.name name)).1 ((strcmp-eq v.name name named chars).1 e)

  differs : name_matches name v ≡ false → v.name ≢ name
  differs h e = not_both (matches_itself e) h

  no_match : v.name ≢ name → name_matches name v ≡ false
  no_match ne = elim (Bool-cases (name_matches name v)) [
    | inl yes_ ↦ absurd (ne (same_name yes_))
    | inr no_ ↦ no_
  ]

module _ (name : List ℕ) (v : EnvVar) (vars : List EnvVar) where
  get_hit : name_matches name v ≡ true → get_env_var name (v ∷ vars) ≡ some v.value
  unfolding get_env_var
  get_hit h = if-true _ _ h

  get_miss : name_matches name v ≡ false → get_env_var name (v ∷ vars) ≡ get_env_var name vars
  unfolding get_env_var
  get_miss h = if-false _ _ h

  module _ (value : List ℕ) where
    replace_hit :
        name_matches name v ≡ true
        → replace_var name value (v ∷ vars)
          ≡ some (record { name = v.name; value = strncpy value 127 } ∷ vars)
    unfolding replace_var
    replace_hit h = if-true _ _ h

    replace_miss :
        name_matches name v ≡ false
        → replace_var name value (v ∷ vars)
          ≡ elim (replace_var name value vars) [ none ↦ none | some vars' ↦ some (v ∷ vars') ]
    unfolding replace_var
    replace_miss h = if-false _ _ h

module _ (name value other : List ℕ) (chars : All IsChar name) (chars' : All IsChar other)
    (differ : other ≢ name) where
  -- What a search for the variable comes to: all other names keep their values.
  abbrev Replaced : List EnvVar → Option (List EnvVar) → Type 0
  Replaced vars none =
      (get_env_var name vars ≡ none)
      × ((extra : EnvVar) → get_env_var name (vars ++ (extra ∷ [])) ≡ get_env_var name (extra ∷ []))
      × ((extra : EnvVar)
          → IsNamed extra
          → extra.name ≢ other
          → get_env_var other (vars ++ (extra ∷ [])) ≡ get_env_var other vars)
  Replaced vars (some vars') =
      (get_env_var name vars' ≡ some (strncpy value 127))
      × (get_env_var other vars' ≡ get_env_var other vars)

  behind :
      (v : EnvVar) (vars : List EnvVar) (o : Option (List EnvVar))
      → IsNamed v
      → name_matches name v ≡ false
      → Replaced vars o
      → Replaced (v ∷ vars) (elim o [ none ↦ none | some vars' ↦ some (v ∷ vars') ])
  behind v vars none named miss (gone, own, others) = (
    get_miss name v vars miss ∙ gone,
    λ extra. get_miss name v (vars ++ (extra ∷ [])) miss ∙ own extra,
    λ extra n ne. elim (Bool-cases (name_matches other v)) [
      | inl hit ↦ get_hit other v (vars ++ (extra ∷ [])) hit ∙ sym (get_hit other v vars hit)
      | inr miss' ↦
          get_miss other v (vars ++ (extra ∷ [])) miss'
          ∙ others extra n ne
          ∙ sym (get_miss other v vars miss')
    ],
  )
  behind v vars (some vars') named miss (own, others) = (
    get_miss name v vars' miss ∙ own,
    elim (Bool-cases (name_matches other v)) [
      | inl hit ↦ get_hit other v vars' hit ∙ sym (get_hit other v vars hit)
      | inr miss' ↦ get_miss other v vars' miss' ∙ others ∙ sym (get_miss other v vars miss')
    ],
  )

  replace_var-Replaced :
      (vars : List EnvVar) → All IsNamed vars → Replaced vars (replace_var name value vars)
  unfolding replace_var get_env_var
  replace_var-Replaced [] named = (
    refl,
    λ extra. refl,
    λ extra n ne. get_miss other extra [] (no_match other extra chars' n ne),
  )
  replace_var-Replaced (v ∷ vars) (named, rest) = elim (Bool-cases (name_matches name v)) [
    | inl hit ↦
        let new : EnvVar = record { name = v.name; value = strncpy value 127 } in
        let away : name_matches other v ≡ false =
          no_match other v chars' named (λ e. differ (sym e ∙ same_name name v chars named hit)) in
        rw (replace_hit name v vars value hit) (
          get_hit name new vars hit,
          get_miss other new vars away ∙ sym (get_miss other v vars away),
        )
    | inr miss ↦
        rw (replace_miss name v vars value miss)
          (behind v vars (replace_var name value vars) named miss (replace_var-Replaced vars rest))
  ]

-- The end of `set_env_var`, for the outcome of the search.
module _ (name value : List ℕ) (vars : List EnvVar) where
  abbrev new_var : EnvVar
  new_var = record { name = strncpy name 31; value = strncpy value 127 }

  set_found :
      (vars' : List EnvVar)
      → replace_var name value vars ≡ some vars'
      → set_env_var name value vars ≡ vars'
  unfolding set_env_var
  set_found vars' e =
      ap
        (λ o. elim o [
          | some vars' ↦ vars'
          | none ↦ if ltb (length vars) max_env_vars then vars ++ (new_var ∷ []) else vars
        ])
        e

  set_new :
      replace_var name value vars ≡ none
      → length vars < max_env_vars
      → set_env_var name value vars ≡ vars ++ (new_var ∷ [])
  unfolding set_env_var
  set_new e room =
      let room' : ltb (length vars) max_env_vars ≡ true = ground arith in
      ap
        (λ o. elim o [
          | some vars' ↦ vars'
          | none ↦ if ltb (length vars) max_env_vars then vars ++ (new_var ∷ []) else vars
        ])
        e
      ∙ if-true _ _ room'

-- After `set_env_var` with a name of at most 31 characters and room for one more variable,
-- `get_env_var` returns the first 127 characters of the value for this name, and for every other name
-- what it returned before.
pub get_env_var-set_env_var :
    (name value other : List ℕ) (vars : List EnvVar)
    → All IsChar name
    → All IsChar other
    → other ≢ name
    → All IsNamed vars
    → length name ≤ 31
    → length vars < max_env_vars
    → (get_env_var name (set_env_var name value vars) ≡ some (strncpy value 127))
      × (get_env_var other (set_env_var name value vars) ≡ get_env_var other vars)
get_env_var-set_env_var name value other vars chars chars' differ named short room =
    let r = replace_var-Replaced name value other chars chars' differ vars named in
    elim (Option-cases (replace_var name value vars)) [
      | inr (vars', found) ↦
          let e = set_found name value vars vars' found in
          let (own, others) = rw found at r in rw e (own, others)
      | inl gone ↦
          let e = set_new name value vars gone room in
          let whole : strncpy name 31 ≡ name = take_all 31 name short in
          let new = new_var name value vars in
          let new_chars : IsNamed new = rw whole chars in
          let hit = matches_itself name new chars new_chars whole in
          let (_, own, others) = rw gone at r in
          rw e
            (own new ∙ get_hit name new [] hit, others new new_chars (λ h. differ (sym h ∙ whole)))
    ]
