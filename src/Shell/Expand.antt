-- ===== src/Shell/Expand.antt =====
-- The substitution of variables ends, and stays in the room for it.
use mathlib.Core.List.{append_assoc}
use hatcher.Base.{
  ℕ, zero, suc, ◌+◌, ◌-◌, ◌^◌, ◌≤◌, ◌<◌, ◌≡◌, refl, sym, ap, ◌∙◌, Bool, true, false, some, List, [],
  ◌∷◌, ◌++◌, arith, inl, inr, ◌==◌, ◌&&◌, ltb, Bool-cases, u64, take, drop, get_or, length,
  length-append, length-take, append_nil, if-true, if-false,
}
use hatcher.Shell.Grammar.{Expands, nothing, expand_round-Expands}
use hatcher.Shell.{
  EnvVar, read_name, not_brace, in_name, starts_name, expand_round, expand_loop, expand_variables,
}

-- The line with each variable replaced by its value, without regard to room, in `k` rounds.
unfoldable substituted : List EnvVar → ℕ → List ℕ → List ℕ
unfolding expand_round
substituted env_vars zero src = []
substituted env_vars (suc k) [] = []
substituted env_vars (suc k) (c ∷ src) =
    let r = expand_round env_vars c src in r.0 ++ substituted env_vars k r.1

read_name_shorter :
    (test : ℕ → Bool) (n : ℕ) (src : List ℕ) → length (read_name test n src).1 ≤ length src
unfolding read_name
read_name_shorter test zero src = omega arith
read_name_shorter test (suc n) [] = omega arith
read_name_shorter test (suc n) (c ∷ src) = elim (Bool-cases (test c)) [
  | inl on ↦ rw on (omega (arith, read_name_shorter test n src))
  | inr off ↦ rw off (omega arith)
]

drop_shorter : (n : ℕ) (s : List ℕ) → length (drop n s) ≤ length s
drop_shorter zero s = omega arith
drop_shorter (suc n) [] = omega arith
drop_shorter (suc n) (c ∷ s) = omega (arith, drop_shorter n s)

-- A round leaves a line that is shorter.
expand_round_shorter :
    (env_vars : List EnvVar) (c : ℕ) (src : List ℕ)
    → length (expand_round env_vars c src).1 ≤ length src
unfolding expand_round
expand_round_shorter env_vars c src = elim (Bool-cases (c == b'$' && get_or src 0 0 == b'{')) [
  | inl braces ↦
      let r = read_name not_brace 31 (drop 1 src) in
      let less = read_name_shorter not_brace 31 (drop 1 src) in
      let less' = drop_shorter 1 src in
      rw braces (elim (Bool-cases (get_or r.1 0 0 == b'}')) [
        | inl closed ↦ rw closed (omega (arith, drop_shorter 1 r.1))
        | inr cut ↦ rw cut (omega arith)
      ])
  | inr plain ↦ rw plain (elim (Bool-cases (c == b'$' && starts_name (get_or src 0 0))) [
    | inl named ↦ rw named (read_name_shorter in_name 31 src)
    | inr other ↦ rw other (omega arith)
  ])
]

take-append : (n : ℕ) (xs ys : List ℕ) → take n (xs ++ ys) ≡ take n xs ++ take (n - length xs) ys
take-append zero [] ys = refl
take-append zero (x ∷ xs) ys =
    let gone : 0 - length (x ∷ xs) ≡ 0 = omega arith in ap (λ m. take m ys) (sym gone)
take-append (suc n) [] ys =
    let whole : suc n - 0 ≡ suc n = omega arith in ap (λ m. take m ys) (sym whole)
take-append (suc n) (x ∷ xs) ys =
    let same : n - length xs ≡ suc n - suc (length xs) = omega arith in
    ap (λ r. x ∷ r) (take-append n xs ys ∙ ap (λ m. take n xs ++ take m ys) same)

take_nil : (n : ℕ) → take {A = ℕ} n [] ≡ []
take_nil zero = refl
take_nil (suc n) = refl

take_none : (n : ℕ) (xs : List ℕ) → n ≡ 0 → take n xs ≡ []
take_none n xs h = ap (λ m. take m xs) h

module _ (env_vars : List EnvVar) (room : ℕ) where
  loop_on :
      (k c : ℕ) (src out : List ℕ)
      → ltb (length out) room ≡ true
      → expand_loop (suc k) env_vars room (c ∷ src) out
        ≡ expand_loop k env_vars room
            (expand_round env_vars c src).1
            (out ++ take (room - length out) (expand_round env_vars c src).0)
  unfolding expand_loop
  loop_on k c src out h = if-true _ _ h

  loop_full :
      (k c : ℕ) (src out : List ℕ)
      → ltb (length out) room ≡ false
      → expand_loop (suc k) env_vars room (c ∷ src) out ≡ some out
  unfolding expand_loop
  loop_full k c src out h = if-false _ _ h

  expand_loop-substituted :
      (k : ℕ) (src out : List ℕ)
      → length src < k
      → length out ≤ room
      → expand_loop k env_vars room src out
        ≡ some (out ++ take (room - length out) (substituted env_vars k src))
  unfolding substituted expand_loop
  expand_loop-substituted zero src out enough fits = absurd (omega arith)
  expand_loop-substituted (suc k) [] out enough fits =
      ap some (sym (ap (λ r. out ++ r) (take_nil (room - length out)) ∙ append_nil out))
  expand_loop-substituted (suc k) (c ∷ src) out enough fits =
      let r = expand_round env_vars c src in
      let n = room - length out in
      let shorter = expand_round_shorter env_vars c src in
      elim (Bool-cases (ltb (length out) room)) [
        | inl more ↦
            let added = length-append out (take n r.0) in
            let cut = length-take n r.0 in
            let left : room - length (out ++ take n r.0) ≡ n - length r.0 = omega arith in
            let rest = substituted env_vars k r.1 in
            loop_on k c src out more
            ∙ expand_loop-substituted k r.1 (out ++ take n r.0) (omega arith) (omega arith)
            ∙ ap some (
                append_assoc out (take n r.0) (take (room - length (out ++ take n r.0)) rest)
                ∙ ap (λ m. out ++ (take n r.0 ++ take m rest)) left
                ∙ ap (λ t. out ++ t) (sym (take-append n r.0 rest)))
        | inr full ↦
            loop_full k c src out full
            ∙ ap some (
                sym (
                  ap (λ t. out ++ t)
                    (take_none n (r.0 ++ substituted env_vars k r.1) (ground arith))
                  ∙ append_nil out))
      ]

expand_variables-substituted :
    (env_vars : List EnvVar) (line : List ℕ) (max_len : ℕ)
    → 0 < max_len
    → max_len < 2 ^ 64
    → expand_variables env_vars line max_len
      ≡ some (take (max_len - 1) (substituted env_vars (suc (length line)) line))
unfolding expand_variables
expand_variables-substituted env_vars line max_len some_room small =
    let room : u64 (max_len + 2 ^ 64 - 1) ≡ max_len - 1 = omega arith in
    let whole : max_len - 1 - 0 ≡ max_len - 1 = omega arith in
    ap (λ n. expand_loop (suc (length line)) env_vars n line []) room
    ∙ expand_loop-substituted env_vars (max_len - 1) (suc (length line)) line [] (omega arith)
        (omega arith)
    ∙ ap (λ n. some (take n (substituted env_vars (suc (length line)) line))) whole

substituted-Expands :
    (env_vars : List EnvVar) (k : ℕ) (src : List ℕ)
    → length src < k
    → Expands env_vars src (substituted env_vars k src)
unfolding substituted
substituted-Expands env_vars zero src enough = absurd (omega arith)
substituted-Expands env_vars (suc k) [] enough = nothing
substituted-Expands env_vars (suc k) (c ∷ src) enough =
    let r = expand_round env_vars c src in
    let shorter = expand_round_shorter env_vars c src in
    expand_round-Expands env_vars c src (substituted env_vars k r.1)
      (substituted-Expands env_vars k r.1 (omega arith))

-- `expand_variables` ends for every line and every table, and gives the first `max_len - 1` characters
-- of the text that the line stands for by the grammar of `$NAME` and `${NAME}`, each name replaced by
-- the value of its variable; `max_len` is not 0.
pub expand_variables-Expands :
    (env_vars : List EnvVar) (line : List ℕ) (max_len : ℕ)
    → 0 < max_len
    → max_len < 2 ^ 64
    → (text : List ℕ) × Expands env_vars line text
      × (expand_variables env_vars line max_len ≡ some (take (max_len - 1) text))
expand_variables-Expands env_vars line max_len some_room small = (
  substituted env_vars (suc (length line)) line,
  substituted-Expands env_vars (suc (length line)) line (omega arith),
  expand_variables-substituted env_vars line max_len some_room small,
)
