-- ===== src/Shell.antt =====
-- user/shell.c: the environment variables and their substitution in a line.
pub mod Env
pub mod Grammar
pub mod Expand
mod Tests
use hatcher.Base.{
  ℕ, zero, suc, ◌+◌, ◌-◌, ◌^◌, Bool, true, false, not, Option, none, some, List, [], ◌∷◌, ◌++◌,
  ◌==◌, ◌&&◌, ◌||◌, ltb, leb, if◌then◌else◌, u64, take, drop, length, get_or,
}
use hatcher.Base.Int.{ℤ, pos, negsuc}
use hatcher.Text.{strcmp, strncpy}
use hatcher.Base.Int.{is_zero}

-- `env_var_t`; the two arrays are C strings of at most 31 and 127 characters.
pub record EnvVar : Type 0 where
  pub name : List ℕ
  pub value : List ℕ

abbrev pub max_env_vars : ℕ
max_env_vars = 16

abbrev pub name_matches : List ℕ → EnvVar → Bool
name_matches name v = is_zero (strcmp v.name name)

-- The loop that looks for a variable that there is, none where it finds none.
unfoldable pub replace_var : List ℕ → List ℕ → List EnvVar → Option (List EnvVar)
unfolding strcmp
replace_var name value [] = none
replace_var name value (v ∷ env_vars) =
    let rest = replace_var name value env_vars in
    if name_matches name v
    then some (record { name = v.name; value = strncpy value 127 } ∷ env_vars)
    else elim rest [ none ↦ none | some env_vars' ↦ some (v ∷ env_vars') ]

-- `env_count` is the length of the list.
unfoldable pub set_env_var : List ℕ → List ℕ → List EnvVar → List EnvVar
unfolding replace_var
set_env_var name value env_vars = elim (replace_var name value env_vars) [
  | some env_vars' ↦ env_vars'
  | none ↦
      if ltb (length env_vars) max_env_vars
      then env_vars ++ (record { name = strncpy name 31; value = strncpy value 127 } ∷ [])
      else env_vars
]

unfoldable pub get_env_var : List ℕ → List EnvVar → Option (List ℕ)
unfolding strcmp
get_env_var name [] = none
get_env_var name (v ∷ env_vars) =
    let rest = get_env_var name env_vars in if name_matches name v then some v.value else rest

abbrev pub is_letter : ℕ → Bool
is_letter c = leb b'A' c && leb c b'Z' || leb b'a' c && leb c b'z'

abbrev pub starts_name : ℕ → Bool
starts_name c = is_letter c || c == b'_'

abbrev pub in_name : ℕ → Bool
in_name c = is_letter c || leb b'0' c && leb c b'9' || c == b'_'

abbrev pub not_brace : ℕ → Bool
not_brace c = not (c == b'}')

-- The loops that read a name of at most `n` characters: the name and the rest of the line.
unfoldable pub read_name : (ℕ → Bool) → ℕ → List ℕ → List ℕ × List ℕ
read_name test zero src = ([], src)
read_name test (suc n) [] = ([], [])
read_name test (suc n) (c ∷ src) =
    let rest = read_name test n src in if test c then (c ∷ rest.0, rest.1) else ([], c ∷ src)

-- The value of a variable, nothing where there is no such variable.
abbrev pub value_or_nothing : Option (List ℕ) → List ℕ
value_or_nothing none = []
value_or_nothing (some value) = value

-- One round of the loop on the line `c ∷ src`: the text that it adds, and the rest of the line.
unfoldable pub expand_round : List EnvVar → ℕ → List ℕ → List ℕ × List ℕ
unfolding get_env_var read_name
expand_round env_vars c src =
    if c == b'$' && get_or src 0 0 == b'{'
    then (let r = read_name not_brace 31 (drop 1 src) in
        if get_or r.1 0 0 == b'}'
        then (value_or_nothing (get_env_var r.0 env_vars), drop 1 r.1)
        else ([], r.1))
    else if c == b'$' && starts_name (get_or src 0 0)
    then (let r = read_name in_name 31 src in (value_or_nothing (get_env_var r.0 env_vars), r.1))
    else (c ∷ [], src)

-- The loop, on fuel; `room` is `max_len - 1`, and what a round adds is cut where the room ends.
unfoldable pub expand_loop : ℕ → List EnvVar → ℕ → List ℕ → List ℕ → Option (List ℕ)
unfolding expand_round
expand_loop zero env_vars room src expanded = none
expand_loop (suc k) env_vars room [] expanded = some expanded
expand_loop (suc k) env_vars room (c ∷ src) expanded =
    let r = expand_round env_vars c src in
    let rest = expand_loop k env_vars room r.1 (expanded ++ take (room - length expanded) r.0) in
    if ltb (length expanded) room then rest else some expanded

-- One round for each character of the line, and one more.
unfoldable pub expand_variables : List EnvVar → List ℕ → ℕ → Option (List ℕ)
unfolding expand_loop
expand_variables env_vars line max_len =
    expand_loop (suc (length line)) env_vars (u64 (max_len + 2 ^ 64 - 1)) line []
