-- ===== src/Shell/Tests.antt =====
-- An environment with one variable, and a line that uses it.
use hatcher.Base.{ℕ, ap, get_or, ◌-◌, ◌≡◌, ◌≢◌, refl, some, List, [], ◌∷◌, arith, take}
use hatcher.Text.{strncpy}
use hatcher.Shell.{EnvVar, set_env_var, get_env_var, expand_variables}
use hatcher.Shell.Env.{get_env_var-set_env_var}
use hatcher.Shell.Grammar.{Expands}
use hatcher.Shell.Expand.{expand_variables-Expands}

-- "A" with the value "xy"
abbrev a : List ℕ
a = b'A' ∷ []

abbrev xy : List ℕ
xy = b'x' ∷ b'y' ∷ []

abbrev one_var : List EnvVar
one_var = record { name = a; value = xy } ∷ []

a_is_not_b : a ≢ (b'B' ∷ [])
a_is_not_b e = omega (arith, ap (λ s. get_or s 0 0) e)

get_env_var_example :
    (get_env_var (b'B' ∷ []) (set_env_var (b'B' ∷ []) xy one_var) ≡ some (strncpy xy 127))
    × (get_env_var a (set_env_var (b'B' ∷ []) xy one_var) ≡ get_env_var a one_var)
get_env_var_example =
    get_env_var-set_env_var (b'B' ∷ []) xy a one_var (omega arith) (omega arith) a_is_not_b
      (omega arith) (omega arith) (omega arith)

-- "<$A${A}>"
abbrev line : List ℕ
line = b'<' ∷ b'$' ∷ b'A' ∷ b'$' ∷ b'{' ∷ b'A' ∷ b'}' ∷ b'>' ∷ []

expand_variables_example :
    (text : List ℕ) × Expands one_var line text
    × (expand_variables one_var line 5 ≡ some (take (5 - 1) text))
expand_variables_example = expand_variables-Expands one_var line 5 (omega arith) (omega arith)

-- Four characters of "<xyxy>".
expand_run : expand_variables one_var line 5 ≡ some (b'<' ∷ b'x' ∷ b'y' ∷ b'x' ∷ [])
unfolding expand_variables
expand_run = refl
