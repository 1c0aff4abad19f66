-- ===== src/Fat/Path/Lookup.antt =====
-- The directory that a name stands for, and that a change of directory leaves a cluster to list.
use hatcher.Base.{
  ℕ, ◌/◌, ◌%◌, ◌≡◌, inl, inr, refl, ap, ◌∙◌, Bool, true, false, Option, none, some, List, [], ◌∷◌,
  ◌++◌, map, zero, suc, drop, sym, if◌then◌else◌, arith, ◌==◌, All, Bool-cases, not_both, if-true,
  if-false,
}
use hatcher.Base.Int.{pos, is_zero, is_zero_iff}
use hatcher.Text.Compare.{IsChar}
use hatcher.Fat.{strcasecmp_ascii, toupper_ascii}
use hatcher.Fat.Names.{strcasecmp_ascii-map}
use hatcher.Fat.Dir.{Entry}
use hatcher.Fat.Alloc.{Fs}
use hatcher.Fat.Path.{
  find_dir, has_drive, is_root, is_here, is_parent, resolve_rest, char_at, fat32_resolve_path,
  list_here, named_target,
}

abbrev is_dir : Entry → Bool
is_dir e = e.attr / 16 % 2 == 1

-- The entry is a directory whose name is the path but for the case of the letters.
abbrev pub Matches : List ℕ → Entry → Type 0
Matches path e = (is_dir e ≡ true) × (map toupper_ascii e.name ≡ map toupper_ascii path)

abbrev pub Lookup : List ℕ → List Entry → Option ℕ → Type 0
Lookup path out none = All (λ e. Matches path e → ⊥) out
Lookup path out (some c) =
    (before : List Entry) × (e : Entry) × (after : List Entry) × (out ≡ before ++ e ∷ after)
    × All (λ e. Matches path e → ⊥) before
    × Matches path e
    × (e.first_cluster ≡ c)

later-Lookup :
    (path : List ℕ) (e : Entry) (out : List Entry) (o : Option ℕ)
    → (Matches path e → ⊥)
    → Lookup path out o
    → Lookup path (e ∷ out) o
later-Lookup path e out none other l = (other, l)
later-Lookup path e out (some c) other (before, e', after, parts, others, hit, to) =
    (e ∷ before, e', after, ap (λ xs. e ∷ xs) parts, (other, others), hit, to)

abbrev IsNamed : Entry → Type 0
IsNamed e = All IsChar e.name

module _ (e : Entry) (es : List Entry) (path : List ℕ) where
  find_dir_file : (e.attr / 16 % 2 == 0) ≡ true → find_dir (e ∷ es) path ≡ find_dir es path
  unfolding find_dir
  find_dir_file file = if-true _ _ file

  module _ (dir : (e.attr / 16 % 2 == 0) ≡ false) where
    find_dir_hit :
        is_zero (strcasecmp_ascii e.name path) ≡ true
        → find_dir (e ∷ es) path ≡ some e.first_cluster
    unfolding find_dir
    find_dir_hit hit = if-false _ _ dir ∙ if-true _ _ hit

    find_dir_miss :
        is_zero (strcasecmp_ascii e.name path) ≡ false → find_dir (e ∷ es) path ≡ find_dir es path
    unfolding find_dir
    find_dir_miss miss = if-false _ _ dir ∙ if-false _ _ miss

not_file : (e : Entry) → (e.attr / 16 % 2 == 0) ≡ true → is_dir e ≡ true → ⊥
not_file e file dir = ground arith

find_dir-Lookup :
    (out : List Entry) (path : List ℕ)
    → All IsNamed out
    → All IsChar path
    → Lookup path out (find_dir out path)
unfolding find_dir
find_dir-Lookup [] path named chars = tt
find_dir-Lookup (e ∷ es) path (named, others) chars =
    let rest = find_dir-Lookup es path others chars in
    let (same, same') = strcasecmp_ascii-map e.name path named chars in
    let (zero_, zero_') = is_zero_iff (strcasecmp_ascii e.name path) in
    elim (Bool-cases (e.attr / 16 % 2 == 0)) [
      | inl file ↦
          rw (find_dir_file e es path file)
            (later-Lookup path e es (find_dir es path) (λ m. not_file e file m.0) rest)
      | inr dir ↦ elim (Bool-cases (is_zero (strcasecmp_ascii e.name path))) [
        | inl hit ↦
            rw (find_dir_hit e es path dir hit)
              ([], e, es, refl, tt, (ground arith, same (zero_ hit)), refl)
        | inr miss ↦ rw (find_dir_miss e es path dir miss) (
            later-Lookup path e es (find_dir es path) (λ m. not_both (zero_' (same' m.1)) miss)
              rest)
      ]
    ]

-- What is left of a path without the name of a drive in front.
abbrev pub without_drive : List ℕ → List ℕ
without_drive path = if has_drive path then drop 3 path else path

char_at-drop : (path : List ℕ) → char_at (drop 3 path) 0 ≡ char_at path 3
char_at-drop [] = refl
char_at-drop (a ∷ []) = refl
char_at-drop (a ∷ b ∷ []) = refl
char_at-drop (a ∷ b ∷ c ∷ []) = refl
char_at-drop (a ∷ b ∷ c ∷ d ∷ path) = refl

All-drop : (P : ℕ → Type 0) (n : ℕ) (path : List ℕ) → All P path → All P (drop n path)
All-drop P zero path h = h
All-drop P (suc n) [] h = h
All-drop P (suc n) (c ∷ path) h = All-drop P n path h.1

module _ (k : ℕ) (block : Bool) (parts : List (List ℕ)) where
  resolve_path_rest :
      (path : List ℕ) (fs : Fs)
      → is_here (without_drive path) ≡ false
      → fat32_resolve_path k block parts path fs
        ≡ resolve_rest k block parts (without_drive path) fs
  unfolding fat32_resolve_path
  resolve_path_rest path fs here = elim (Bool-cases (has_drive path)) [
    | inl drive ↦
        let same = char_at-drop path in
        let rest : is_here (drop 3 path) ≡ false = sym (ap is_here (if-true _ _ drive)) ∙ here in
        let more : (char_at path 3 == 0) ≡ false = ground (arith, same, rest) in
        if-true _ _ drive
        ∙ if-false _ _ more
        ∙ ap (λ p. resolve_rest k block parts p fs) (sym (if-true _ _ drive))
    | inr none_ ↦
        if-false _ _ none_ ∙ ap (λ p. resolve_rest k block parts p fs) (sym (if-false _ _ none_))
  ]

  -- A path without the prefix "X:/" or "X:\", if it has one, that is neither the root, the current
  -- directory nor its parent is looked up in the first 64 entries of the current directory:
  -- `fat32_resolve_path` gives the cluster of the first of them that is a directory with this name, in
  -- capitals or not, and -1 where there is none. The prefix is dropped, and the directory that is
  -- searched is the current one with it too.
  pub fat32_resolve_path-Lookup :
      (path : List ℕ) (fs fs' : Fs) (n : ℕ) (out : List Entry)
      → is_root (without_drive path) ≡ false
      → is_here (without_drive path) ≡ false
      → is_parent (without_drive path) ≡ false
      → All IsChar path
      → All IsNamed out
      → list_here k block parts 64 fs ≡ some ((pos n, out), fs')
      → (target : Option ℕ) × (fat32_resolve_path k block parts path fs ≡ some (target, fs'))
        × Lookup (without_drive path) out target
  unfolding resolve_rest
  fat32_resolve_path-Lookup path fs fs' n out root here parent chars named listed =
      let rest_chars : All IsChar (without_drive path) = elim (Bool-cases (has_drive path)) [
        | inl drive ↦ rw drive (All-drop IsChar 3 path chars)
        | inr none_ ↦ rw none_ chars
      ] in
      (
        find_dir out (without_drive path),
        resolve_path_rest path fs here
            ∙ if-false _ _ root
            ∙ if-false _ _ here
            ∙ if-false _ _ parent
            ∙ ap
                (λ o. elim o [
                  | none ↦ none
                  | some (r, s) ↦ some (named_target r.0 r.1 (without_drive path), s)
                ])
                listed,
        find_dir-Lookup out (without_drive path) named rest_chars,
      )
