-- ===== src/Fat/Path.antt =====
-- drivers/fs/fat32.c: `fat32_resolve_path` and `fat32_change_dir`.
pub mod Lookup
pub mod Change
use hatcher.Base.{
  ℕ, zero, suc, ◌+◌, ◌/◌, ◌%◌, Bool, true, false, Option, none, some, List, [], ◌∷◌, ◌==◌, ◌&&◌,
  ◌||◌, ltb, leb, if◌then◌else◌, drop, get_or, get_elem?,
}
use hatcher.Base.Int.{ℤ, pos, negsuc, is_zero}
use hatcher.Fat.{strcasecmp_ascii}
use hatcher.Fat.Dir.{Entry, fat32_list_dir}
use hatcher.Fat.Alloc.{Fs, with_cache}

-- The first directory that is listed under a name.
unfoldable pub find_dir : List Entry → List ℕ → Option ℕ
unfolding strcasecmp_ascii
find_dir [] path = none
find_dir (e ∷ es) path =
    let rest = find_dir es path in
    if e.attr / 16 % 2 == 0
    then rest
    else if is_zero (strcasecmp_ascii e.name path)
    then some e.first_cluster
    else rest

-- The byte of a string at an index, with the NUL behind it.
abbrev pub char_at : List ℕ → ℕ → ℕ
char_at path i = get_or path i 0

abbrev pub has_drive : List ℕ → Bool
has_drive path = char_at path 1 == b':' && (char_at path 2 == b'\\' || char_at path 2 == b'/')

abbrev pub is_root : List ℕ → Bool
is_root path = (char_at path 0 == b'/' || char_at path 0 == b'\\') && char_at path 1 == 0

abbrev pub is_here : List ℕ → Bool
is_here path = char_at path 0 == 0 || char_at path 0 == b'.' && char_at path 1 == 0

abbrev pub is_parent : List ℕ → Bool
is_parent path = char_at path 0 == b'.' && char_at path 1 == b'.' && char_at path 2 == 0

-- The case of "..": the second entry of the current directory.
abbrev pub parent_target : ℤ → List Entry → Fs → Option ℕ
parent_target (negsuc e) out fs = none
parent_target (pos n) out fs = if ltb n 2 then none else elim (get_elem? out 1) [
  | none ↦ none
  | some e ↦ some (
      if e.first_cluster == fs.current_dir_cluster || e.first_cluster == 0
      then fs.root_dir_first_cluster
      else e.first_cluster)
]

abbrev pub named_target : ℤ → List Entry → List ℕ → Option ℕ
named_target (negsuc e) out path = none
named_target (pos n) out path = find_dir out path

-- `if(!r && c>=2){ current_dir_cluster=c; } return r;`
abbrev pub enter : Option ℕ → Fs → ℤ × Fs
enter none fs = (negsuc 0, fs)
enter (some c) fs = (pos 0, if leb 2 c then record fs { current_dir_cluster = c } else fs)

-- `k` is the fuel of the listing, `block` what its `kmalloc` gives, `parts` what its array holds at
-- first. The target is none where the function returns -1.
module _ (k : ℕ) (block : Bool) (parts : List (List ℕ)) where
  abbrev pub list_here : ℕ → Fs → Option ((ℤ × List Entry) × Fs)
  list_here max fs =
      elim (fat32_list_dir fs.disk fs.volume k block parts fs.current_dir_cluster max fs.cache) [
        | none ↦ none
        | some r ↦ some (r.0, with_cache r.1 fs)
      ]

  -- From the test for the root on.
  unfoldable pub resolve_rest : List ℕ → Fs → Option (Option ℕ × Fs)
  unfolding find_dir fat32_list_dir
  resolve_rest path fs =
      if is_root path
      then some (some fs.root_dir_first_cluster, fs)
      else if is_here path
      then some (some fs.current_dir_cluster, fs)
      else if is_parent path
      then elim (list_here 2 fs) [
        | none ↦ none
        | some (r, fs') ↦ some (parent_target r.0 r.1 fs, fs')
      ]
      else elim (list_here 64 fs) [
        | none ↦ none
        | some (r, fs') ↦ some (named_target r.0 r.1 path, fs')
      ]

  unfoldable pub fat32_resolve_path : List ℕ → Fs → Option (Option ℕ × Fs)
  unfolding resolve_rest
  fat32_resolve_path path fs =
      if has_drive path
      then if char_at path 3 == 0
        then some (some fs.root_dir_first_cluster, fs)
        else resolve_rest (drop 3 path) fs
      else resolve_rest path fs

  unfoldable pub fat32_change_dir : List ℕ → Fs → Option (ℤ × Fs)
  unfolding fat32_resolve_path
  fat32_change_dir path fs = elim (fat32_resolve_path path fs) [
    | none ↦ none
    | some (target, fs') ↦ some (enter target fs')
  ]
