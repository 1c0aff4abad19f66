-- ===== src/Fat/Path/Change.antt =====
-- `fat32_resolve_path` and `fat32_change_dir` return, and a change of directory leaves a cluster.
use hatcher.Base.{
  ℕ, ◌≤◌, ◌<◌, ◌≡◌, ◌⊎◌, inl, inr, refl, Bool, true, false, Option, none, some, List, drop, length,
  leb, ◌==◌, if◌then◌else◌, Bool-cases, arith,
}
use hatcher.Base.Int.{ℤ, pos, negsuc}
use hatcher.Fat.{Cache}
use hatcher.Fat.Chain.{IsCoherent}
use hatcher.Fat.Dir.{Entry, fat32_list_dir}
use hatcher.Fat.Dir.Walk.{Chain}
use hatcher.Fat.Dir.Shown.{Shows, fat32_list_dir-Shows}
use hatcher.Fat.Alloc.{Fs, with_cache}
use hatcher.Fat.Path.{
  char_at, has_drive, is_root, is_here, is_parent, resolve_rest, fat32_resolve_path,
  fat32_change_dir, enter, list_here, named_target, parent_target,
}

-- Only the cache has changed, and it is true to the drive.
abbrev pub Keeps : {A : Type 0} → Fs → Option (A × Fs) → Type 0
Keeps fs none = ⊥
Keeps fs (some (a, fs')) = (c : Cache) × (fs' ≡ with_cache c fs) × IsCoherent fs.disk c

Keeps-if :
    {A : Type 0} (fs : Fs) (b : Bool) (o p : Option (A × Fs))
    → Keeps fs o
    → Keeps fs p
    → Keeps fs (if b then o else p)
Keeps-if fs true o p h k = h
Keeps-if fs false o p h k = k

Keeps-then :
    {A B : Type 0} (fs : Fs) (f : A → B) (o : Option (A × Fs))
    → Keeps fs o
    → Keeps fs (elim o [ none ↦ none | some (a, fs') ↦ some (f a, fs') ])
Keeps-then fs f none h = h
Keeps-then fs f (some (a, fs')) h = h

Keeps-listed :
    (fs : Fs) (max : ℕ) (o : Option ((ℤ × List Entry) × Cache))
    → Shows fs.disk fs.volume max o
    → Keeps fs (elim o [ none ↦ none | some r ↦ some (r.0, with_cache r.1 fs) ])
Keeps-listed fs max none h = h
Keeps-listed fs max (some ((n, out), c)) h = (c, refl, h.3)

module _ (k : ℕ) (parts : List (List ℕ)) where
  module _ (fs : Fs) (cs : List ℕ) (chain : Chain fs.disk fs.volume fs.current_dir_cluster cs)
      (coherent : IsCoherent fs.disk fs.cache) (enough : length cs < k) where
    list_here-Keeps : (max : ℕ) → Keeps fs (list_here k true parts max fs)
    list_here-Keeps max =
        let shows =
          fat32_list_dir-Shows fs.disk fs.volume k fs.current_dir_cluster max parts fs.cache cs
            chain coherent enough in
        Keeps-listed fs max
          (fat32_list_dir fs.disk fs.volume k true parts fs.current_dir_cluster max fs.cache) shows

    resolve_rest-Keeps : (path : List ℕ) → Keeps fs (resolve_rest k true parts path fs)
    unfolding resolve_rest
    resolve_rest-Keeps path =
        Keeps-if fs (is_root path) _ _ (fs.cache, refl, coherent)
          (Keeps-if fs (is_here path) _ _ (fs.cache, refl, coherent)
            (Keeps-if fs (is_parent path) _ _
              (Keeps-then fs (λ r. parent_target r.0 r.1 fs) (list_here k true parts 2 fs)
                (list_here-Keeps 2))
              (Keeps-then fs (λ r. named_target r.0 r.1 path) (list_here k true parts 64 fs)
                (list_here-Keeps 64))))

    resolve_path-Keeps : (path : List ℕ) → Keeps fs (fat32_resolve_path k true parts path fs)
    unfolding fat32_resolve_path
    resolve_path-Keeps path =
        Keeps-if fs (has_drive path) _ _
          (Keeps-if fs (char_at path 3 == 0) _ _ (fs.cache, refl, coherent)
            (resolve_rest-Keeps (drop 3 path)))
          (resolve_rest-Keeps path)

  -- After a change of directory from `fs`: the error -1 and the directory of before, or 0.
  abbrev pub Placed : Fs → Option (ℤ × Fs) → Type 0
  Placed fs none = ⊥
  Placed fs (some (r, fs')) =
      (2 ≤ fs'.current_dir_cluster)
      × (fs'.disk ≡ fs.disk)
      × IsCoherent fs.disk fs'.cache
      × ((r ≡ pos 0) ⊎ ((r ≡ negsuc 0) × (fs'.current_dir_cluster ≡ fs.current_dir_cluster)))

  Placed-enter :
      (fs : Fs) (target : Option ℕ) (c : Cache)
      → 2 ≤ fs.current_dir_cluster
      → IsCoherent fs.disk c
      → Placed fs (some (enter target (with_cache c fs)))
  Placed-enter fs none c placed coherent = (placed, refl, coherent, inr (refl, refl))
  Placed-enter fs (some cl) c placed coherent = elim (Bool-cases (leb 2 cl)) [
    | inl cluster ↦ rw cluster (ground arith, refl, coherent, inl refl)
    | inr other ↦ rw other (placed, refl, coherent, inl refl)
  ]

  Placed-change :
      (fs : Fs) (o : Option (Option ℕ × Fs))
      → 2 ≤ fs.current_dir_cluster
      → Keeps fs o
      → Placed fs (elim o [ none ↦ none | some (target, fs') ↦ some (enter target fs') ])
  Placed-change fs none placed h = h
  Placed-change fs (some (target, fs')) placed (c, same, coherent) =
      rw same (Placed-enter fs target c placed coherent)

  -- In a directory whose chain of clusters comes to an end, `fat32_change_dir` returns for any path. The
  -- current directory is then a cluster number of at least 2, as before, and the drive is the same; where
  -- the result is not 0 it is -1, and the current directory is the same.
  pub fat32_change_dir-Placed :
      (path : List ℕ) (fs : Fs) (cs : List ℕ)
      → Chain fs.disk fs.volume fs.current_dir_cluster cs
      → IsCoherent fs.disk fs.cache
      → length cs < k
      → 2 ≤ fs.current_dir_cluster
      → Placed fs (fat32_change_dir k true parts path fs)
  unfolding fat32_change_dir
  fat32_change_dir-Placed path fs cs chain coherent enough placed =
      Placed-change fs (fat32_resolve_path k true parts path fs) placed
        (resolve_path-Keeps fs cs chain coherent enough path)
