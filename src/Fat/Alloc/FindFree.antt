-- ===== src/Fat/Alloc/FindFree.antt =====
-- `find_free_cluster` finds a free cluster if there is one.
use native.Mathlib.Nat.{mod-eq_of_lt, add-mod_right}
use hatcher.Base.{
  ℕ, zero, suc, ◌+◌, ◌-◌, ◌%◌, ◌^◌, ◌≤◌, ◌<◌, ◌≡◌, ◌≢◌, ◌⊎◌, inl, inr, refl, sym, ap, ◌∙◌, true,
  false, arith, ◌==◌, ==_iff, leb, if◌then◌else◌, Bool-cases, not_both, dec_le, ℕ_discrete, u32,
  if-true, if-false,
}
use hatcher.Fat.{Volume, fat_sector}
use hatcher.Fat.Chain.{IsCoherent, next_on_disk, get_next_cluster-next_on_disk}
use hatcher.Fat.Alloc.{
  Fs, with_cache, with_hint, get_next_cluster, candidate, find_free_loop, find_free_cluster,
}

-- The table lies below the sector number that stands for an empty cache.
abbrev pub IsLow : Volume → Type 0
IsLow v = v.partition_lba + v.fat_start < 2 ^ 31

pub is_real : (v : Volume) (cl : ℕ) → IsLow v → fat_sector v cl ≢ 0xFFFFFFFF
is_real v cl low e = omega arith

-- The walk of the table in terms of the drive, with the cache as part of the state.
pub get_next_cluster_lem :
    (cl : ℕ) (fs : Fs)
    → IsCoherent fs.disk fs.cache
    → IsLow fs.volume
    → ((get_next_cluster cl fs).0 ≡ next_on_disk fs.disk fs.volume cl)
      × IsCoherent fs.disk (get_next_cluster cl fs).1.cache
unfolding get_next_cluster
get_next_cluster_lem cl fs coherent low =
    get_next_cluster-next_on_disk fs.disk fs.volume cl fs.cache coherent (is_real fs.volume cl low)

pub get_next_cluster_rest :
    (cl : ℕ) (fs : Fs) → (get_next_cluster cl fs).1 ≡ with_cache (get_next_cluster cl fs).1.cache fs
unfolding get_next_cluster
get_next_cluster_rest cl fs = refl

-- The two states have the same drive and the same volume, and the cache of the second is true.
abbrev pub Reads : Fs → Fs → Type 0
Reads fs fs' = (fs'.disk ≡ fs.disk) × (fs'.volume ≡ fs.volume) × IsCoherent fs.disk fs'.cache

-- What the search has to say about cluster `c`.
abbrev pub Found : ℕ → Fs → ℕ × Fs → Type 0
Found c fs r =
    Reads fs r.1
    × (((r.0 ≡ 0) × (next_on_disk fs.disk fs.volume c ≢ 0))
        ⊎ ((2 ≤ r.0)
            × (r.0 < 2 + fs.total_clusters)
            × (next_on_disk fs.disk fs.volume r.0 ≡ 0)
            × (2 ≤ r.1.next_free_hint)
            × (r.1.next_free_hint < 2 + fs.total_clusters)))

module _ (n iter start : ℕ) (fs : Fs) where
  abbrev cl : ℕ
  cl = candidate start fs.total_clusters iter

  loop_hit :
      ((get_next_cluster cl fs).0 == 0) ≡ true
      → find_free_loop (suc n) iter start fs ≡ (
        cl,
        with_hint
            (if leb (2 + fs.total_clusters) (cl + 1) then 2 else cl + 1)
            (get_next_cluster cl fs).1,
      )
  unfolding find_free_loop
  loop_hit h = if-true _ _ h

  loop_miss :
      ((get_next_cluster cl fs).0 == 0) ≡ false
      → find_free_loop (suc n) iter start fs
        ≡ find_free_loop n (iter + 1) start (get_next_cluster cl fs).1
  unfolding find_free_loop
  loop_miss h = if-false _ _ h

-- Cluster `c` is in use, or is tried in one of the `n` rounds from `iter` on.
abbrev Later : ℕ → ℕ → ℕ → ℕ → Fs → Type 0
Later n iter start c fs =
    (next_on_disk fs.disk fs.volume c ≢ 0)
    ⊎ ((i : ℕ) × (candidate start fs.total_clusters i ≡ c) × (iter ≤ i) × (i < iter + n))

Later-step :
    (n iter start c : ℕ) (fs : Fs)
    → next_on_disk fs.disk fs.volume (candidate start fs.total_clusters iter) ≢ 0
    → Later (suc n) iter start c fs
    → Later n (iter + 1) start c fs
Later-step n iter start c fs used (inl h) = inl h
Later-step n iter start c fs used (inr (i, at, from, to)) = elim (ℕ_discrete i iter) [
  | yes now ↦
      let here : candidate start fs.total_clusters iter ≡ c =
        ap (candidate start fs.total_clusters) (sym now) ∙ at in
      inl (λ e. used (ap (next_on_disk fs.disk fs.volume) here ∙ e))
  | no other ↦ inr (i, at, omega arith, omega arith)
]

find_free_loop-Found :
    (n iter start c : ℕ) (fs : Fs)
    → IsCoherent fs.disk fs.cache
    → IsLow fs.volume
    → 0 < fs.total_clusters
    → Later n iter start c fs
    → Found c fs (find_free_loop n iter start fs)
unfolding get_next_cluster find_free_loop
find_free_loop-Found zero iter start c fs coherent low some_cluster (inl used) =
    ((refl, refl, coherent), inl (refl, used))
find_free_loop-Found zero iter start c fs coherent low some_cluster (inr (i, at, from, to)) =
    absurd (omega arith)
find_free_loop-Found (suc n) iter start c fs coherent low some_cluster later =
    let x = candidate start fs.total_clusters iter in
    let (value, kept) = get_next_cluster_lem x fs coherent low in
    elim (Bool-cases ((get_next_cluster x fs).0 == 0)) [
      | inl free ↦ rw (loop_hit n iter start fs free) (
        (refl, refl, kept),
        inr (omega arith, omega arith, sym value ∙ (==_iff _ 0).0 free, ground arith, ground arith),
      )
      | inr used ↦
          let taken : next_on_disk fs.disk fs.volume x ≢ 0 =
            λ e. absurd (not_both ((==_iff _ 0).1 (value ∙ e)) used) in
          rw (loop_miss n iter start fs used) (
            find_free_loop-Found n (iter + 1) start c (get_next_cluster x fs).1 kept low
              some_cluster (Later-step n iter start c fs taken later))
    ]

wrap_add : (k n : ℕ) → k < n → (k + n) % n ≡ k
wrap_add k n h = add-mod_right k n ∙ mod-eq_of_lt h

-- Every cluster is tried in some round.
covers :
    (start total c : ℕ)
    → 2 ≤ start
    → start ≤ 2 + total
    → total < 2 ^ 31
    → 2 ≤ c
    → c < 2 + total
    → (i : ℕ) × (candidate start total i ≡ c) × (0 ≤ i) × (i < 0 + total)
covers start total c low high small above below = elim (dec_le start c) [
  | yes up ↦
      let sum : u32 (start + 2 ^ 32 - 2 + (c - start)) ≡ c - 2 = omega arith in
      let inside : c - 2 < total = omega arith in
      let hit : candidate start total (c - start) ≡ c =
        ap (λ k. 2 + k % total) sum ∙ ap (λ k. 2 + k) (mod-eq_of_lt inside) ∙ (omega arith) in
      (c - start, hit, omega arith, omega arith)
  | no round ↦
      let i = c + total - start in
      let sum : u32 (start + 2 ^ 32 - 2 + i) ≡ c - 2 + total = omega arith in
      let inside : c - 2 < total = omega arith in
      let hit : candidate start total i ≡ c =
        ap (λ k. 2 + k % total) sum
        ∙ ap (λ k. 2 + k) (wrap_add (c - 2) total inside)
        ∙ (omega arith) in
      (i, hit, omega arith, omega arith)
]

-- For any cluster `c` of the volume: `find_free_cluster` returns 0, and then `c` is in use; or it
-- returns a cluster of the volume that is free, and the next search starts at one too. The drive and
-- the volume are the same, and the cache is true to the drive. The hint is a cluster or the first
-- number behind them, and there are less than 2^31 clusters.
pub find_free_cluster-Found :
    (c : ℕ) (fs : Fs)
    → IsCoherent fs.disk fs.cache
    → IsLow fs.volume
    → fs.total_clusters < 2 ^ 31
    → 2 ≤ fs.next_free_hint
    → fs.next_free_hint ≤ 2 + fs.total_clusters
    → 2 ≤ c
    → c < 2 + fs.total_clusters
    → Found c fs (find_free_cluster fs)
unfolding find_free_cluster
find_free_cluster-Found c fs coherent low small hint hint' above below =
    let some_cluster : (fs.total_clusters == 0) ≡ false = ground arith in
    let e : find_free_cluster fs ≡ find_free_loop fs.total_clusters 0 fs.next_free_hint fs =
      if-false _ _ some_cluster in
    rw e (
      find_free_loop-Found fs.total_clusters 0 fs.next_free_hint c fs coherent low (omega arith)
        (inr (covers fs.next_free_hint fs.total_clusters c hint hint' small above below)))
