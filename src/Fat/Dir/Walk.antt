-- ===== src/Fat/Dir/Walk.antt =====
-- The walk through a directory visits the sectors of the chain of clusters in order, and ends.
use hatcher.Base.{
  ℕ, zero, suc, ◌+◌, ◌≤◌, ◌<◌, ◌≡◌, ◌≢◌, refl, sym, ap, ◌∙◌, true, false, Option, none, some, List,
  [], ◌∷◌, ◌++◌, arith, inl, inr, Option-cases, ltb, u32, take, drop, length, if-true, if-false,
}
use hatcher.Fat.{Volume, Cache, fat_sector, fat32_cluster_to_lba, fat32_get_next_cluster}
use hatcher.Fat.Chain.{IsCoherent, next_on_disk, get_next_cluster-next_on_disk}
use hatcher.Fat.Dir.{Step, more, done, failed, next, visit_entries, visit_sectors, visit_clusters}

-- The entries of a sector, `n` of them.
abbrev pub entries : ℕ → List ℕ → List (List ℕ)
entries zero sector = []
entries (suc n) sector = take 32 sector ∷ entries n (drop 32 sector)

-- The chain of clusters from `cl` on, up to a value that is no cluster.
pub data Chain (read : ℕ → Option (List ℕ)) (v : Volume) : ℕ → List ℕ → Type 0 where
  ended : {cl : ℕ} → 0x0FFFFFF8 ≤ cl → Chain read v cl []
  link :
      {cl : ℕ} {cs : List ℕ}
      → cl < 0x0FFFFFF8
      → fat_sector v cl ≢ 0xFFFFFFFF
      → Chain read v (next_on_disk read v cl) cs
      → Chain read v cl (cl ∷ cs)

module _ (read : ℕ → Option (List ℕ)) (v : Volume) where
  -- The sectors of a cluster, `n` of them from `s` on, and those of a chain.
  abbrev cluster_sectors : ℕ → ℕ → ℕ → List (Option (List ℕ))
  cluster_sectors zero s cluster = []
  cluster_sectors (suc n) s cluster =
      read (u32 (fat32_cluster_to_lba v cluster + s)) ∷ cluster_sectors n (s + 1) cluster

  abbrev pub chain_sectors : List ℕ → List (Option (List ℕ))
  chain_sectors [] = []
  chain_sectors (cl ∷ cs) = cluster_sectors v.sectors_per_cluster 0 cl ++ chain_sectors cs

-- The walk returns at the end of the chain.
abbrev pub finish : {S : Type 0} → Step S → Step S
finish (more st) = done st
finish (done st) = done st
finish (failed st) = failed st

module _ {S : Type 0} where
  pub next_assoc :
      (r : Step S) (f g : S → Step S) → next (next r f) g ≡ next r (λ st. next (f st) g)
  next_assoc (more st) f g = refl
  next_assoc (done st) f g = refl
  next_assoc (failed st) f g = refl

  pub next_congr : (r : Step S) {f g : S → Step S} → ((st : S) → f st ≡ g st) → next r f ≡ next r g
  next_congr (more st) h = h st
  next_congr (done st) h = refl
  next_congr (failed st) h = refl

module _ {S : Type 0} where
  -- A property of the state that a step ends with.
  module _ (P : S → Type 0) where
    abbrev pub Holds : Step S → Type 0
    Holds (more st) = P st
    Holds (done st) = P st
    Holds (failed st) = P st

    Holds-next :
        (r : Step S) (go : S → Step S)
        → Holds r
        → ((st : S) → P st → Holds (go st))
        → Holds (next r go)
    Holds-next (more st) go p h = h st p
    Holds-next (done st) go p h = p
    Holds-next (failed st) go p h = p

    Holds-finish : (r : Step S) → Holds r → Holds (finish r)
    Holds-finish (more st) p = p
    Holds-finish (done st) p = p
    Holds-finish (failed st) p = p

module _ {S : Type 0} (visit : List ℕ → S → Step S) where
  -- One visit after the other: of a list of entries, and of sectors that can be read or not.
  abbrev pub visit_list : List (List ℕ) → S → Step S
  visit_list [] st = more st
  visit_list (ent ∷ ents) st = next (visit ent st) (visit_list ents)

  abbrev pub visit_disk : List (Option (List ℕ)) → S → Step S
  visit_disk [] st = more st
  visit_disk (none ∷ sectors) st = failed st
  visit_disk (some sector ∷ sectors) st =
      next (visit_list (entries 16 sector) st) (visit_disk sectors)

  pub visit_list-append :
      (xs ys : List (List ℕ)) (st : S)
      → visit_list (xs ++ ys) st ≡ next (visit_list xs st) (visit_list ys)
  visit_list-append [] ys st = refl
  visit_list-append (x ∷ xs) ys st =
      next_congr (visit x st) (visit_list-append xs ys)
      ∙ sym (next_assoc (visit x st) (visit_list xs) (visit_list ys))

  module _ (P : S → Type 0) where
    -- What every visit keeps holds at the end.
    module _ (keeps : (ent : List ℕ) (st : S) → P st → Holds P (visit ent st)) where
      visit_list-Holds : (ents : List (List ℕ)) (st : S) → P st → Holds P (visit_list ents st)
      visit_list-Holds [] st p = p
      visit_list-Holds (ent ∷ ents) st p =
          Holds-next P (visit ent st) (visit_list ents) (keeps ent st p) (visit_list-Holds ents)

      visit_disk-Holds :
          (sectors : List (Option (List ℕ))) (st : S) → P st → Holds P (visit_disk sectors st)
      visit_disk-Holds [] st p = p
      visit_disk-Holds (none ∷ sectors) st p = p
      visit_disk-Holds (some sector ∷ sectors) st p =
          Holds-next P (visit_list (entries 16 sector) st) (visit_disk sectors)
            (visit_list-Holds (entries 16 sector) st p) (visit_disk-Holds sectors)

      pub finish-Holds :
          (sectors : List (Option (List ℕ))) (st : S)
          → P st
          → Holds P (finish (visit_disk sectors st))
      finish-Holds sectors st p =
          Holds-finish P (visit_disk sectors st) (visit_disk-Holds sectors st p)

  visit_disk-append :
      (xs ys : List (Option (List ℕ))) (st : S)
      → visit_disk (xs ++ ys) st ≡ next (visit_disk xs st) (visit_disk ys)
  visit_disk-append [] ys st = refl
  visit_disk-append (none ∷ xs) ys st = refl
  visit_disk-append (some x ∷ xs) ys st =
      next_congr (visit_list (entries 16 x) st) (visit_disk-append xs ys)
      ∙ sym (next_assoc (visit_list (entries 16 x) st) (visit_disk xs) (visit_disk ys))

  pub visit_entries-entries :
      (n : ℕ) (sector : List ℕ) (st : S)
      → visit_entries visit n sector st ≡ visit_list (entries n sector) st
  unfolding visit_entries
  visit_entries-entries zero sector st = refl
  visit_entries-entries (suc n) sector st =
      next_congr (visit (take 32 sector) st) (visit_entries-entries n (drop 32 sector))

  module _ (read : ℕ → Option (List ℕ)) (v : Volume) where
    pub visit_sectors-step :
        (n s cluster : ℕ) (st : S) (o : Option (List ℕ))
        → read (u32 (fat32_cluster_to_lba v cluster + s)) ≡ o
        → visit_sectors visit read v (suc n) s cluster st ≡ elim o [
          | none ↦ failed st
          | some sector ↦
              next (visit_entries visit 16 sector st) (visit_sectors visit read v n (s + 1) cluster)
        ]
    unfolding visit_sectors
    visit_sectors-step n s cluster st o e =
        ap
          (λ o. elim o [
            | none ↦ failed st
            | some sector ↦
                next (visit_entries visit 16 sector st)
                  (visit_sectors visit read v n (s + 1) cluster)
          ])
          e

    visit_sectors_disk :
        (n s cluster : ℕ) (st : S)
        → visit_sectors visit read v n s cluster st
          ≡ visit_disk (cluster_sectors read v n s cluster) st
    unfolding visit_sectors
    visit_sectors_disk zero s cluster st = refl
    visit_sectors_disk (suc n) s cluster st =
        elim (Option-cases (read (u32 (fat32_cluster_to_lba v cluster + s)))) [
          | inl bad ↦ visit_sectors-step n s cluster st none bad ∙ sym (rw bad refl)
          | inr (sector, good) ↦
              visit_sectors-step n s cluster st (some sector) good
              ∙ ap (λ r. next r (visit_sectors visit read v n (s + 1) cluster))
                  (visit_entries-entries 16 sector st)
              ∙ next_congr (visit_list (entries 16 sector) st)
                  (visit_sectors_disk n (s + 1) cluster)
              ∙ sym (rw good refl)
        ]

    clusters_end :
        (k cl : ℕ) (st : S) (c : Cache)
        → ltb cl 0x0FFFFFF8 ≡ false
        → visit_clusters visit read v (suc k) cl st c ≡ some (done st, c)
    unfolding visit_clusters
    clusters_end k cl st c h = if-false _ _ h

    -- The rest of the walk, for the outcome of a cluster.
    abbrev going_on : ℕ → ℕ → Cache → Step S → Option (Step S × Cache)
    going_on k cl c r = elim r [
      | more st' ↦
          visit_clusters visit read v k (fat32_get_next_cluster read v cl c).0 st'
            (fat32_get_next_cluster read v cl c).1
      | done st' ↦ some (done st', c)
      | failed st' ↦ some (failed st', c)
    ]

    clusters_on :
        (k cl : ℕ) (st : S) (c : Cache)
        → ltb cl 0x0FFFFFF8 ≡ true
        → visit_clusters visit read v (suc k) cl st c
          ≡ going_on k cl c (visit_disk (cluster_sectors read v v.sectors_per_cluster 0 cl) st)
    unfolding visit_clusters
    clusters_on k cl st c h =
        if-true _ _ h ∙ ap (going_on k cl c) (visit_sectors_disk v.sectors_per_cluster 0 cl st)

    -- How a walk has ended that visits the sectors `rest` from `r` on.
    abbrev pub Walked : List (Option (List ℕ)) → Step S → Option (Step S × Cache) → Type 0
    Walked rest r o =
        (c' : Cache) × IsCoherent read c' × (o ≡ some (finish (next r (visit_disk rest)), c'))

    going_on-Walked :
        (k cl : ℕ) (c : Cache) (rest : List (Option (List ℕ))) (r : Step S)
        → IsCoherent read c
        → ((st' : S)
            → Walked rest (more st') (
                visit_clusters visit read v k
                  (fat32_get_next_cluster read v cl c).0
                  st'
                  (fat32_get_next_cluster read v cl c).1))
        → Walked rest r (going_on k cl c r)
    going_on-Walked k cl c rest (more st') coherent go = go st'
    going_on-Walked k cl c rest (done st') coherent go = (c, coherent, refl)
    going_on-Walked k cl c rest (failed st') coherent go = (c, coherent, refl)

    pub visit_clusters-Walked :
        (k : ℕ) (st : S) (c : Cache) {cl : ℕ} {cs : List ℕ}
        → Chain read v cl cs
        → IsCoherent read c
        → length cs < k
        → Walked (chain_sectors read v cs) (more st) (visit_clusters visit read v k cl st c)
    visit_clusters-Walked zero st c chain coherent enough = absurd (omega arith)
    visit_clusters-Walked (suc k) st c (ended {cl = cl} high) coherent enough =
        (c, coherent, clusters_end k cl st c (ground arith))
    visit_clusters-Walked (suc k) st c (link {cl = cl} {cs = cs} low real chain) coherent enough =
        let first = cluster_sectors read v v.sectors_per_cluster 0 cl in
        let rest = chain_sectors read v cs in
        let (same, coherent') = get_next_cluster-next_on_disk read v cl c coherent real in
        let chain' : Chain read v (fat32_get_next_cluster read v cl c).0 cs = rw same chain in
        let (c', held, e) = going_on-Walked k cl c rest (visit_disk first st) coherent (λ st'.
          visit_clusters-Walked k st' (fat32_get_next_cluster read v cl c).1 chain' coherent'
            (omega arith)) in
        (
          c',
          held,
          clusters_on k cl st c (ground arith)
              ∙ e
              ∙ ap (λ r. some (finish r, c')) (sym (visit_disk-append first rest st)),
        )
