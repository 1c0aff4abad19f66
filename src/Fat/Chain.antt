-- ===== src/Fat/Chain.antt =====
-- The cache of the table sector does not show.
use hatcher.Base.{
  ℕ, ◌≡◌, ◌≢◌, ◌⊎◌, sym, ap, ◌∙◌, true, false, Option, none, some, List, inl, inr, ◌==◌, ==_iff,
  Bool-cases, Option-cases, if-true, if-false,
}
use hatcher.Fat.{Volume, Cache, fat_sector, fat_entry, fat32_get_next_cluster}

module _ (read : ℕ → Option (List ℕ)) where
  -- The cache is empty or holds what is on the disk.
  abbrev pub IsCoherent : Cache → Type 0
  IsCoherent c = (c.cached_fat_sector ≡ 0xFFFFFFFF) ⊎ (read c.cached_fat_sector ≡ some c.fat_cache)

  -- The entry of a cluster, read from the disk.
  abbrev pub next_on_disk : Volume → ℕ → ℕ
  next_on_disk v cluster = elim (read (fat_sector v cluster)) [
    | none ↦ 0x0FFFFFFF
    | some sector ↦ fat_entry sector cluster
  ]

  pub on_disk :
      (v : Volume) (cluster : ℕ) {sector : List ℕ}
      → read (fat_sector v cluster) ≡ some sector
      → next_on_disk v cluster ≡ fat_entry sector cluster
  on_disk v cluster e = ap (λ o. elim o [ none ↦ 0x0FFFFFFF | some s ↦ fat_entry s cluster ]) e

  hit :
      (v : Volume) (cluster : ℕ) (c : Cache)
      → (fat_sector v cluster == c.cached_fat_sector) ≡ true
      → fat32_get_next_cluster read v cluster c ≡ (fat_entry c.fat_cache cluster, c)
  unfolding fat32_get_next_cluster
  hit v cluster c h = if-true _ _ h

  miss :
      (v : Volume) (cluster : ℕ) (c : Cache) (o : Option (List ℕ))
      → (fat_sector v cluster == c.cached_fat_sector) ≡ false
      → read (fat_sector v cluster) ≡ o
      → fat32_get_next_cluster read v cluster c ≡ elim o [
        | none ↦ (0x0FFFFFFF, c)
        | some sector ↦ (
          fat_entry sector cluster,
          record { cached_fat_sector = fat_sector v cluster; fat_cache = sector },
        )
      ]
  unfolding fat32_get_next_cluster
  miss v cluster c o h e =
      if-false _ _ h
      ∙ ap
          (λ p. elim p [
            | none ↦ (0x0FFFFFFF, c)
            | some sector ↦ (
              fat_entry sector cluster,
              record { cached_fat_sector = fat_sector v cluster; fat_cache = sector },
            )
          ])
          e

  -- `fat32_get_next_cluster` returns the entry that is on the disk, or 0x0FFFFFFF if its sector cannot
  -- be read, whether it comes from the cache or not; the cache stays true to the disk.
  pub get_next_cluster-next_on_disk :
      (v : Volume) (cluster : ℕ) (c : Cache)
      → IsCoherent c
      → fat_sector v cluster ≢ 0xFFFFFFFF
      → ((fat32_get_next_cluster read v cluster c).0 ≡ next_on_disk v cluster)
        × IsCoherent (fat32_get_next_cluster read v cluster c).1
  get_next_cluster-next_on_disk v cluster c coherent real =
      elim (Bool-cases (fat_sector v cluster == c.cached_fat_sector)) [
        | inl same ↦
            let equal : fat_sector v cluster ≡ c.cached_fat_sector = (==_iff _ _).0 same in
            elim coherent [
              | inl empty ↦ absurd (real (equal ∙ empty))
              | inr held ↦
                  rw (hit v cluster c same)
                    (sym (on_disk v cluster (ap read equal ∙ held)), inr held)
            ]
        | inr other ↦ elim (Option-cases (read (fat_sector v cluster))) [
          | inl bad ↦ rw (miss v cluster c none other bad) (
            sym (ap (λ o. elim o [ none ↦ 0x0FFFFFFF | some s ↦ fat_entry s cluster ]) bad),
            coherent,
          )
          | inr (sector, good) ↦
              rw (miss v cluster c (some sector) other good)
                (sym (on_disk v cluster good), inr good)
        ]
      ]
