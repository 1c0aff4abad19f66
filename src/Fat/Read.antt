-- ===== src/Fat/Read.antt =====
-- drivers/fs/fat32.c: `fat32_read_file`, and that it stays inside the buffer and ends.
use hatcher.Base.{
  ℕ, zero, suc, ◌+◌, ◌-◌, ◌≤◌, ◌≡◌, Option, none, some, List, [], ◌++◌, ◌&&◌, ltb, leb,
  if◌then◌else◌, u32, take, length,
}
use hatcher.Base.Int.{ℤ, pos, negsuc, signed32}
use hatcher.Fat.{Volume, Cache, fat32_cluster_to_lba, fat32_get_next_cluster}

-- `total`, the bytes of `sector`, and what has been copied to `buf`.
pub record Reading : Type 0 where
  pub total : ℕ
  pub sector : List ℕ
  pub buf : List ℕ

-- The sector after a read whose result is not tested.
abbrev after_read : Option (List ℕ) → List ℕ → List ℕ
after_read none old = old
after_read (some new) old = new

-- The body of the inner loop.
abbrev pub copy_sector : ℕ → List ℕ → Reading → Reading
copy_sector size sector r =
    let copy = if ltb 512 (size - r.total) then 512 else size - r.total in
    record { total = r.total + copy; sector = sector; buf = r.buf ++ take copy sector }

module _ (read : ℕ → Option (List ℕ)) (v : Volume) where
  -- The inner loop, with `n` sectors of the cluster left from `s` on.
  unfoldable pub read_sectors : ℕ → ℕ → ℕ → ℕ → Reading → Reading
  read_sectors zero s cluster size r = r
  read_sectors (suc n) s cluster size r =
      let lba = u32 (fat32_cluster_to_lba v cluster + s) in
      let r' = copy_sector size (after_read (read lba) r.sector) r in
      let rest = read_sectors n (s + 1) cluster size r' in if leb size r'.total then r' else rest

  -- The outer loop, on fuel.
  unfoldable pub read_clusters : ℕ → ℕ → ℕ → Reading → Cache → Option (Reading × Cache)
  unfolding read_sectors fat32_get_next_cluster
  read_clusters zero cluster size r c = none
  read_clusters (suc k) cluster size r c =
      let next = fat32_get_next_cluster read v cluster c in
      let rest =
        read_clusters k next.0 size (read_sectors v.sectors_per_cluster 0 cluster size r) next.1 in
      if ltb cluster 0x0FFFFFF8 && ltb r.total size then rest else some (r, c)

  -- `block` is what `kmalloc` returns: none for NULL, or the bytes in the block. The result, and what
  -- has been written to `buf`; one round for each byte, and one more.
  unfoldable pub fat32_read_file : Option (List ℕ) → ℕ → ℕ → Cache → Option (ℤ × List ℕ × Cache)
  unfolding read_clusters
  fat32_read_file none first_cluster size c =
      some (if ltb first_cluster 2 then negsuc 0 else negsuc 1, [], c)
  fat32_read_file (some sector) first_cluster size c =
      if ltb first_cluster 2
      then some (negsuc 0, [], c)
      else elim (read_clusters (suc size) first_cluster size
          (record { total = 0; sector = sector; buf = [] }) c) [
            | none ↦ none
            | some r ↦ some (signed32 (u32 r.0.total), r.0.buf, r.1)
          ]

  -- What has been copied fits, and is counted.
  abbrev pub IsWithin : ℕ → Reading → Type 0
  IsWithin size r = (r.total ≤ size) × (length r.buf ≤ r.total)

  abbrev pub Ends : ℕ → Option (Reading × Cache) → Type 0
  Ends size none = ⊥
  Ends size (some r) = IsWithin size r.0

  abbrev pub Outcome : ℕ → Option (ℤ × List ℕ × Cache) → Type 0
  Outcome size none = ⊥
  Outcome size (some (pos total, bytes, c)) = (total ≤ size) × (length bytes ≤ total)
  Outcome size (some (negsuc e, bytes, c)) = bytes ≡ []
