-- ===== src/Fat/Mount/Outcomes.antt =====
-- What a mount leaves behind, where it succeeds and where it fails.
use mathlib.Core.Path.{subst}
use hatcher.Base.{
  ℕ, ◌+◌, ◌*◌, ◌<◌, ◌≡◌, ◌≢◌, ◌⊎◌, inl, inr, refl, Bool, true, false, Option, none, some, List,
  ◌==◌, ==_iff, not_both, if◌then◌else◌, u32, arith, zero, suc, ◌-◌, ◌/◌, ◌^◌, ◌||◌, ap, ◌∙◌,
  get_or, Bool-cases, if-true, if-false,
}
use hatcher.Base.Int.{ℤ, pos, negsuc}
use hatcher.Fat.{fat32_cluster_to_lba}
use hatcher.Fat.Alloc.{Fs}
use hatcher.Fat.Dir.{le16, le32}
use hatcher.Fat.Mount.{
  sectors_per_cluster_field, table_size_32_field, is_signed, find_partition, load_bpb, set_layout,
  mount_partition, mount_drive, fat32_mount,
}

-- The type of entry `i` of the partition table, and whether it is one of FAT32.
abbrev pub type_of : List ℕ → ℕ → ℕ
type_of boot i = get_or boot (0x1BE + i * 16 + 4) 0

abbrev pub is_fat32 : ℕ → Bool
is_fat32 type = type == 0x0B || type == 0x0C

-- No entry of the partition table from `i` on, of `n` entries, has such a type.
abbrev pub NoFat32 : List ℕ → ℕ → ℕ → Type 0
NoFat32 boot i zero = Unit
NoFat32 boot i (suc n) = (is_fat32 (type_of boot i) ≡ false) × NoFat32 boot (i + 1) n

-- The first such entry gives `lba`: it is `d` places behind entry `i`, of `n` entries.
abbrev pub FirstFat32 : List ℕ → ℕ → ℕ → ℕ → Type 0
FirstFat32 boot i n lba =
    (d : ℕ) × (d < n)
    × NoFat32 boot i d
    × (is_fat32 (type_of boot (i + d)) ≡ true)
    × (lba ≡ le32 boot (0x1BE + (i + d) * 16 + 8))

-- Sector 0 is a boot record, and its first FAT32 partition starts at `lba`.
abbrev pub HasPartition : Fs → List ℕ → ℕ → Type 0
HasPartition fs boot lba =
    (fs.disk 0 ≡ some boot) × (is_signed boot ≡ true) × FirstFat32 boot 0 4 lba × (lba ≢ 0)

-- The errors, each with its reason and with what it leaves behind: `Refuses block fs e fs'` for the value
-- -(e + 1).
pub data Refuses (block : Bool) (fs : Fs) : ℕ → Fs → Type 0 where
  no_block : block ≡ false → Refuses block fs 0 fs
  no_record : fs.disk 0 ≡ none → Refuses block fs 1 fs
  record_unsigned :
      (boot : List ℕ) → fs.disk 0 ≡ some boot → is_signed boot ≡ false → Refuses block fs 2 fs
  no_partition :
      (boot : List ℕ)
      → fs.disk 0 ≡ some boot
      → is_signed boot ≡ true
      → NoFat32 boot 0 4 ⊎ FirstFat32 boot 0 4 0
      → Refuses block fs 3 fs
  no_sector :
      (boot : List ℕ) (lba : ℕ)
      → HasPartition fs boot lba
      → fs.disk lba ≡ none
      → Refuses block fs 4 fs
  sector_unsigned :
      (boot : List ℕ) (lba : ℕ) (sector : List ℕ)
      → HasPartition fs boot lba
      → fs.disk lba ≡ some sector
      → is_signed sector ≡ false
      → Refuses block fs 5 fs
  no_table :
      (boot : List ℕ) (lba : ℕ) (sector : List ℕ)
      → HasPartition fs boot lba
      → fs.disk lba ≡ some sector
      → is_signed sector ≡ true
      → le32 sector 36 ≡ 0
      → Refuses block fs 6 (record fs {
        volume = record (fs.volume) { sectors_per_cluster = get_or sector 13 0 };
        table_count = get_or sector 16 0;
      })

-- The boot sector of the partition at `lba`, which has a table.
abbrev pub BootSector : Fs → List ℕ → Type 0
BootSector fs sector =
    (boot : List ℕ) × (lba : ℕ) × HasPartition fs boot lba
    × (fs.disk lba ≡ some sector)
    × (is_signed sector ≡ true)
    × (le32 sector 36 ≢ 0)

-- The volume of `fs'` is as the sector says, behind `start`: the tables follow the reserved sectors, the
-- clusters, from number 2, follow the tables.
abbrev pub Describes : ℕ → List ℕ → Fs → Type 0
Describes start sector fs' =
    (fs'.volume.sectors_per_cluster ≡ get_or sector 13 0)
    × (0 < fs'.volume.sectors_per_cluster)
    × (fs'.volume.fat_start ≡ le16 sector 14)
    × (fs'.table_count ≡ get_or sector 16 0)
    × (fs'.sectors_per_fat ≡ le32 sector 36)
    × (fs'.root_dir_first_cluster ≡ (if le32 sector 44 == 0 then 2 else le32 sector 44))
    × (fs'.total_clusters
        ≡ u32 (le32 sector 32 + 2 ^ 32 - fs'.volume.cluster_begin_lba) / get_or sector 13 0)
    × (fat32_cluster_to_lba fs'.volume 2
        ≡ u32 (
            fs'.volume.partition_lba
            + start
            + fs'.volume.fat_start
            + fs'.table_count * fs'.sectors_per_fat))

-- A mount from `fs` that returns 0 and leaves `fs'`.
abbrev pub Mounted : Fs → Fs → Type 0
Mounted fs fs' =
    (boot : List ℕ) × (lba : ℕ) × (sector : List ℕ) × HasPartition fs boot lba
    × (fs.disk lba ≡ some sector)
    × (is_signed sector ≡ true)
    × (le32 sector 36 ≢ 0)
    × Describes lba sector fs'
    × (fs'.cache.cached_fat_sector ≡ 0xFFFFFFFF)
    × (fs'.current_dir_cluster ≡ fs'.root_dir_first_cluster)
    × (fs'.next_free_hint ≡ 3)
    × (fs'.volume.partition_lba ≡ fs.volume.partition_lba)
    × (fs'.disk ≡ fs.disk)

-- The end of a mount; one that does not return has divided by the cluster size 0 of the boot sector.
abbrev pub MountEnds : Bool → Fs → Option (ℤ × Fs) → Type 0
MountEnds block fs none = (sector : List ℕ) × BootSector fs sector × (get_or sector 13 0 ≡ 0)
MountEnds block fs (some (r, fs')) =
    ((r ≡ pos 0) × Mounted fs fs') ⊎ ((e : ℕ) × (r ≡ negsuc e) × Refuses block fs e fs')

-- The loop over the partitions finds the first.
Finds : List ℕ → ℕ → ℕ → ℕ → Type 0
Finds boot i n lba = (NoFat32 boot i n × (lba ≡ 0)) ⊎ FirstFat32 boot i n lba

find_partition-Finds : (n i : ℕ) (boot : List ℕ) → Finds boot i n (find_partition n i boot)
unfolding find_partition Finds
find_partition-Finds zero i boot = inl (tt, refl)
find_partition-Finds (suc n) i boot = elim (Bool-cases (is_fat32 (type_of boot i))) [
  | inl hit ↦
      let same : i ≡ i + 0 = omega arith in
      let hit' = subst (λ k. is_fat32 (type_of boot k) ≡ true) same hit in
      inr
        (0, omega arith, tt, hit', if-true _ _ hit ∙ ap (λ k. le32 boot (0x1BE + k * 16 + 8)) same)
  | inr miss ↦ elim (find_partition-Finds n (i + 1) boot) [
    | inl (nothing, z) ↦ inl ((miss, nothing), if-false _ _ miss ∙ z)
    | inr (d, less, before, hit, at) ↦
        let same : i + 1 + d ≡ i + suc d = omega arith in
        inr (
          suc d,
          omega arith,
          (miss, before),
          subst (λ k. is_fat32 (type_of boot k) ≡ true) same hit,
          if-false _ _ miss ∙ at ∙ ap (λ k. le32 boot (0x1BE + k * 16 + 8)) same,
        )
  ]
]

module _ (block : Bool) (fs : Fs) where
  MountEnds-if :
      (b : Bool) (o p : Option (ℤ × Fs))
      → (b ≡ true → MountEnds block fs o)
      → (b ≡ false → MountEnds block fs p)
      → MountEnds block fs (if b then o else p)
  MountEnds-if true o p h k = h refl
  MountEnds-if false o p h k = k refl

  MountEnds-read :
      (e : ℕ) (o : Option (List ℕ)) (go : List ℕ → Option (ℤ × Fs))
      → (o ≡ none → Refuses block fs e fs)
      → ((sector : List ℕ) → o ≡ some sector → MountEnds block fs (go sector))
      → MountEnds block fs (elim o [ none ↦ some (negsuc e, fs) | some sector ↦ go sector ])
  MountEnds-read e none go bad good = inr (e, refl, bad refl)
  MountEnds-read e (some sector) go bad good = good sector refl

  set_layout-MountEnds :
      (boot : List ℕ) (lba : ℕ) (sector : List ℕ)
      → HasPartition fs boot lba
      → fs.disk lba ≡ some sector
      → is_signed sector ≡ true
      → le32 sector 36 ≢ 0
      → MountEnds block fs (set_layout lba sector (load_bpb sector fs))
  unfolding set_layout fat32_cluster_to_lba
  set_layout-MountEnds boot lba sector part there signed sized =
      MountEnds-if (sectors_per_cluster_field sector == 0) _ _
        (λ none_. (sector, (boot, lba, part, there, signed, sized), (==_iff _ 0).0 none_))
        (λ some_sector. inl (
          refl,
          (
            boot,
            lba,
            sector,
            part,
            there,
            signed,
            sized,
            (refl, ground arith, refl, refl, refl, refl, refl, omega arith),
            refl,
            refl,
            refl,
            refl,
            refl,
          ),
        ))

  mount_partition-MountEnds :
      (boot : List ℕ) (lba : ℕ)
      → HasPartition fs boot lba
      → MountEnds block fs (mount_partition lba fs)
  unfolding mount_partition
  mount_partition-MountEnds boot lba part =
      MountEnds-read 4 (fs.disk lba) _ (no_sector boot lba part) (λ sector there.
        MountEnds-if (is_signed sector) _ _
          (λ signed.
            MountEnds-if (table_size_32_field sector == 0) _ _
              (λ z. inr (6, refl, no_table boot lba sector part there signed ((==_iff _ 0).0 z)))
              (λ sized.
                set_layout-MountEnds boot lba sector part there signed
                  (λ z. not_both ((==_iff _ 0).1 z) sized)))
          (λ unsigned. inr (5, refl, sector_unsigned boot lba sector part there unsigned)))

  first_at :
      (boot : List ℕ) (lba : ℕ)
      → Finds boot 0 4 lba
      → (lba == 0) ≡ true
      → NoFat32 boot 0 4 ⊎ FirstFat32 boot 0 4 0
  unfolding Finds
  first_at boot lba (inl (nothing, _)) z = inl nothing
  first_at boot lba (inr first) z =
      inr (subst (λ l. FirstFat32 boot 0 4 l) ((==_iff lba 0).0 z) first)

  first_real : (boot : List ℕ) (lba : ℕ) → Finds boot 0 4 lba → lba ≢ 0 → FirstFat32 boot 0 4 lba
  unfolding Finds
  first_real boot lba (inl (nothing, z)) real = absurd (real z)
  first_real boot lba (inr first) real = first

  mount_drive-MountEnds :
      (boot : List ℕ) → fs.disk 0 ≡ some boot → MountEnds block fs (mount_drive boot fs)
  unfolding mount_drive
  mount_drive-MountEnds boot there =
      let lba = find_partition 4 0 boot in
      let finds = find_partition-Finds 4 0 boot in
      MountEnds-if (is_signed boot) _ _
        (λ signed.
          MountEnds-if (lba == 0) _ _
            (λ z. inr (3, refl, no_partition boot there signed (first_at boot lba finds z)))
            (λ part.
              let real : lba ≢ 0 = λ z. not_both ((==_iff _ 0).1 z) part in
              mount_partition-MountEnds boot lba
                (there, signed, first_real boot lba finds real, real)))
        (λ unsigned. inr (2, refl, record_unsigned boot there unsigned))

-- `fat32_mount` mounts the first FAT32 partition in the table of the boot record. Where it returns 0, each
-- field of the volume is as the boot sector of the partition says, cluster 2 lies behind the reserved
-- sectors and the tables, the cache is empty, the current directory is the root, and the search for free
-- clusters begins at 3; the static variable `partition_lba` is as before. Each of the errors -1 to -7 has
-- its reason, and leaves everything as it was, but for the cluster size and the number of tables that -7
-- takes over from a boot sector without a table size. It does not return only where the boot sector of
-- the partition has a cluster size of 0, which it divides by.
pub fat32_mount-MountEnds : (block : Bool) (fs : Fs) → MountEnds block fs (fat32_mount block fs)
unfolding fat32_mount
fat32_mount-MountEnds false fs = inr (0, refl, no_block refl)
fat32_mount-MountEnds true fs =
    MountEnds-read true fs 1 (fs.disk 0) _ no_record (mount_drive-MountEnds true fs)
