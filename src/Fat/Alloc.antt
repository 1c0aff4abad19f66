-- ===== src/Fat/Alloc.antt =====
-- drivers/fs/fat32.c: the state of a mounted volume, `find_free_cluster` and `fat_write_fat_entry`. A
-- drive is a function from sector numbers to sectors, none where the drive cannot read or write.
pub mod Bytes
pub mod Write
pub mod Tables
pub mod FindFree
use hatcher.Base.{
  ℕ, zero, suc, ◌+◌, ◌-◌, ◌*◌, ◌/◌, ◌%◌, ◌^◌, Bool, true, false, Option, none, some, List, [], ◌∷◌,
  ◌++◌, ◌==◌, ◌&&◌, leb, if◌then◌else◌, u32, set, update,
}
use hatcher.Base.Int.{ℤ, pos, negsuc}
use hatcher.Fat.{Volume, Cache, fat32_get_next_cluster}

abbrev pub Disk : Type 0
Disk = ℕ → Option (List ℕ)

-- `ata_write_sector`, none where it returns an error.
abbrev pub ata_write_sector : ℕ → List ℕ → Disk → Option Disk
ata_write_sector lba bytes disk = elim (disk lba) [
  | none ↦ none
  | some old ↦ some (update disk lba (some bytes))
]

-- The variables of the file, with the drive; the fields of `fat32_bpb` that are used after a mount are
-- `table_count` and, in `volume`, `sectors_per_cluster`.
pub record Fs : Type 0 where
  pub disk : Disk
  pub volume : Volume
  pub cache : Cache
  pub sectors_per_fat : ℕ
  pub table_count : ℕ
  pub total_clusters : ℕ
  pub root_dir_first_cluster : ℕ
  pub current_dir_cluster : ℕ
  pub next_free_hint : ℕ

abbrev pub with_disk : Disk → Fs → Fs
with_disk disk fs = record fs { disk = disk }

abbrev pub with_cache : Cache → Fs → Fs
with_cache cache fs = record fs { cache = cache }

abbrev pub with_hint : ℕ → Fs → Fs
with_hint hint fs = record fs { next_free_hint = hint }

-- `cached_fat_sector = 0xFFFFFFFF`
abbrev pub drop_cache : Fs → Fs
drop_cache fs =
    with_cache (record { cached_fat_sector = 0xFFFFFFFF; fat_cache = fs.cache.fat_cache }) fs

unfoldable pub get_next_cluster : ℕ → Fs → ℕ × Fs
unfolding fat32_get_next_cluster
get_next_cluster cluster fs =
    let r = fat32_get_next_cluster fs.disk fs.volume cluster fs.cache in (r.0, with_cache r.1 fs)

-- `*(uint32_t*)&bytes[at] = value`
abbrev pub put_le32 : ℕ → ℕ → List ℕ → List ℕ
put_le32 at value bytes =
    set
      (set (set (set bytes at (value % 2 ^ 8)) (at + 1) (value / 2 ^ 8 % 2 ^ 8)) (at + 2)
        (value / 2 ^ 16 % 2 ^ 8))
      (at + 3) (value / 2 ^ 24 % 2 ^ 8)

-- The loop over the tables, `n` of them from `t` on: whether it comes to its end, and the drive.
unfoldable pub write_tables : ℕ → ℕ → ℕ → ℕ → ℕ → ℕ → Disk → Bool × Disk
write_tables zero t start per_fat cluster value disk = (true, disk)
write_tables (suc n) t start per_fat cluster value disk =
    let fat_sector = u32 (start + t * per_fat + u32 (cluster * 4) / 512) in
    elim (disk fat_sector) [
      | none ↦ (false, disk)
      | some sector ↦
          elim (ata_write_sector fat_sector
            (put_le32 (u32 (cluster * 4) % 512) (value % 2 ^ 28) sector) disk) [
              | none ↦ (false, disk)
              | some disk' ↦ write_tables n (t + 1) start per_fat cluster value disk'
            ]
    ]

unfoldable pub fat_write_fat_entry : ℕ → ℕ → Fs → ℤ × Fs
unfolding write_tables
fat_write_fat_entry cluster value fs =
    let r =
      write_tables fs.table_count 0 fs.volume.fat_start fs.sectors_per_fat cluster value fs.disk in
    if r.0 then (pos 0, drop_cache (with_disk r.1 fs)) else (negsuc 0, with_disk r.1 fs)

-- The cluster that is tried in round `iter`.
abbrev pub candidate : ℕ → ℕ → ℕ → ℕ
candidate start total iter = 2 + u32 (start + 2 ^ 32 - 2 + iter) % total

-- The loop, `n` rounds from `iter` on.
unfoldable pub find_free_loop : ℕ → ℕ → ℕ → Fs → ℕ × Fs
unfolding get_next_cluster
find_free_loop zero iter start fs = (0, fs)
find_free_loop (suc n) iter start fs =
    let cl = candidate start fs.total_clusters iter in
    let r = get_next_cluster cl fs in
    let rest = find_free_loop n (iter + 1) start r.1 in
    if r.0 == 0
    then (cl, with_hint (if leb (2 + fs.total_clusters) (cl + 1) then 2 else cl + 1) r.1)
    else rest

unfoldable pub find_free_cluster : Fs → ℕ × Fs
unfolding find_free_loop
find_free_cluster fs =
    if fs.total_clusters == 0
    then (0, fs)
    else find_free_loop fs.total_clusters 0 fs.next_free_hint fs
