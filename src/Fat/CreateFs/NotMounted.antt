-- ===== src/Fat/CreateFs/NotMounted.antt =====
-- The file system that `fat32_create_fs` makes has no table of partitions.
use hatcher.Base.{
  ℕ, zero, suc, ◌+◌, ◌*◌, ◌<◌, ◌≡◌, refl, ap, ◌∙◌, true, false, Option, none, some, List, arith,
  ◌==◌, update, if-false,
}
use hatcher.Base.Int.{negsuc}
use hatcher.Fat.Alloc.{Disk, Fs, ata_write_sector, with_disk}
use hatcher.Fat.Mount.{find_partition, mount_drive, fat32_mount}
use hatcher.Fat.CreateFs.{
  boot_fields, info_fields, store_fields, empty_sector, clear_sectors, fat32_create_fs,
}

abbrev boot : List ℕ
boot = store_fields boot_fields empty_sector

no_partition : (fs : Fs) → mount_drive boot fs ≡ some (negsuc 3, fs)
unfolding mount_drive find_partition
no_partition fs = refl

-- A write behind the first sector, whatever its result.
abbrev kept : Disk → Option Disk → Disk
kept disk none = disk
kept disk (some disk') = disk'

behind_first :
    (lba : ℕ) (bytes : List ℕ) (disk : Disk)
    → 0 < lba
    → kept disk (ata_write_sector lba bytes disk) 0 ≡ disk 0
behind_first lba bytes disk h = after (disk lba)
  where
    away : (0 == lba) ≡ false
    away = ground arith

    after :
        (o : Option (List ℕ))
        → kept disk (elim o [ none ↦ none | some old ↦ some (update disk lba (some bytes)) ]) 0
          ≡ disk 0
    after none = refl
    after (some old) = if-false _ _ away

clear_keeps : (n lba : ℕ) (disk : Disk) → 0 < lba → clear_sectors n lba disk 0 ≡ disk 0
unfolding clear_sectors
clear_keeps zero lba disk h = refl
clear_keeps (suc n) lba disk h =
    clear_keeps n (lba + 1) (kept disk (ata_write_sector lba empty_sector disk)) (omega arith)
    ∙ behind_first lba empty_sector disk h

-- What follows the write of the first sector.
abbrev info_written : Disk → Option Disk → Disk
info_written disk1 none = disk1
info_written disk1 (some disk2) = clear_sectors (123 * 2) (32 + 32) (clear_sectors 32 32 disk2)

abbrev boot_written : Disk → Option Disk → Disk
boot_written disk none = disk
boot_written disk (some d) =
    info_written d (ata_write_sector 1 (store_fields info_fields empty_sector) d)

info_keeps :
    (disk1 : Disk) (o : Option Disk) → kept disk1 o 0 ≡ disk1 0 → info_written disk1 o 0 ≡ disk1 0
info_keeps disk1 none h = refl
info_keeps disk1 (some disk2) h =
    clear_keeps (123 * 2) (32 + 32) (clear_sectors 32 32 disk2) (omega arith)
    ∙ clear_keeps 32 32 disk2 (omega arith)
    ∙ h

first_sector :
    (block old : List ℕ) (disk : Disk)
    → disk 0 ≡ some old
    → fat32_create_fs (some block) disk 0 ≡ some boot
unfolding fat32_create_fs
first_sector block old disk there =
    let disk1 = update disk 0 (some boot) in
    ap
      (λ o.
        boot_written disk (elim o [ none ↦ none | some b ↦ some (update disk 0 (some boot)) ]) 0)
      there
    ∙ info_keeps disk1 (ata_write_sector 1 (store_fields info_fields empty_sector) disk1)
        (behind_first 1 (store_fields info_fields empty_sector) disk1 (omega arith))

-- A drive on which `fat32_create_fs` has written its boot sector can not be mounted: the boot sector
-- stands where `fat32_mount` looks for the table of partitions, and the mount returns -4.
pub fat32_mount-fat32_create_fs :
    (block old : List ℕ) (fs : Fs)
    → fs.disk 0 ≡ some old
    → let fs' = with_disk (fat32_create_fs (some block) fs.disk) fs in
      fat32_mount true fs' ≡ some (negsuc 3, fs')
unfolding fat32_mount
fat32_mount-fat32_create_fs block old fs there =
    let fs' = with_disk (fat32_create_fs (some block) fs.disk) fs in
    ap (λ o. elim o [ none ↦ some (negsuc 1, fs') | some sector ↦ mount_drive sector fs' ])
      (first_sector block old fs.disk there)
    ∙ no_partition fs'
