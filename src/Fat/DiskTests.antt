-- ===== src/Fat/DiskTests.antt =====
-- A drive with one table, at sector 1, and a root directory of one sector with two files.
use hatcher.Base.{
  false, ℕ, ◌+◌, ◌≡◌, refl, true, Option, none, some, List, [], ◌∷◌, ◌++◌, map, inl, inr, ◌==◌,
  if◌then◌else◌, arith, replicate, length, Bool-cases, if-true, if-false, sym, ◌∙◌, ap, u32,
}
use hatcher.Base.Int.{ℤ, pos, negsuc}
use hatcher.Fat.{Volume, Cache, fat32_cluster_to_lba}
use hatcher.Fat.Chain.{IsCoherent, next_on_disk}
use hatcher.Fat.Dir.{Entry, Listing, more, fat32_read_dir, fat32_list_dir, list_entry}
use hatcher.Fat.Dir.Walk.{Chain, chain_sectors, link, ended, visit_list, entries}
use hatcher.Fat.Dir.Listed.{fat32_read_dir-all_entries}
use hatcher.Fat.Dir.Fields.{Lists, fat32_list_dir-Lists}
use hatcher.Fat.Alloc.{with_disk, Disk, Fs, fat_write_fat_entry, find_free_cluster}
use hatcher.Fat.Alloc.Write.{fat_write_fat_entry-next_on_disk}
use hatcher.Fat.Alloc.Tables.{IsSectored}
use hatcher.Fat.Alloc.FindFree.{Found, find_free_cluster-Found}
use hatcher.Fat.Path.{list_here, fat32_resolve_path, fat32_change_dir}
use hatcher.Fat.Path.Lookup.{Lookup, without_drive, fat32_resolve_path-Lookup}
use hatcher.Fat.Path.Change.{Placed, fat32_change_dir-Placed}
use hatcher.Fat.Create.{fat32_create_file}
use hatcher.Fat.Create.NameEntries.{with_name}
use hatcher.Fat.Create.Found.{fat32_create_file-fat32_list_dir}
use hatcher.Fat.Mount.{fat32_mount}
use hatcher.Fat.Mount.Outcomes.{MountEnds, fat32_mount-MountEnds}
use hatcher.Fat.CreateFs.{empty_sector, fat32_create_fs}
use hatcher.Fat.CreateFs.NotMounted.{fat32_mount-fat32_create_fs}
use hatcher.Fat.WriteFile.{update_entry, find_entry}
use hatcher.Fat.WriteFile.Grows.{update_entry_endless}

-- "A", a directory at cluster 5, and "B.C", a file at cluster 6, and behind them the end mark.
abbrev entry_a : List ℕ
entry_a = b'A' ∷ replicate 10 32 ++ (0x10 ∷ replicate 14 0) ++ (5 ∷ replicate 5 0)

abbrev entry_b : List ℕ
entry_b = b'B' ∷ replicate 7 32 ++ (b'C' ∷ 32 ∷ 32 ∷ 0x20 ∷ replicate 14 0) ++ (6 ∷ replicate 5 0)

abbrev root_sector : List ℕ
root_sector = entry_a ++ entry_b ++ replicate 448 0

-- The root directory has no cluster behind cluster 2; the clusters 3 and 4 are free.
abbrev table_sector : List ℕ
table_sector =
    0xF8
    ∷ 0xFF
    ∷ 0xFF
    ∷ 0x0F
    ∷ 0xFF
    ∷ 0xFF
    ∷ 0xFF
    ∷ 0x0F
    ∷ 0xFF
    ∷ 0xFF
    ∷ 0xFF
    ∷ 0x0F
    ∷ replicate 500 0

abbrev drive : Disk
drive n = if n == 1 then some table_sector else if n == 2 then some root_sector else none

abbrev volume : Volume
volume = record { partition_lba = 0; fat_start = 1; cluster_begin_lba = 2; sectors_per_cluster = 1 }

abbrev no_cache : Cache
no_cache = record { cached_fat_sector = 0xFFFFFFFF; fat_cache = [] }

abbrev fs : Fs
fs = record {
  disk = drive;
  volume = volume;
  cache = no_cache;
  sectors_per_fat = 1;
  table_count = 1;
  total_clusters = 3;
  root_dir_first_cluster = 2;
  current_dir_cluster = 2;
  next_free_hint = 3;
}

root_chain : Chain drive volume 2 (2 ∷ [])
root_chain = link (omega arith) (λ e. omega arith) (ended (omega arith))

root_read : chain_sectors drive volume (2 ∷ []) ≡ map some (root_sector ∷ [])
unfolding fat32_cluster_to_lba
root_read = refl

fat32_read_dir_example :
    (c : Cache) × IsCoherent drive c
    × (fat32_read_dir drive volume 2 true 2 8 no_cache ≡ some ((pos 2, entry_a ∷ entry_b ∷ []), c))
fat32_read_dir_example =
    fat32_read_dir-all_entries drive volume 2 2 8 no_cache (2 ∷ []) (root_sector ∷ []) root_chain
      (inl refl) root_read (omega arith)

fat32_list_dir_example :
    (fat32_list_dir drive volume 2 false [] 2 8 no_cache ≡ some ((negsuc 0, []), no_cache))
    × ((r : ℤ × List Entry) × (c : Cache) × IsCoherent drive c
        × (fat32_list_dir drive volume 2 true [] 2 8 no_cache ≡ some (r, c))
        × Lists 8 (chain_sectors drive volume (2 ∷ [])) r)
fat32_list_dir_example =
    fat32_list_dir-Lists drive volume 2 2 8 [] no_cache (2 ∷ []) root_chain (inl refl) (omega arith)

drive-IsSectored : IsSectored drive
drive-IsSectored n s e = elim (Bool-cases (n == 1)) [
  | inl table ↦ ap length (some_inj (sym e ∙ if-true _ _ table))
  | inr other ↦ elim (Bool-cases (n == 2)) [
    | inl root ↦ ap length (some_inj (sym e ∙ if-false _ _ other ∙ if-true _ _ root))
    | inr nothing ↦
        let gone : none ≡ some s = sym (if-false _ _ other ∙ if-false _ _ nothing) ∙ e in cc
  ]
]
  where
    some_inj : {a b : List ℕ} → some a ≡ some b → a ≡ b
    some_inj h = cc

written : (fat_write_fat_entry 3 4 fs).0 ≡ pos 0
unfolding fat_write_fat_entry
written = refl

fat_write_fat_entry_example :
    let fs' = (fat_write_fat_entry 3 4 fs).1 in
    (next_on_disk fs'.disk fs'.volume 3 ≡ 4)
    × (next_on_disk fs'.disk fs'.volume 2 ≡ next_on_disk drive volume 2)
    × (fs'.cache.cached_fat_sector ≡ 0xFFFFFFFF)
fat_write_fat_entry_example =
    fat_write_fat_entry-next_on_disk 3 4 2 fs (refl, omega arith, omega arith, drive-IsSectored)
      (omega arith, omega arith) (omega arith, omega arith) (λ e. omega arith) written

find_free_cluster_example : Found 4 fs (find_free_cluster fs)
find_free_cluster_example =
    find_free_cluster-Found 4 fs (inl refl) (omega arith) (omega arith) (omega arith) (omega arith)
      (omega arith) (omega arith)

find_free_cluster_run : (find_free_cluster fs).0 ≡ 3
unfolding find_free_cluster
find_free_cluster_run = refl

-- "a"
abbrev small_a : List ℕ
small_a = b'a' ∷ []

abbrev both : List Entry
both =
    record { name = b'A' ∷ []; attr = 0x10; first_cluster = 5; size = 0 }
    ∷ record { name = b'B' ∷ b'.' ∷ b'C' ∷ []; attr = 0x20; first_cluster = 6; size = 0 }
    ∷ []

listed_both : list_here 2 true [] 64 fs ≡ some ((pos 2, both), fs)
unfolding fat32_list_dir fat32_cluster_to_lba
listed_both = refl

-- "0:/a"
abbrev drive_a : List ℕ
drive_a = b'0' ∷ b':' ∷ b'/' ∷ b'a' ∷ []

fat32_resolve_path_example :
    (target : Option ℕ) × (fat32_resolve_path 2 true [] drive_a fs ≡ some (target, fs))
    × Lookup (without_drive drive_a) both target
fat32_resolve_path_example =
    fat32_resolve_path-Lookup 2 true [] drive_a fs fs 2 both refl refl refl (omega arith)
      (omega arith) listed_both

fat32_change_dir_example : Placed 2 [] fs (fat32_change_dir 2 true [] small_a fs)
fat32_change_dir_example =
    fat32_change_dir-Placed 2 [] small_a fs (2 ∷ []) root_chain (inl refl) (omega arith)
      (omega arith)

change_dir_run :
    fat32_change_dir 2 true [] small_a fs ≡ some (pos 0, record fs { current_dir_cluster = 5 })
unfolding fat32_change_dir fat32_cluster_to_lba
change_dir_run = refl

abbrev start : Listing
start = record { lfn_parts = []; lfn_present = 0; out = [] }

abbrev after_both : Listing
after_both = record { lfn_parts = []; lfn_present = 0; out = both }

passed_both : visit_list (list_entry 8) (entries 2 root_sector) start ≡ more after_both
unfolding list_entry
passed_both = refl

root_there : drive (u32 (fat32_cluster_to_lba volume 2 + 0)) ≡ some root_sector
unfolding fat32_cluster_to_lba
root_there = refl

fat32_create_file_example :
    let found = (with_name small_a 0x20 0 after_both).out in
    (fs' : Fs) × (fat32_create_file 1 true small_a fs ≡ some (pos 0, fs'))
    × (fat32_list_dir fs'.disk fs'.volume 1 true [] fs'.current_dir_cluster 8 no_cache
        ≡ some ((pos (length found), found), no_cache))
fat32_create_file_example =
    fat32_create_file-fat32_list_dir 0 0 8 2 0 small_a [] fs root_sector after_both no_cache
      (omega arith, omega arith, omega arith) refl (omega arith) root_there refl
      ((λ e. omega arith), (λ e. omega arith), ((λ e. omega arith), (λ e. omega arith), tt)) refl
      (omega arith) passed_both (omega arith)

-- A boot record whose second partition is one of FAT32, at sector 4, and its boot sector: one sector for
-- each cluster, two reserved sectors, one table of one sector, 9 sectors, and the root at cluster 2.
abbrev boot_record : List ℕ
boot_record =
    replicate 462 0 ++ (0 ∷ 0 ∷ 0 ∷ 0 ∷ 0x0C ∷ 0 ∷ 0 ∷ 0 ∷ 4 ∷ replicate 39 0) ++ (0x55 ∷ 0xAA ∷ [])

abbrev boot_sector : List ℕ
boot_sector =
    replicate 13 0
    ++ (1 ∷ 2 ∷ 0 ∷ 1 ∷ replicate 15 0)
    ++ (9 ∷ 0 ∷ 0 ∷ 0 ∷ 1 ∷ replicate 7 0)
    ++ (2 ∷ replicate 465 0)
    ++ (0x55 ∷ 0xAA ∷ [])

abbrev partitioned : Fs
partitioned = record fs {
  disk = λ n. if n == 0 then some boot_record else if n == 4 then some boot_sector else none;
}

fat32_mount_example : MountEnds true partitioned (fat32_mount true partitioned)
fat32_mount_example = fat32_mount-MountEnds true partitioned

mount_run :
    fat32_mount true partitioned
    ≡ some (
      pos 0,
      record partitioned {
        volume = record {
          partition_lba = 0;
          fat_start = 2;
          cluster_begin_lba = 7;
          sectors_per_cluster = 1;
        };
        sectors_per_fat = 1;
        table_count = 1;
        total_clusters = 2;
        root_dir_first_cluster = 2;
        current_dir_cluster = 2;
        next_free_hint = 3;
      },
    )
unfolding fat32_mount
mount_run = refl

found_b : find_entry 16 0 (b'b' ∷ b'.' ∷ b'c' ∷ []) root_sector ≡ some 32
unfolding find_entry
found_b = refl

update_entry_example : update_entry 1000 0 (b'b' ∷ b'.' ∷ b'c' ∷ []) 100 6 fs ≡ none
update_entry_example =
    update_entry_endless 1000 100 6 (b'b' ∷ b'.' ∷ b'c' ∷ []) fs (omega arith)
      (root_sector, 32, root_there, found_b)

-- A drive whose sectors are all zeros.
abbrev blank : Fs
blank = record fs { disk = λ n. some empty_sector }

fat32_create_fs_example :
    let fs' = with_disk (fat32_create_fs (some []) blank.disk) blank in
    fat32_mount true fs' ≡ some (negsuc 3, fs')
fat32_create_fs_example = fat32_mount-fat32_create_fs [] empty_sector blank refl
