-- ===== src/Fat/Mount.antt =====
-- drivers/fs/fat32.c: `fat32_mount`, with the layout of the boot sector from include/fat32.h.
pub mod Outcomes
use hatcher.Base.{
  ℕ, zero, suc, ◌+◌, ◌-◌, ◌*◌, ◌/◌, ◌^◌, Bool, true, false, Option, none, some, List, ◌==◌, ◌&&◌,
  ◌||◌, if◌then◌else◌, u32, get_or,
}
use hatcher.Base.Int.{ℤ, pos, negsuc}
use hatcher.Fat.Dir.{le16, le32}
use hatcher.Fat.Alloc.{Fs, drop_cache}

-- The fields of `fat32_bpb_t` in the bytes of a sector.
abbrev pub sectors_per_cluster_field : List ℕ → ℕ
sectors_per_cluster_field sector = get_or sector 13 0

abbrev pub reserved_sector_count_field : List ℕ → ℕ
reserved_sector_count_field sector = le16 sector 14

abbrev pub table_count_field : List ℕ → ℕ
table_count_field sector = get_or sector 16 0

abbrev pub total_sectors_32_field : List ℕ → ℕ
total_sectors_32_field sector = le32 sector 32

abbrev pub table_size_32_field : List ℕ → ℕ
table_size_32_field sector = le32 sector 36

abbrev pub root_cluster_field : List ℕ → ℕ
root_cluster_field sector = le32 sector 44

-- Both of the signature bytes.
abbrev pub is_signed : List ℕ → Bool
is_signed sector = get_or sector 0x1FE 0 == 0x55 && get_or sector 0x1FF 0 == 0xAA

-- The loop over the partitions, `n` of them from `i` on.
unfoldable pub find_partition : ℕ → ℕ → List ℕ → ℕ
find_partition zero i sector = 0
find_partition (suc n) i sector =
    let offset = 0x1BE + i * 16 in
    let type = get_or sector (offset + 4) 0 in
    let rest = find_partition n (i + 1) sector in
    if type == 0x0B || type == 0x0C then le32 sector (offset + 8) else rest

-- `memcpy(&fat32_bpb, sector, sizeof(fat32_bpb))`
abbrev pub load_bpb : List ℕ → Fs → Fs
load_bpb sector fs = record fs {
  volume = record (fs.volume) { sectors_per_cluster = sectors_per_cluster_field sector };
  table_count = table_count_field sector;
}

-- The assignments from `sectors_per_fat` on. `partition_lba` is the local variable here, which hides
-- the static one; none is the division by a cluster size of 0.
unfoldable pub set_layout : ℕ → List ℕ → Fs → Option (ℤ × Fs)
set_layout partition_lba sector fs =
    let sectors_per_fat = table_size_32_field sector in
    let fat_start = reserved_sector_count_field sector in
    let cluster_begin_lba =
      u32 (partition_lba + fat_start + table_count_field sector * sectors_per_fat) in
    let root_cluster = root_cluster_field sector in
    let root = if root_cluster == 0 then 2 else root_cluster in
    let data_sectors = u32 (total_sectors_32_field sector + 2 ^ 32 - cluster_begin_lba) in
    if sectors_per_cluster_field sector == 0
    then none
    else some (
      pos 0,
      drop_cache (record fs {
        volume = record (fs.volume) {
          fat_start = fat_start;
          cluster_begin_lba = cluster_begin_lba;
        };
        sectors_per_fat = sectors_per_fat;
        total_clusters = data_sectors / sectors_per_cluster_field sector;
        root_dir_first_cluster = root;
        current_dir_cluster = root;
        next_free_hint = 3;
      }),
    )

-- From the boot sector of the partition on.
unfoldable pub mount_partition : ℕ → Fs → Option (ℤ × Fs)
unfolding set_layout
mount_partition partition_lba fs = elim (fs.disk partition_lba) [
  | none ↦ some (negsuc 4, fs)
  | some sector ↦
      if is_signed sector
      then if table_size_32_field sector == 0
        then some (negsuc 6, load_bpb sector fs)
        else set_layout partition_lba sector (load_bpb sector fs)
      else some (negsuc 5, fs)
]

-- From the boot record of the drive on.
unfoldable pub mount_drive : List ℕ → Fs → Option (ℤ × Fs)
unfolding mount_partition find_partition
mount_drive sector fs =
    if is_signed sector
    then if find_partition 4 0 sector == 0
      then some (negsuc 3, fs)
      else mount_partition (find_partition 4 0 sector) fs
    else some (negsuc 2, fs)

-- `block` says whether `kmalloc` returns a block.
unfoldable pub fat32_mount : Bool → Fs → Option (ℤ × Fs)
unfolding mount_drive
fat32_mount false fs = some (negsuc 0, fs)
fat32_mount true fs = elim (fs.disk 0) [
  | none ↦ some (negsuc 1, fs)
  | some sector ↦ mount_drive sector fs
]
