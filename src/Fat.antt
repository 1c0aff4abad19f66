-- ===== src/Fat.antt =====
-- drivers/fs/fat32.c: the names, the place of a cluster, and the walk along the table with its cache
-- of one sector. A sector is the list of its bytes; `read` stands for `ata_read_sector` on one drive,
-- none where that returns an error, which leaves the buffer as it was.
pub mod Names
pub mod Chain
pub mod Read
pub mod Dir
pub mod Alloc
pub mod Path
pub mod Create
pub mod Mount
pub mod WriteFile
pub mod CreateFs
mod Tests
mod DiskTests
use hatcher.Base.{
  ℕ, zero, suc, ◌+◌, ◌-◌, ◌*◌, ◌/◌, ◌%◌, ◌^◌, Bool, true, false, not, Option, none, some, List, [],
  ◌∷◌, ◌++◌, ◌==◌, ◌&&◌, ◌||◌, leb, if◌then◌else◌, u8, u32, take, drop, get_or,
}
use hatcher.Base.Int.{ℤ, ◌-ℤ◌}
use hatcher.Text.{char_diff, take_while}

abbrev pub toupper_ascii : ℕ → ℕ
toupper_ascii c = if leb b'a' c && leb c b'z' then c - (b'a' - b'A') else c

-- The low bytes of the 13 UTF-16 characters of an entry, up to the end of the name.
unfoldable pub lfn_copy_part : List ℕ → List ℕ
unfolding take_while
lfn_copy_part chars = take_while (λ ch. not (ch == 0 || ch == 0xFF)) (take 13 chars)

unfoldable pub strcasecmp_ascii : List ℕ → List ℕ → ℤ
unfolding ◌-ℤ◌
strcasecmp_ascii [] [] = char_diff 0 0
strcasecmp_ascii [] (d ∷ b) = char_diff 0 d
strcasecmp_ascii (c ∷ a) [] = char_diff c 0
strcasecmp_ascii (c ∷ a) (d ∷ b) =
    if toupper_ascii c == toupper_ascii d
    then strcasecmp_ascii a b
    else char_diff (toupper_ascii c) (toupper_ascii d)

-- The bits of `sum >> 1` and of `sum << 7` do not overlap.
unfoldable pub checksum_loop : List ℕ → ℕ → ℕ
checksum_loop [] sum = sum
checksum_loop (c ∷ name) sum = checksum_loop name (u8 (sum / 2 + sum * 2 ^ 7 + c))

unfoldable pub shortname_checksum : List ℕ → ℕ
unfolding checksum_loop
shortname_checksum name = checksum_loop (take 11 name) 0

abbrev pub no_space : ℕ → Bool
no_space c = not (c == b' ')

-- Whether one of the bytes is no space.
abbrev pub has_ext : List ℕ → Bool
has_ext [] = false
has_ext (c ∷ s) = no_space c || has_ext s

unfoldable pub shortname_to_string : List ℕ → List ℕ
unfolding take_while
shortname_to_string name =
    let ext = take 3 (drop 8 name) in
    take_while no_space (take 8 name)
    ++ (if has_ext ext then b'.' ∷ take_while no_space ext else [])

-- The static variables that a mount sets, with the size of a cluster from the boot sector.
pub record Volume : Type 0 where
  pub partition_lba : ℕ
  pub fat_start : ℕ
  pub cluster_begin_lba : ℕ
  pub sectors_per_cluster : ℕ

unfoldable pub fat32_cluster_to_lba : Volume → ℕ → ℕ
fat32_cluster_to_lba v cluster =
    u32 (v.partition_lba + v.cluster_begin_lba + u32 (cluster + 2 ^ 32 - 2) * v.sectors_per_cluster)

-- `cached_fat_sector` and `fat_cache`
pub record Cache : Type 0 where
  pub cached_fat_sector : ℕ
  pub fat_cache : List ℕ

abbrev pub fat_sector : Volume → ℕ → ℕ
fat_sector v cluster = u32 (v.partition_lba + v.fat_start + u32 (cluster * 4) / 512)

-- `*(uint32_t*)(&fat_cache[ent_offset]) & 0x0FFFFFFF`
abbrev pub fat_entry : List ℕ → ℕ → ℕ
fat_entry sector cluster =
    let at = u32 (cluster * 4) % 512 in
    (get_or sector at 0
      + get_or sector (at + 1) 0 * 2 ^ 8
      + get_or sector (at + 2) 0 * 2 ^ 16
      + get_or sector (at + 3) 0 * 2 ^ 24)
    % 2 ^ 28

module _ (read : ℕ → Option (List ℕ)) where
  unfoldable pub fat32_get_next_cluster : Volume → ℕ → Cache → ℕ × Cache
  fat32_get_next_cluster v cluster c =
      if fat_sector v cluster == c.cached_fat_sector
      then (fat_entry c.fat_cache cluster, c)
      else elim (read (fat_sector v cluster)) [
        | none ↦ (0x0FFFFFFF, c)
        | some sector ↦ (
          fat_entry sector cluster,
          record { cached_fat_sector = fat_sector v cluster; fat_cache = sector },
        )
      ]
