-- ===== src/Fat/Tests.antt =====
-- Names, and the walk along a table of one sector.
use hatcher.Base.{
  ℕ, ◌≡◌, refl, Option, none, some, List, [], ◌∷◌, ◌==◌, if◌then◌else◌, arith, replicate, All, ◌++◌,
}
use hatcher.Text.Compare.{IsChar}
use hatcher.Fat.{Volume, Cache, shortname_to_string, fat32_get_next_cluster, fat32_cluster_to_lba}

-- "Boot" and "BOOT"
abbrev mixed : List ℕ
mixed = b'B' ∷ b'o' ∷ b'o' ∷ b't' ∷ []

abbrev capitals : List ℕ
capitals = b'B' ∷ b'O' ∷ b'O' ∷ b'T' ∷ []

mixed-IsChar : All IsChar mixed
mixed-IsChar = omega arith

capitals-IsChar : All IsChar capitals
capitals-IsChar = omega arith

-- "KERNEL  BIN"
abbrev kernel : List ℕ
kernel = b'K' ∷ b'E' ∷ b'R' ∷ b'N' ∷ b'E' ∷ b'L' ∷ 32 ∷ 32 ∷ b'B' ∷ b'I' ∷ b'N' ∷ []

shortname_run :
    shortname_to_string kernel
    ≡ b'K' ∷ b'E' ∷ b'R' ∷ b'N' ∷ b'E' ∷ b'L' ∷ b'.' ∷ b'B' ∷ b'I' ∷ b'N' ∷ []
unfolding shortname_to_string
shortname_run = refl

-- A table at sector 32 in which cluster 2 is followed by cluster 7; no other sector can be read.
abbrev table : ℕ → Option (List ℕ)
table n = if n == 32 then some (replicate 8 0 ++ (7 ∷ replicate 503 0)) else none

abbrev volume : Volume
volume = record {
  partition_lba = 0;
  fat_start = 32;
  cluster_begin_lba = 2080;
  sectors_per_cluster = 8;
}

abbrev no_cache : Cache
no_cache = record { cached_fat_sector = 0xFFFFFFFF; fat_cache = [] }

get_next_cluster_run : (fat32_get_next_cluster table volume 2 no_cache).0 ≡ 7
unfolding fat32_get_next_cluster
get_next_cluster_run = refl

-- Cluster 3 is 8 sectors behind cluster 2.
cluster_to_lba_run : fat32_cluster_to_lba volume 3 ≡ 2088
unfolding fat32_cluster_to_lba
cluster_to_lba_run = refl
