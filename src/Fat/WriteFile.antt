-- ===== src/Fat/WriteFile.antt =====
-- drivers/fs/fat32.c: `fat32_write_file_data`, and `fat32_write_file`, which always fails.
pub mod Grows
use hatcher.Base.{
  ℕ, zero, suc, ◌+◌, ◌-◌, ◌*◌, ◌/◌, ◌%◌, ◌^◌, Bool, true, false, Option, none, some, List, [], ◌∷◌,
  ◌++◌, ◌==◌, ◌&&◌, ltb, leb, if◌then◌else◌, u8, u32, take, drop, set, get_or,
}
use hatcher.Base.Int.{ℤ, pos, negsuc, is_zero}
use hatcher.Fat.{strcasecmp_ascii, shortname_to_string, fat32_cluster_to_lba}
use hatcher.Fat.Dir.{Entry, entry_attr}
use hatcher.Fat.Alloc.{
  Disk, Fs, ata_write_sector, with_disk, with_hint, drop_cache, put_le32, get_next_cluster,
  fat_write_fat_entry, find_free_cluster,
}
use hatcher.Fat.Path.{list_here}
use hatcher.Fat.Create.{splice, fat32_create_file}

abbrev pub fat32_write_file : List ℕ → List ℕ → ℕ → Fs → ℤ × Fs
fat32_write_file path buf size fs = (negsuc 0, fs)

-- The first file that is listed under a name.
unfoldable pub find_file : List Entry → List ℕ → Option Entry
unfolding strcasecmp_ascii
find_file [] name = none
find_file (e ∷ es) name =
    let rest = find_file es name in
    if e.attr / 16 % 2 == 0 && is_zero (strcasecmp_ascii e.name name) then some e else rest

-- A negative count has no entries.
abbrev pub listed_file : List ℕ → ℤ × List Entry → Option Entry
listed_file name (negsuc e, out) = none
listed_file name (pos n, out) = find_file out name

-- The cluster that the file starts with, a new one where it has none.
unfoldable pub file_start : ℕ → Fs → Option ℕ × Fs
unfolding find_free_cluster fat_write_fat_entry
file_start first_cluster fs =
    if first_cluster == 0
    then (let found = find_free_cluster fs in
        if found.0 == 0
        then (none, found.1)
        else (some found.0, (fat_write_fat_entry found.0 0x0FFFFFFF found.1).1))
    else (some first_cluster, fs)

-- The walk to the last cluster, on fuel: that cluster and the length of the chain.
unfoldable pub chain_end : ℕ → ℕ → ℕ → Fs → Option ((ℕ × ℕ) × Fs)
unfolding get_next_cluster
chain_end zero cl chain_len fs = none
chain_end (suc k) cl chain_len fs =
    let succ = get_next_cluster cl fs in
    let rest = chain_end k succ.0 (u32 (chain_len + 1)) succ.1 in
    if leb 0x0FFFFFF8 succ.0 then some ((cl, chain_len), succ.1) else rest

-- `n` more clusters behind `cl`: whether there are as many.
unfoldable pub grow : ℕ → ℕ → Fs → Bool × Fs
unfolding find_free_cluster fat_write_fat_entry
grow zero cl fs = (true, fs)
grow (suc n) cl fs =
    let found = find_free_cluster fs in
    let linked = (fat_write_fat_entry cl found.0 found.1).1 in
    let rest = grow n found.0 (fat_write_fat_entry found.0 0x0FFFFFFF linked).1 in
    if found.0 == 0 then (false, found.1) else rest

-- The cluster that is `n` places behind `cl`.
unfoldable pub skip_clusters : ℕ → ℕ → Fs → ℕ × Fs
unfolding get_next_cluster
skip_clusters zero cl fs = (cl, fs)
skip_clusters (suc n) cl fs = let succ = get_next_cluster cl fs in skip_clusters n succ.0 succ.1

-- A write of the drive in the state.
abbrev pub write_fs : ℕ → List ℕ → Fs → Option Fs
write_fs lba bytes fs = elim (ata_write_sector lba bytes fs.disk) [
  | none ↦ none
  | some disk ↦ some (with_disk disk fs)
]

-- One round of the loop that writes the data: the bytes written, none for an error.
abbrev pub write_round : ℕ → List ℕ → ℕ → ℕ → ℕ → ℕ → Fs → Option (ℕ × Fs)
write_round cluster_size buf size done_ cur_off cl fs =
    let within = cur_off % cluster_size in
    let sec_off = within % 512 in
    let lba = u32 (fat32_cluster_to_lba fs.volume cl + within / 512) in
    let room = 512 - sec_off in
    let chunk = if ltb (size - done_) room then size - done_ else room in
    if sec_off == 0 && leb 512 (size - done_)
    then elim (write_fs lba (take 512 (drop done_ buf)) fs) [
      | none ↦ none
      | some fs' ↦ some (512, fs')
    ]
    else elim (fs.disk lba) [
      | none ↦ none
      | some sector ↦ elim (write_fs lba (splice sec_off (take chunk (drop done_ buf)) sector) fs) [
        | none ↦ none
        | some fs' ↦ some (chunk, fs')
      ]
    ]

-- The loop, on fuel: whether all is written.
unfoldable pub write_data : ℕ → ℕ → List ℕ → ℕ → ℕ → ℕ → ℕ → Fs → Option (Bool × Fs)
unfolding get_next_cluster
write_data zero cluster_size buf size done_ cur_off cl fs = none
write_data (suc k) cluster_size buf size done_ cur_off cl fs =
    let rest : Option (Bool × Fs) = elim (write_round cluster_size buf size done_ cur_off cl fs) [
      | none ↦ some (false, fs)
      | some (chunk, fs') ↦
          let done' = done_ + chunk in
          let cur_off' = u32 (cur_off + chunk) in
          let succ =
            if cur_off' % cluster_size == 0 && ltb done' size
            then get_next_cluster cl fs'
            else (cl, fs') in
          write_data k cluster_size buf size done' cur_off' succ.0 succ.1
    ] in
    if ltb done_ size then rest else some (true, fs)

-- The entry of a sector, behind `off`, that the search for the file's entry stops at.
abbrev pub is_entry_of : List ℕ → List ℕ → Bool
is_entry_of name ent =
    if entry_attr ent % 16 == 0x0F
    then false
    else is_zero (strcasecmp_ascii (shortname_to_string (take 11 ent)) name)

unfoldable pub find_entry : ℕ → ℕ → List ℕ → List ℕ → Option ℕ
unfolding strcasecmp_ascii shortname_to_string
find_entry zero off name sector = none
find_entry (suc n) off name sector =
    let rest = find_entry n (off + 32) name sector in
    if is_entry_of name (take 32 (drop off sector)) then some off else rest

-- `*(uint16_t*)&bytes[at] = value`
abbrev pub put_le16 : ℕ → ℕ → List ℕ → List ℕ
put_le16 at value bytes = set (set bytes at (value % 2 ^ 8)) (at + 1) (value / 2 ^ 8 % 2 ^ 8)

-- The new size and first cluster in the entry at `off`.
abbrev pub set_size : ℕ → ℕ → ℕ → List ℕ → List ℕ
set_size off size cluster sector =
    put_le16 (off + 26) (cluster % 2 ^ 16)
      (put_le16 (off + 20) (cluster / 2 ^ 16 % 2 ^ 16) (put_le32 (off + 28) size sector))

-- The loop over the sectors of the directory, on fuel; `sc` is a `uint8_t`. Where the entry is found it
-- is set to 0xFF, and the increment of the loop follows.
unfoldable pub update_entry : ℕ → ℕ → List ℕ → ℕ → ℕ → Fs → Option (Bool × Fs)
unfolding find_entry
update_entry zero sc name size cluster fs = none
update_entry (suc k) sc name size cluster fs =
    let lba = u32 (fat32_cluster_to_lba fs.volume fs.current_dir_cluster + sc) in
    let rest : Option (Bool × Fs) = elim (fs.disk lba) [
      | none ↦ some (false, fs)
      | some sector ↦ elim (find_entry 16 0 name sector) [
        | none ↦ update_entry k (u8 (sc + 1)) name size cluster fs
        | some off ↦ elim (write_fs lba (set_size off size cluster sector) fs) [
          | none ↦ some (false, fs)
          | some fs' ↦ update_entry k (u8 (0xFF + 1)) name size cluster fs'
        ]
      ]
    ] in
    if ltb sc fs.volume.sectors_per_cluster then rest else some (true, fs)

-- `k` is the fuel of each loop, `block i` what the `i`-th call of `kmalloc` gives, in the order of the
-- text, and `parts` what the array of the listings holds at first.
module _ (k : ℕ) (block : ℕ → Bool) (parts : List (List ℕ)) where
  -- From the comparison of the sizes on.
  unfoldable pub finish_write : Entry → ℕ → ℕ → ℕ → Fs → Option (ℤ × Fs)
  unfolding update_entry
  finish_write e first_cluster need_size size fs =
      let over = λ (s : Fs). with_hint 2 (drop_cache s) in
      if ltb e.size need_size
      then if block 5
        then elim (update_entry k 0 e.name need_size first_cluster fs) [
          | none ↦ none
          | some (ok, fs') ↦ some (if ok then (pos size, over fs') else (negsuc 0, fs'))
        ]
        else some (negsuc 0, fs)
      else some (pos size, over fs)

  -- From the first cluster on.
  unfoldable pub write_from : Entry → ℕ → List ℕ → ℕ → ℕ → Fs → Option (ℤ × Fs)
  unfolding chain_end grow skip_clusters write_data finish_write
  write_from e first_cluster buf size offset fs =
      let bytes = fs.volume.sectors_per_cluster * 512 in
      let cluster_size = if bytes == 0 then 512 else bytes in
      let need_size = u32 (offset + size) in
      let need_clusters = u32 (need_size + cluster_size + 2 ^ 32 - 1) / cluster_size in
      elim (chain_end k first_cluster 1 fs) [
        | none ↦ none
        | some ((last, chain_len), fs1) ↦
            let grown = grow (need_clusters - chain_len) last fs1 in
            let at = skip_clusters (offset / cluster_size) first_cluster grown.1 in
            let written =
              if block 4
              then write_data (suc size) cluster_size buf size 0 offset at.0 at.1
              else some (false, at.1) in
            if grown.0
            then elim written [
              | none ↦ none
              | some (ok, fs2) ↦
                  if ok
                  then finish_write e first_cluster need_size size fs2
                  else some (negsuc 0, fs2)
            ]
            else some (negsuc 0, grown.1)
      ]

  abbrev pub write_entry : Entry → List ℕ → ℕ → ℕ → Fs → Option (ℤ × Fs)
  write_entry e buf size offset fs =
      let start = file_start e.first_cluster fs in
      elim start.0 [
        | none ↦ some (negsuc 0, start.1)
        | some first_cluster ↦ write_from e first_cluster buf size offset start.1
      ]

  -- The file is created and listed again.
  abbrev pub write_new : List ℕ → List ℕ → ℕ → Fs → Option (ℤ × Fs)
  write_new name buf size fs = elim (fat32_create_file k (block 2) name fs) [
    | none ↦ none
    | some (pos zero, fs1) ↦ elim (list_here k (block 3) parts 64 fs1) [
      | none ↦ none
      | some (r, fs2) ↦ elim (listed_file name r) [
        | none ↦ some (negsuc 0, fs2)
        | some e ↦ write_entry e buf size 0 fs2
      ]
    ]
    | some (_, fs1) ↦ some (negsuc 0, fs1)
  ]

  -- `name` and `buf` are no NULL pointers.
  unfoldable pub fat32_write_file_data : List ℕ → List ℕ → ℕ → ℕ → Fs → Option (ℤ × Fs)
  unfolding find_file file_start write_from
  fat32_write_file_data name buf size offset fs =
      if size == 0
      then some (negsuc 0, fs)
      else if block 0
      then elim (list_here k (block 1) parts 64 fs) [
        | none ↦ none
        | some (r, fs1) ↦ elim (listed_file name r) [
          | none ↦ if offset == 0 then write_new name buf size fs1 else some (negsuc 0, fs1)
          | some e ↦ write_entry e buf size offset fs1
        ]
      ]
      else some (negsuc 0, fs)
