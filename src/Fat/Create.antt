-- ===== src/Fat/Create.antt =====
-- drivers/fs/fat32.c: `make_sfn`, `dir_write_entries`, `fat32_create_file` and `fat32_create_dir`. The
-- two last ones look for room in the same loops.
pub mod NameEntries
pub mod NameChars
pub mod Place
pub mod Found
use hatcher.Base.{
  ℕ, zero, suc, ◌+◌, ◌-◌, ◌*◌, ◌/◌, ◌%◌, ◌^◌, Bool, true, false, not, Option, none, some, List, [],
  ◌∷◌, ◌++◌, map, ◌==◌, ◌&&◌, ◌||◌, leb, if◌then◌else◌, u8, u32, take, drop, get_or, get_elem?, set,
  length, replicate,
}
use hatcher.Base.Int.{ℤ, pos, negsuc}
use hatcher.Text.{take_while, skip_while}
use hatcher.Fat.{toupper_ascii, shortname_checksum, fat32_cluster_to_lba}
use hatcher.Fat.Alloc.{
  Disk, Fs, ata_write_sector, with_disk, get_next_cluster, fat_write_fat_entry, find_free_cluster,
}

-- `n` bytes, with blanks behind the text.
abbrev pub pad : ℕ → List ℕ → List ℕ
pad n s = take n (s ++ replicate n b' ')

abbrev pub no_dot : ℕ → Bool
no_dot c = not (c == b'.')

unfoldable pub make_sfn : List ℕ → List ℕ
unfolding take_while skip_while
make_sfn longname =
    pad 8 (map toupper_ascii (take_while no_dot longname))
    ++ pad 3 (map toupper_ascii (drop 1 (skip_while no_dot longname)))

-- `ch`, one character of the name, and the bytes of `n` of them from `i` on.
abbrev pub name_char : List ℕ → ℕ → ℕ
name_char name i = elim (get_elem? name i) [ none ↦ 0xFFFF | some c ↦ c ]

abbrev pub name_chars : ℕ → ℕ → List ℕ → List ℕ
name_chars zero i name = []
name_chars (suc n) i name =
    name_char name i % 2 ^ 8 ∷ name_char name i / 2 ^ 8 % 2 ^ 8 ∷ name_chars n (i + 1) name

-- `lfn->order`, with the bit 0x40 in the last part.
abbrev pub lfn_order : ℕ → ℕ → ℕ
lfn_order lfn_entries seq =
    if seq == lfn_entries && u8 seq / 64 % 2 == 0 then u8 seq + 64 else u8 seq

abbrev pub lfn_entry : ℕ → ℕ → List ℕ → ℕ → List ℕ
lfn_entry lfn_entries checksum name seq =
    let start = (seq - 1) * 13 in
    (lfn_order lfn_entries seq ∷ name_chars 5 start name)
    ++ (0x0F ∷ 0 ∷ checksum ∷ name_chars 6 (start + 5) name)
    ++ (0 ∷ 0 ∷ name_chars 2 (start + 11) name)

-- The entries of the long name, from number `seq` down to 1.
unfoldable pub lfn_list : ℕ → ℕ → List ℕ → ℕ → List ℕ
lfn_list lfn_entries checksum name zero = []
lfn_list lfn_entries checksum name (suc seq) =
    lfn_entry lfn_entries checksum name (suc seq) ++ lfn_list lfn_entries checksum name seq

-- An entry of no bytes in a file or directory, the rest of its fields 0.
abbrev pub dir_entry : List ℕ → ℕ → ℕ → List ℕ
dir_entry sfn attr cluster =
    sfn
    ++ (attr
        ∷ 0
        ∷ 0
        ∷ 0
        ∷ 0
        ∷ 0
        ∷ 0
        ∷ 0
        ∷ 0
        ∷ cluster / 2 ^ 16 % 2 ^ 8
        ∷ cluster / 2 ^ 24 % 2 ^ 8
        ∷ 0
        ∷ 0
        ∷ 0
        ∷ 0
        ∷ cluster % 2 ^ 8
        ∷ cluster / 2 ^ 8 % 2 ^ 8
        ∷ 0
        ∷ 0
        ∷ 0
        ∷ 0
        ∷ [])

abbrev pub lfn_count : List ℕ → ℕ
lfn_count name = (length name + 12) / 13

-- `buf`
unfoldable pub name_entries : List ℕ → ℕ → ℕ → List ℕ
unfolding make_sfn shortname_checksum lfn_list
name_entries name attr cluster =
    lfn_list (lfn_count name) (shortname_checksum (make_sfn name)) name (lfn_count name)
    ++ dir_entry (make_sfn name) attr cluster

-- The copy of `bytes` to `sector + off`, where they fit.
abbrev pub splice : ℕ → List ℕ → List ℕ → List ℕ
splice off bytes sector = take off sector ++ bytes ++ drop (off + length bytes) sector

unfoldable pub dir_write_entries : ℕ → ℕ → List ℕ → Disk → ℤ × Disk
dir_write_entries lba offset entries disk = elim (disk lba) [
  | none ↦ (negsuc 0, disk)
  | some sector ↦ elim (ata_write_sector lba (splice offset entries sector) disk) [
    | none ↦ (negsuc 0, disk)
    | some disk' ↦ (pos 0, disk')
  ]
]

-- Whether the `n` entries from `off` on are all free.
unfoldable pub free_entries : ℕ → ℕ → List ℕ → Bool
free_entries zero off sector = true
free_entries (suc n) off sector =
    (get_or sector off 0 == 0x00 || get_or sector off 0 == 0xE5) && free_entries n (off + 32) sector

-- The entries and, if there is room, an end mark.
abbrev pub put_entries : ℕ → List ℕ → List ℕ → List ℕ
put_entries off buf sector = set (splice off buf sector) (off + length buf) 0x00

-- The loop over the offsets, `n` of them from `off` on; what is written to the sector.
unfoldable pub place_in : ℕ → ℕ → ℕ → List ℕ → List ℕ → Option (List ℕ)
unfolding free_entries
place_in zero off total buf sector = none
place_in (suc n) off total buf sector =
    let rest = place_in n (off + 32) total buf sector in
    if free_entries total off sector
    then some (put_entries off buf sector)
    else if get_or sector off 0 == 0x00
    then some (put_entries off buf (take off sector ++ replicate (512 - off) 0))
    else rest

pub data Placed : Type 0 where
  stored : Disk → Placed
  io_error : Placed
  no_room : Placed

-- The loop over the sectors of a cluster, `n` of them from `s` on; `17 - total` is the number of offsets
-- up to `512 - 32 * total`.
unfoldable pub place_sectors : ℕ → ℕ → ℕ → ℕ → List ℕ → Disk → Placed
unfolding place_in
place_sectors zero s lba total buf disk = no_room
place_sectors (suc n) s lba total buf disk =
    let rest = place_sectors n (s + 1) lba total buf disk in
    elim (disk (u32 (lba + s))) [
      | none ↦ io_error
      | some sector ↦ elim (place_in (17 - total) 0 total buf sector) [
        | none ↦ rest
        | some sector' ↦ elim (ata_write_sector (u32 (lba + s)) sector' disk) [
          | none ↦ io_error
          | some disk' ↦ stored disk'
        ]
      ]
    ]

-- The loop that writes the same bytes to every sector of a cluster and does not test the results.
unfoldable pub write_each : ℕ → ℕ → ℕ → List ℕ → Disk → Disk
write_each zero s lba bytes disk = disk
write_each (suc n) s lba bytes disk =
    write_each n (s + 1) lba bytes
      (elim (ata_write_sector (u32 (lba + s)) bytes disk) [ none ↦ disk | some disk' ↦ disk' ])

abbrev pub write_cluster : ℕ → List ℕ → Fs → Fs
write_cluster cluster bytes fs =
    with_disk
      (write_each fs.volume.sectors_per_cluster 0 (fat32_cluster_to_lba fs.volume cluster) bytes
        fs.disk)
      fs

-- One more cluster for the directory, behind `cl`; none where there is no free one.
unfoldable pub extend_dir : ℕ → Fs → Option ℕ × Fs
unfolding find_free_cluster fat_write_fat_entry write_each
extend_dir cl fs =
    let found = find_free_cluster fs in
    if found.0 == 0 then (none, found.1) else (
      some found.0,
      write_cluster found.0 (replicate 512 0)
          (fat_write_fat_entry found.0 0x0FFFFFFF (fat_write_fat_entry cl found.0 found.1).1).1,
    )

-- The cluster behind `cl`.
unfoldable pub next_or_new : ℕ → Fs → Option ℕ × Fs
unfolding get_next_cluster extend_dir
next_or_new cl fs =
    let succ = get_next_cluster cl fs in
    if leb 0x0FFFFFF8 succ.0 then extend_dir cl succ.1 else (some succ.0, succ.1)

-- The loop over the clusters, on fuel: whether the entries are stored.
unfoldable pub place_clusters : ℕ → ℕ → List ℕ → Fs → Option (Bool × Fs)
unfolding place_sectors next_or_new
place_clusters zero cl buf fs = none
place_clusters (suc k) cl buf fs =
    elim (place_sectors fs.volume.sectors_per_cluster 0 (fat32_cluster_to_lba fs.volume cl)
      (length buf / 32) buf fs.disk) [
        | stored disk ↦ some (true, with_disk disk fs)
        | io_error ↦ some (false, fs)
        | no_room ↦
            let r = next_or_new cl fs in
            elim r.0 [ none ↦ some (false, r.1) | some cl' ↦ place_clusters k cl' buf r.1 ]
      ]

-- `block` says whether `kmalloc` returns a block, `k` is the fuel.
unfoldable pub fat32_create_file : ℕ → Bool → List ℕ → Fs → Option (ℤ × Fs)
unfolding name_entries place_clusters
fat32_create_file k false name fs = some (negsuc 0, fs)
fat32_create_file k true name fs =
    elim (place_clusters k fs.current_dir_cluster (name_entries name 0x20 0) fs) [
      | none ↦ none
      | some (done, fs') ↦ some (if done then pos 0 else negsuc 0, fs')
    ]

-- The first bytes of a new directory, its entries "." and "..".
abbrev pub dirsec : ℕ → ℕ → List ℕ
dirsec newcl parent =
    dir_entry (pad 11 (b'.' ∷ [])) 0x10 newcl
    ++ dir_entry (pad 11 (b'.' ∷ b'.' ∷ [])) 0x10 parent
    ++ replicate 448 0

-- From the free cluster on.
abbrev pub create_dir_at : ℕ → List ℕ → ℕ → Fs → Option (ℤ × Fs)
create_dir_at k name newcl fs =
    elim (place_clusters k fs.current_dir_cluster (name_entries name 0x10 newcl)
      (fat_write_fat_entry newcl 0x0FFFFFFF fs).1) [
        | none ↦ none
        | some (done, fs') ↦ some (
            if done
            then (pos 0, write_cluster newcl (dirsec newcl fs'.current_dir_cluster) fs')
            else (negsuc 0, fs'))
      ]

unfoldable pub fat32_create_dir : ℕ → Bool → List ℕ → Fs → Option (ℤ × Fs)
unfolding name_entries place_clusters find_free_cluster fat_write_fat_entry write_each
fat32_create_dir k false name fs = some (negsuc 0, fs)
fat32_create_dir k true name fs =
    let found = find_free_cluster fs in
    if found.0 == 0 then some (negsuc 0, found.1) else create_dir_at k name found.0 found.1
