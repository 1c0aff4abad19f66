-- ===== src/Fat/Create/Found.antt =====
-- A file that `fat32_create_file` has made is found by `fat32_list_dir`.
use hatcher.Base.{
  ℕ, zero, suc, ◌+◌, ◌-◌, ◌*◌, ◌/◌, ◌%◌, ◌^◌, ◌<◌, ◌≡◌, ◌≢◌, refl, sym, ap, ◌∙◌, Bool, true, false,
  Option, none, some, List, [], ◌∷◌, ◌++◌, arith, ◌==◌, ltb, u32, if◌then◌else◌, get_or, set, take,
  drop, length, length-append, length-take, if-true, update, ==_iff,
}
use hatcher.Base.Int.{pos, negsuc}
use hatcher.Fat.{Volume, Cache, fat32_cluster_to_lba, fat32_get_next_cluster}
use hatcher.Fat.Dir.{
  Listing, more, done, failed, next, list_entry, visit_clusters, visit_sectors, fat32_list_dir,
}
use hatcher.Fat.Dir.Walk.{
  entries, visit_list, visit_list-append, visit_entries-entries, visit_sectors-step,
}
use hatcher.Fat.Dir.Shown.{list_dir_end}
use hatcher.Fat.Alloc.{Disk, Fs, with_disk, ata_write_sector}
use hatcher.Fat.Create.{
  put_entries, name_entries, place_in, place_sectors, place_clusters, fat32_create_file, Placed,
  next_or_new, stored, io_error, no_room,
}
use hatcher.Fat.Create.NameEntries.{IsShortName, with_name, visit-name_entries, length-name_entries}
use hatcher.Fat.Create.Place.{
  take-drop, length-drop, set-append, entries_front, entries-append, Occupied, PutAt,
  place_in-PutAt,
}

-- A list that is not empty, with its first element overwritten.
overwritten : (xs : List ℕ) → 0 < length xs → (rest : List ℕ) × (set xs 0 0 ≡ 0 ∷ rest)
overwritten [] h = absurd (omega arith)
overwritten (x ∷ xs) h = (xs, refl)

stops :
    (max : ℕ) (rest : List ℕ) (n : ℕ) (st : Listing)
    → 0 < n
    → visit_list (list_entry max) (entries n (0 ∷ rest)) st ≡ done st
unfolding list_entry
stops max rest zero st h = absurd (omega arith)
stops max rest (suc n) st h = refl

module _ (max m : ℕ) (base sector buf : List ℕ) (same : take (32 * m) base ≡ take (32 * m) sector)
    (full : length base ≡ 512) (full' : length sector ≡ 512) (two : length buf ≡ 64)
    (room : m + 2 < 16) where
  abbrev front : List ℕ
  front = take (32 * m) base ++ buf

  -- The entries of the sector after the write.
  entries-put_entries :
      (rest : List ℕ) × (entries 16 (put_entries (32 * m) buf base)
        ≡ entries m sector ++ entries 2 buf ++ entries (14 - m) (0 ∷ rest))
  entries-put_entries =
      let o = 32 * m in
      let tail = drop (o + length buf) base in
      let cut : length (take o base) ≡ 32 * m = omega (arith, length-take o base) in
      let long : length front ≡ 32 * (m + 2) = omega (arith, length-append (take o base) buf) in
      let (rest, e) = overwritten tail (omega (arith, length-drop (o + length buf) base)) in
      let at : o + length buf ≡ length front + 0 = omega arith in
      (
        rest,
        ap (entries 16) (set-append front tail (o + length buf) 0 0 at ∙ ap (λ t. front ++ t) e)
            ∙ entries-append (m + 2) (14 - m) 16 front (0 ∷ rest) long (omega arith)
            ∙ ap (λ r. r ++ entries (14 - m) (0 ∷ rest))
                (entries-append m 2 (m + 2) (take o base) buf cut refl
                  ∙ ap (λ r. r ++ entries 2 buf)
                      (ap (entries m) same
                        ∙ sym (
                            entries_front m (take o sector) (drop o sector)
                              (omega (arith, length-take o sector)))
                        ∙ ap (entries m) (take-drop o sector))),
      )

-- The listing of the sector after the write: the entries of before, the new one, and the end.
visit-put_entries :
    (max m : ℕ) (base sector name : List ℕ) (attr cluster : ℕ) (st st1 : Listing)
    → take (32 * m) base ≡ take (32 * m) sector
    → length base ≡ 512
    → length sector ≡ 512
    → m + 2 < 16
    → IsShortName name
    → attr ≢ 0x0F
    → (attr / 8 % 2 == 1) ≡ false
    → cluster < 2 ^ 32
    → visit_list (list_entry max) (entries m sector) st ≡ more st1
    → length st1.out < max
    → visit_list
        (list_entry max)
        (entries 16 (put_entries (32 * m) (name_entries name attr cluster) base))
        st
      ≡ done (with_name name attr cluster st1)
visit-put_entries max m base sector name attr cluster st st1 same full full' room short plain file
      small before left =
    let visit = list_entry max in
    let buf = name_entries name attr cluster in
    let two = length-name_entries name attr cluster short in
    let (rest, e) = entries-put_entries max m base sector buf same full full' two room in
    let a = entries m sector in
    let b = entries 2 buf in
    let c = entries (14 - m) (0 ∷ rest) in
    let st2 = with_name name attr cluster st1 in
    ap (λ ents. visit_list visit ents st) e
    ∙ visit_list-append visit (a ++ b) c st
    ∙ ap (λ r. next r (visit_list visit c))
        (visit_list-append visit a b st
          ∙ ap (λ r. next r (visit_list visit b)) before
          ∙ visit-name_entries max name attr cluster st1 short plain file small left)
    ∙ stops max rest (14 - m) st2 (omega arith)

-- The tests of `place_sectors` and `place_clusters`, as functions of what is tested.
abbrev wrote : Option Disk → Placed
wrote none = io_error
wrote (some disk) = stored disk

abbrev chosen : ℕ → Placed → Disk → Option (List ℕ) → Placed
chosen x rest disk none = rest
chosen x rest disk (some sector) = wrote (ata_write_sector x sector disk)

abbrev ended : ℕ → ℕ → List ℕ → Fs → Placed → Option (Bool × Fs)
ended k cl buf fs (stored disk) = some (true, with_disk disk fs)
ended k cl buf fs io_error = some (false, fs)
ended k cl buf fs no_room = elim (next_or_new cl fs).0 [
  | none ↦ some (false, (next_or_new cl fs).1)
  | some cl' ↦ place_clusters k cl' buf (next_or_new cl fs).1
]

place_sectors-stored :
    (n s lba total : ℕ) (buf sector sector' : List ℕ) (disk : Disk)
    → disk (u32 (lba + s)) ≡ some sector
    → place_in (17 - total) 0 total buf sector ≡ some sector'
    → place_sectors (suc n) s lba total buf disk
      ≡ stored (update disk (u32 (lba + s)) (some sector'))
unfolding place_sectors
place_sectors-stored n s lba total buf sector sector' disk there room =
    let x = u32 (lba + s) in
    let rest = place_sectors n (s + 1) lba total buf disk in
    ap
      (λ o. elim o [
        | none ↦ io_error
        | some b ↦ chosen x rest disk (place_in (17 - total) 0 total buf b)
      ])
      there
    ∙ ap (chosen x rest disk) room
    ∙ ap (λ o. wrote (elim o [ none ↦ none | some old ↦ some (update disk x (some sector')) ]))
        there

place_clusters-stored :
    (k cl : ℕ) (buf : List ℕ) (fs : Fs) (disk : Disk)
    → place_sectors fs.volume.sectors_per_cluster 0
        (fat32_cluster_to_lba fs.volume cl)
        (length buf / 32)
        buf
        fs.disk
      ≡ stored disk
    → place_clusters (suc k) cl buf fs ≡ some (true, with_disk disk fs)
unfolding place_clusters
place_clusters-stored k cl buf fs disk e = ap (ended k cl buf fs) e

-- A listing that comes to the end mark in the first sector.
module _ (read : ℕ → Option (List ℕ)) (v : Volume) (max : ℕ) where
  sectors_ended :
      (count n cl : ℕ) (sector : List ℕ) (st st2 : Listing)
      → count ≡ suc n
      → read (u32 (fat32_cluster_to_lba v cl + 0)) ≡ some sector
      → visit_list (list_entry max) (entries 16 sector) st ≡ done st2
      → visit_sectors (list_entry max) read v count 0 cl st ≡ done st2
  sectors_ended count n cl sector st st2 some_sector there ends =
      ap (λ j. visit_sectors (list_entry max) read v j 0 cl st) some_sector
      ∙ visit_sectors-step (list_entry max) read v n 0 cl st (some sector) there
      ∙ ap (λ r. next r (visit_sectors (list_entry max) read v n 1 cl))
          (visit_entries-entries (list_entry max) 16 sector st ∙ ends)

  clusters_ended :
      (k cl : ℕ) (st st2 : Listing) (c : Cache)
      → cl < 0x0FFFFFF8
      → visit_sectors (list_entry max) read v v.sectors_per_cluster 0 cl st ≡ done st2
      → visit_clusters (list_entry max) read v (suc k) cl st c ≡ some (done st2, c)
  unfolding visit_clusters
  clusters_ended k cl st st2 c low e =
      let inside : ltb cl 0x0FFFFFF8 ≡ true = ground arith in
      if-true _ _ inside
      ∙ ap
          (λ r. elim r [
            | more st' ↦
                visit_clusters (list_entry max) read v k (fat32_get_next_cluster read v cl c).0 st'
                  (fat32_get_next_cluster read v cl c).1
            | done st' ↦ some (done st', c)
            | failed st' ↦ some (failed st', c)
          ])
          e

at_the_mark :
    (m : ℕ) (buf sector : List ℕ)
    → Occupied m 0 sector
    → get_or sector (32 * m) 0 ≡ 0x00
    → length sector ≡ 512
    → m + 2 < 16
    → PutAt (32 * m) buf sector (place_in 15 0 2 buf sector)
at_the_mark m buf sector used mark full room =
    let plain : 0 + 32 * m ≡ 32 * m = omega arith in
    rw (sym plain) (
      place_in-PutAt m 15 0 2 buf sector used (ap (λ i. get_or sector i 0) plain ∙ mark)
        (omega arith) (omega arith) full (omega arith))

-- The first sector of the current directory holds `m` entries in use and then the end mark, with room
-- behind it for three more entries, and a listing has passed the `m` entries in the state `st1`.
-- Then `fat32_create_file` with a name of at most 13 characters returns 0, and after it `fat32_list_dir`
-- returns what those entries give and, behind that, an empty file of this name with no cluster.
pub fat32_create_file-fat32_list_dir :
    (k k' max m n : ℕ) (name : List ℕ) (parts : List (List ℕ)) (fs : Fs) (sector : List ℕ)
    (st1 : Listing) (c : Cache)
    → IsShortName name
    → fs.volume.sectors_per_cluster ≡ suc n
    → fs.current_dir_cluster < 0x0FFFFFF8
    → fs.disk (u32 (fat32_cluster_to_lba fs.volume fs.current_dir_cluster + 0)) ≡ some sector
    → length sector ≡ 512
    → Occupied m 0 sector
    → get_or sector (32 * m) 0 ≡ 0x00
    → m + 2 < 16
    → visit_list
        (list_entry max)
        (entries m sector)
        (record { lfn_parts = parts; lfn_present = 0; out = [] })
      ≡ more st1
    → length st1.out < max
    → let found = (with_name name 0x20 0 st1).out in
      (fs' : Fs) × (fat32_create_file (suc k) true name fs ≡ some (pos 0, fs'))
      × (fat32_list_dir fs'.disk fs'.volume (suc k') true parts fs'.current_dir_cluster max c
          ≡ some ((pos (length found), found), c))
unfolding fat32_create_file
fat32_create_file-fat32_list_dir k k' max m n name parts fs sector st1 c short some_sector low there
      full used mark room before left =
    let buf = name_entries name 0x20 0 in
    let two = length-name_entries name 0x20 0 short in
    let count : length buf / 32 ≡ 2 = omega arith in
    let cl = fs.current_dir_cluster in
    let x = u32 (fat32_cluster_to_lba fs.volume cl + 0) in
    let (base, put, same, full') = at_the_mark m buf sector used mark full room in
    let sector' = put_entries (32 * m) buf base in
    let disk' = update fs.disk x (some sector') in
    let there' : disk' x ≡ some sector' = if-true _ _ ((==_iff x x).1 refl) in
    let stored' =
      ap (λ j. place_sectors j 0 (fat32_cluster_to_lba fs.volume cl) (length buf / 32) buf fs.disk)
        some_sector
      ∙ ap (λ j. place_sectors (suc n) 0 (fat32_cluster_to_lba fs.volume cl) j buf fs.disk) count
      ∙ place_sectors-stored n 0 (fat32_cluster_to_lba fs.volume cl) 2 buf sector sector' fs.disk
          there put in
    let st : Listing = record { lfn_parts = parts; lfn_present = 0; out = [] } in
    let st2 = with_name name 0x20 0 st1 in
    let seen =
      visit-put_entries max m base sector name 0x20 0 st st1 same full' full room short
        (λ e. omega arith) refl (omega arith) before left in
    let visited =
      sectors_ended disk' fs.volume max fs.volume.sectors_per_cluster n cl sector' st st2
        some_sector there' seen in
    (
      with_disk disk' fs,
      ap (λ o. elim o [ none ↦ none | some (ok, fs') ↦ some (if ok then pos 0 else negsuc 0, fs') ])
          (place_clusters-stored k cl buf fs disk' stored'),
      list_dir_end disk' fs.volume (suc k') cl max parts c (done st2) c
          (clusters_ended disk' fs.volume max k' cl st st2 c low visited),
    )
