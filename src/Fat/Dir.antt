-- ===== src/Fat/Dir.antt =====
-- drivers/fs/fat32.c and include/fat32.h: the entries of a directory, and `fat32_read_dir` and
-- `fat32_list_dir`. The two functions walk the directory in the same loops, which take what is done
-- with an entry as an argument.
pub mod Walk
pub mod Listed
pub mod Shown
pub mod Fields
use hatcher.Base.{
  ℕ, zero, suc, ◌+◌, ◌-◌, ◌*◌, ◌/◌, ◌%◌, ◌^◌, Bool, true, false, Option, none, some, List, [], ◌∷◌,
  ◌++◌, ◌==◌, ◌&&◌, ◌||◌, ltb, leb, if◌then◌else◌, u32, take, drop, get_or, set, length, replicate,
}
use hatcher.Base.Int.{ℤ, pos, negsuc, signed8}
use hatcher.Fat.{
  Volume, Cache, fat32_cluster_to_lba, fat32_get_next_cluster, lfn_copy_part, shortname_to_string,
}

abbrev pub le16 : List ℕ → ℕ → ℕ
le16 bytes at = get_or bytes at 0 + get_or bytes (at + 1) 0 * 2 ^ 8

abbrev pub le32 : List ℕ → ℕ → ℕ
le32 bytes at = le16 bytes at + le16 bytes (at + 2) * 2 ^ 16

-- The fields of the 32 bytes of a `fat32_dir_entry_t`.
abbrev pub entry_attr : List ℕ → ℕ
entry_attr ent = get_or ent 11 0

abbrev pub entry_cluster : List ℕ → ℕ
entry_cluster ent = le16 ent 20 * 2 ^ 16 + le16 ent 26

abbrev pub entry_size : List ℕ → ℕ
entry_size ent = le32 ent 28

-- `c == k` for a `char` and an `int` constant.
abbrev pub char_equals : ℕ → ℕ → Bool
char_equals c k = elim (signed8 c) [ pos n ↦ n == k | negsuc n ↦ false ]

-- `ent->name[0] == 0x00` and `ent->name[0] == 0xE5`
abbrev pub entry_ends : List ℕ → Bool
entry_ends ent = char_equals (get_or ent 0 0) 0x00

abbrev pub entry_deleted : List ℕ → Bool
entry_deleted ent = char_equals (get_or ent 0 0) 0xE5

-- The low bytes of the 13 characters of a `fat32_lfn_entry_t`.
abbrev pub lfn_chars : List ℕ → List ℕ
lfn_chars ent =
    get_or ent 1 0
    ∷ get_or ent 3 0
    ∷ get_or ent 5 0
    ∷ get_or ent 7 0
    ∷ get_or ent 9 0
    ∷ get_or ent 14 0
    ∷ get_or ent 16 0
    ∷ get_or ent 18 0
    ∷ get_or ent 20 0
    ∷ get_or ent 22 0
    ∷ get_or ent 24 0
    ∷ get_or ent 28 0
    ∷ get_or ent 30 0
    ∷ []

-- `fat32_entry_t`
pub record Entry : Type 0 where
  pub name : List ℕ
  pub attr : ℕ
  pub first_cluster : ℕ
  pub size : ℕ

abbrev pub fat32_max_name : ℕ
fat32_max_name = 255

-- The variables of `fat32_list_dir`, with the entries that it has put into `out`; an element of
-- `lfn_parts` is a C string.
pub record Listing : Type 0 where
  pub lfn_parts : List (List ℕ)
  pub lfn_present : ℕ
  pub out : List Entry

-- An entry that is part of a long name.
abbrev pub take_lfn : List ℕ → Listing → Listing
take_lfn ent st =
    let order = get_or ent 0 0 in
    let ord = order % 32 in
    let first = order / 64 % 2 == 1 in
    let parts = if first then replicate 20 [] else st.lfn_parts in
    if ltb 0 ord && leb ord 20
    then record {
      lfn_parts = set parts (ord - 1) (lfn_copy_part (lfn_chars ent));
      lfn_present = if first then ord else st.lfn_present;
      out = st.out;
    }
    else record { lfn_parts = parts; lfn_present = st.lfn_present; out = st.out }

-- The loop that joins the parts, from the last to the first.
unfoldable pub join_parts : ℕ → List (List ℕ) → List ℕ → List ℕ
join_parts zero parts name = name
join_parts (suc i) parts name =
    join_parts i parts (name ++ take (fat32_max_name - length name) (get_or parts i []))

unfoldable pub entry_name : List ℕ → Listing → List ℕ
unfolding join_parts shortname_to_string
entry_name ent st =
    if ltb 0 st.lfn_present
    then join_parts st.lfn_present st.lfn_parts []
    else shortname_to_string (take 11 ent)

abbrev pub no_lfn : Listing → Listing
no_lfn st = record { lfn_parts = st.lfn_parts; lfn_present = 0; out = st.out }

-- How the body of a loop ends: it goes on, the function returns its count, or it returns -2.
pub data Step (S : Type 0) : Type 0 where
  more : S → Step S
  done : S → Step S
  failed : S → Step S

abbrev pub next : {S : Type 0} → Step S → (S → Step S) → Step S
next (more st) go = go st
next (done st) go = done st
next (failed st) go = failed st

-- The loop body of `fat32_read_dir`.
unfoldable pub read_entry : ℕ → List ℕ → List (List ℕ) → Step (List (List ℕ))
read_entry max_entries ent entries =
    if entry_ends ent
    then done entries
    else if entry_attr ent == 0x0F || entry_deleted ent
    then more entries
    else if leb max_entries (length entries)
    then done entries
    else more (entries ++ (ent ∷ []))

-- The loop body of `fat32_list_dir`.
unfoldable pub list_entry : ℕ → List ℕ → Listing → Step Listing
unfolding entry_name
list_entry max_entries ent st =
    if entry_ends ent
    then done st
    else if entry_attr ent == 0x0F
    then more (take_lfn ent st)
    else if entry_deleted ent
    then more (no_lfn st)
    else if entry_attr ent / 8 % 2 == 1
    then more (no_lfn st)
    else if leb max_entries (length st.out)
    then done st
    else more (record {
      lfn_parts = st.lfn_parts;
      lfn_present = 0;
      out =
          st.out
          ++ (record {
            name = entry_name ent st;
            attr = entry_attr ent;
            first_cluster = entry_cluster ent;
            size = entry_size ent;
          }
              ∷ []);
    })

-- The loops over the entries of a sector and the sectors of a cluster, `n` of them left.
module _ {S : Type 0} (visit : List ℕ → S → Step S) where
  unfoldable pub visit_entries : ℕ → List ℕ → S → Step S
  visit_entries zero sector st = more st
  visit_entries (suc n) sector st =
      next (visit (take 32 sector) st) (visit_entries n (drop 32 sector))

  module _ (read : ℕ → Option (List ℕ)) (v : Volume) where
    unfoldable pub visit_sectors : ℕ → ℕ → ℕ → S → Step S
    unfolding visit_entries
    visit_sectors zero s cluster st = more st
    visit_sectors (suc n) s cluster st = elim (read (u32 (fat32_cluster_to_lba v cluster + s))) [
      | none ↦ failed st
      | some sector ↦ next (visit_entries 16 sector st) (visit_sectors n (s + 1) cluster)
    ]

    -- The loop over the clusters, on fuel.
    unfoldable pub visit_clusters : ℕ → ℕ → S → Cache → Option (Step S × Cache)
    unfolding visit_sectors fat32_get_next_cluster
    visit_clusters zero cluster st c = none
    visit_clusters (suc k) cluster st c =
        let rest : Option (Step S × Cache) =
          elim (visit_sectors v.sectors_per_cluster 0 cluster st) [
            | more st' ↦
                let succ = fat32_get_next_cluster read v cluster c in
                visit_clusters k succ.0 st' succ.1
            | done st' ↦ some (done st', c)
            | failed st' ↦ some (failed st', c)
          ] in
        if ltb cluster 0x0FFFFFF8 then rest else some (done st, c)

-- The value that is returned, and what has been stored.
abbrev pub returned : {S A : Type 0} → (S → List A) → Step S → ℤ × List A
returned stored (more st) = (pos (length (stored st)), stored st)
returned stored (done st) = (pos (length (stored st)), stored st)
returned stored (failed st) = (negsuc 1, stored st)

-- `block` says whether `kmalloc` returns a block, `k` is the fuel.
module _ (read : ℕ → Option (List ℕ)) (v : Volume) (k : ℕ) where
  unfoldable pub fat32_read_dir : Bool → ℕ → ℕ → Cache → Option ((ℤ × List (List ℕ)) × Cache)
  unfolding read_entry visit_clusters
  fat32_read_dir false cluster max_entries c = some ((negsuc 0, []), c)
  fat32_read_dir true cluster max_entries c =
      elim (visit_clusters (read_entry max_entries) read v k cluster [] c) [
        | none ↦ none
        | some r ↦ some (returned (λ entries. entries) r.0, r.1)
      ]

  -- `parts` is what the array `lfn_parts` holds at first.
  unfoldable pub fat32_list_dir :
      Bool → List (List ℕ) → ℕ → ℕ → Cache → Option ((ℤ × List Entry) × Cache)
  unfolding list_entry visit_clusters
  fat32_list_dir false parts cluster max_entries c = some ((negsuc 0, []), c)
  fat32_list_dir true parts cluster max_entries c =
      elim (visit_clusters (list_entry max_entries) read v k cluster
        (record { lfn_parts = parts; lfn_present = 0; out = [] }) c) [
          | none ↦ none
          | some r ↦ some (returned (λ st. st.out) r.0, r.1)
        ]
