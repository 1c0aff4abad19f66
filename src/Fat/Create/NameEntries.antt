-- ===== src/Fat/Create/NameEntries.antt =====
-- The entries that `fat32_create_file` and `fat32_create_dir` make for a name, read by `fat32_list_dir`.
use hatcher.Base.{
  take_all, ℕ, ◌/◌, ◌%◌, ◌^◌, ◌≤◌, ◌<◌, ◌≡◌, ◌≢◌, refl, sym, ap, ◌∙◌, false, List, [], ◌∷◌, ◌++◌,
  arith, inl, inr, ◌==◌, leb, All, Bool-cases, get_or, set, take, length, replicate, length-append,
  if-false,
}
use hatcher.Text.{take_while}
use hatcher.Fat.{shortname_checksum}
use hatcher.Fat.Dir.{
  Entry, Listing, more, next, entry_ends, entry_attr, entry_deleted, entry_cluster, entry_size,
  entry_name, list_entry, join_parts,
}
use hatcher.Fat.Dir.Walk.{entries, visit_list}
use hatcher.Fat.Create.{no_dot, make_sfn, lfn_entry, lfn_list, lfn_count, dir_entry, name_entries}
use hatcher.Fat.Create.NameChars.{bytes_lem, length-make_sfn, IsNameChar, lfn_copy_part-lfn_entry}

-- The entry of the long name, of at most 13 characters.
module _ (checksum : ℕ) (name : List ℕ) (st : Listing) (max : ℕ) where
  abbrev with_lfn : Listing
  with_lfn = record { lfn_parts = set (replicate 20 []) 0 name; lfn_present = 1; out = st.out }

  visit_lfn :
      All IsNameChar name
      → length name ≤ 13
      → list_entry max (lfn_entry 1 checksum name 1) st ≡ more with_lfn
  unfolding list_entry
  visit_lfn chars short =
      ap
        (λ part.
          more (record { lfn_parts = set (replicate 20 []) 0 part; lfn_present = 1; out = st.out }))
        (lfn_copy_part-lfn_entry checksum name chars short)

-- The fields of an entry with a short name of 11 bytes.
module _ (sfn : List ℕ) (attr cluster : ℕ) (eleven : length sfn ≡ 11) where
  attr-dir_entry : entry_attr (dir_entry sfn attr cluster) ≡ attr
  attr-dir_entry = rw (bytes_lem 11 sfn eleven) refl

  size-dir_entry : entry_size (dir_entry sfn attr cluster) ≡ 0
  size-dir_entry = rw (bytes_lem 11 sfn eleven) refl

  cluster-dir_entry : cluster < 2 ^ 32 → entry_cluster (dir_entry sfn attr cluster) ≡ cluster
  cluster-dir_entry small = rw (bytes_lem 11 sfn eleven) (omega arith)

  first-dir_entry : get_or (dir_entry sfn attr cluster) 0 0 ≡ get_or sfn 0 0
  first-dir_entry = rw (bytes_lem 11 sfn eleven) refl

-- The last case of the loop body of `fat32_list_dir`.
list_entry_last :
    (max : ℕ) (ent : List ℕ) (st : Listing)
    → get_or ent 0 0 ≢ 0
    → entry_attr ent ≢ 0x0F
    → (entry_attr ent / 8 % 2 == 1) ≡ false
    → length st.out < max
    → list_entry max ent st
      ≡ more (record {
        lfn_parts = st.lfn_parts;
        lfn_present = 0;
        out =
            st.out
            ++ (record {
              name = entry_name ent st;
              attr = entry_attr ent;
              first_cluster = entry_cluster ent;
              size = entry_size ent;
            }
                ∷ []);
      })
unfolding list_entry
list_entry_last max ent st first plain file room =
    let goes : entry_ends ent ≡ false = ground arith in
    let plain' : (entry_attr ent == 0x0F) ≡ false = ground arith in
    let kept : entry_deleted ent ≡ false = ground arith in
    let room' : leb max (length st.out) ≡ false = ground arith in
    if-false _ _ goes
    ∙ if-false _ _ plain'
    ∙ if-false _ _ kept
    ∙ if-false _ _ file
    ∙ if-false _ _ room'

-- The entry behind it, with a short name that is no end mark.
module _ (sfn : List ℕ) (attr cluster max : ℕ) (name : List ℕ) (st : Listing) where
  abbrev listed : Entry
  listed = record { name = name; attr = attr; first_cluster = cluster; size = 0 }

  abbrev afterwards : Listing
  afterwards = record {
    lfn_parts = set (replicate 20 []) 0 name;
    lfn_present = 0;
    out = st.out ++ (listed ∷ []);
  }

  name-dir_entry :
      (ent : List ℕ) → length name ≤ 13 → entry_name ent (with_lfn 0 name st max) ≡ name
  unfolding entry_name join_parts
  name-dir_entry ent short = take_all 255 name (omega arith)

  visit_sfn :
      length sfn ≡ 11
      → get_or sfn 0 0 ≢ 0
      → attr ≢ 0x0F
      → (attr / 8 % 2 == 1) ≡ false
      → cluster < 2 ^ 32
      → length name ≤ 13
      → length st.out < max
      → list_entry max (dir_entry sfn attr cluster) (with_lfn 0 name st max) ≡ more afterwards
  visit_sfn eleven first plain file small short room =
      let ent = dir_entry sfn attr cluster in
      let attr' = attr-dir_entry sfn attr cluster eleven in
      let first' : get_or ent 0 0 ≢ 0 =
        λ e. first (sym (first-dir_entry sfn attr cluster eleven) ∙ e) in
      list_entry_last max ent (with_lfn 0 name st max) first' (λ e. plain (sym attr' ∙ e))
        (ap (λ a. a / 8 % 2 == 1) attr' ∙ file) room
      ∙ rw
          (
            name-dir_entry ent short,
            attr',
            cluster-dir_entry sfn attr cluster eleven small,
            size-dir_entry sfn attr cluster eleven,
          )
          refl

-- The first byte of a short name.
first-make_sfn :
    (name : List ℕ) → All IsNameChar name → 0 < length name → get_or (make_sfn name) 0 0 ≢ 0
unfolding make_sfn take_while
first-make_sfn [] chars some_char = absurd (omega arith)
first-make_sfn (c ∷ name) ((above, below), chars) some_char = elim (Bool-cases (no_dot c)) [
  | inl on ↦ rw on (λ e. ground arith)
  | inr dot ↦ rw dot (λ e. ground arith)
]

-- The names that fit into one part: some characters, 13 at most.
abbrev pub IsShortName : List ℕ → Type 0
IsShortName name = (0 < length name) × (length name ≤ 13) × All IsNameChar name

-- The entries of a short name are two.
name_entries_two :
    (name : List ℕ) (attr cluster : ℕ)
    → IsShortName name
    → name_entries name attr cluster
      ≡ lfn_entry 1 (shortname_checksum (make_sfn name)) name 1
        ++ dir_entry (make_sfn name) attr cluster
unfolding name_entries lfn_list
name_entries_two name attr cluster (some_char, short, chars) =
    let one : lfn_count name ≡ 1 = omega arith in
    ap
      (λ n.
        lfn_list n (shortname_checksum (make_sfn name)) name n
        ++ dir_entry (make_sfn name) attr cluster)
      one

length-dir_entry :
    (sfn : List ℕ) (attr cluster : ℕ) → length sfn ≡ 11 → length (dir_entry sfn attr cluster) ≡ 32
length-dir_entry sfn attr cluster eleven = rw (bytes_lem 11 sfn eleven) refl

pub length-name_entries :
    (name : List ℕ) (attr cluster : ℕ)
    → IsShortName name
    → length (name_entries name attr cluster) ≡ 64
length-name_entries name attr cluster short =
    let lfn = lfn_entry 1 (shortname_checksum (make_sfn name)) name 1 in
    let last = dir_entry (make_sfn name) attr cluster in
    ap length (name_entries_two name attr cluster short)
    ∙ (omega (
      arith,
      length-append lfn last,
      length-dir_entry (make_sfn name) attr cluster (length-make_sfn name),
    ))

-- What a listing is after it has passed the entries of `name`.
abbrev pub with_name : List ℕ → ℕ → ℕ → Listing → Listing
with_name name attr cluster st = record {
  lfn_parts = set (replicate 20 []) 0 name;
  lfn_present = 0;
  out = st.out ++ (record { name = name; attr = attr; first_cluster = cluster; size = 0 } ∷ []);
}

pub visit-name_entries :
    (max : ℕ) (name : List ℕ) (attr cluster : ℕ) (st : Listing)
    → IsShortName name
    → attr ≢ 0x0F
    → (attr / 8 % 2 == 1) ≡ false
    → cluster < 2 ^ 32
    → length st.out < max
    → visit_list (list_entry max) (entries 2 (name_entries name attr cluster)) st
      ≡ more (with_name name attr cluster st)
visit-name_entries max name attr cluster st (some_char, short, chars) plain file small room =
    let sum = shortname_checksum (make_sfn name) in
    let eleven = length-make_sfn name in
    let last = dir_entry (make_sfn name) attr cluster in
    let whole : take 32 last ≡ last =
      take_all 32 last (omega (arith, length-dir_entry (make_sfn name) attr cluster eleven)) in
    ap (λ b. visit_list (list_entry max) (entries 2 b) st)
      (name_entries_two name attr cluster (some_char, short, chars))
    ∙ ap (λ r. next r (visit_list (list_entry max) (take 32 last ∷ [])))
        (visit_lfn sum name st max chars short)
    ∙ ap (λ b. next (list_entry max b (with_lfn sum name st max)) more) whole
    ∙ ap (λ r. next r more)
        (visit_sfn (make_sfn name) attr cluster max name st eleven
          (first-make_sfn name chars some_char) plain file small short room)
