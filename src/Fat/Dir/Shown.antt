-- ===== src/Fat/Dir/Shown.antt =====
-- What `fat32_list_dir` lists: the room it takes, and which entries it leaves out.
use hatcher.Base.{
  ℕ, zero, suc, ◌-◌, ◌≤◌, ◌<◌, ◌/◌, ◌%◌, ◌≡◌, ◌≢◌, ◌⊎◌, refl, ap, Bool, true, false, Option, none,
  some, List, [], ◌∷◌, ◌++◌, arith, inl, inr, ◌==◌, ◌&&◌, ltb, leb, All, if◌then◌else◌, Bool-cases,
  get_or, take, drop, length, length-append, length-take,
}
use hatcher.Base.Int.{ℤ, pos, negsuc}
use hatcher.Text.{take_while}
use hatcher.Fat.{Volume, Cache, shortname_to_string, no_space, has_ext}
use hatcher.Fat.Chain.{IsCoherent}
use hatcher.Fat.Dir.{
  Entry, Listing, Step, more, done, failed, entry_ends, entry_deleted, entry_attr, entry_name,
  join_parts, fat32_max_name, list_entry, visit_clusters, fat32_list_dir, returned, take_lfn,
  entry_cluster, entry_size,
}
use hatcher.Fat.Dir.Walk.{
  Chain, chain_sectors, finish, Holds, finish-Holds, visit_clusters-Walked, visit_disk,
}

-- An entry that may be listed, and a list of at most `max` of them.
abbrev pub IsShown : Entry → Type 0
IsShown e = (length e.name ≤ fat32_max_name) × (e.attr ≢ 0x0F) × ((e.attr / 8 % 2 == 1) ≡ false)

abbrev pub IsListing : ℕ → Listing → Type 0
IsListing max st = (length st.out ≤ max) × All IsShown st.out

All-append : {A : Type 0} (P : A → Type 0) (xs ys : List A) → All P xs → All P ys → All P (xs ++ ys)
All-append P [] ys h k = k
All-append P (x ∷ xs) ys (p, h) k = (p, All-append P xs ys h k)

length-take_while : (p : ℕ → Bool) (s : List ℕ) → length (take_while p s) ≤ length s
unfolding take_while
length-take_while p [] = omega arith
length-take_while p (c ∷ s) = elim (Bool-cases (p c)) [
  | inl on ↦ rw on (omega (arith, length-take_while p s))
  | inr off ↦ rw off (omega arith)
]

take_while_short : (p : ℕ → Bool) (n : ℕ) (s : List ℕ) → length (take_while p (take n s)) ≤ n
take_while_short p n s = omega (arith, length-take_while p (take n s), length-take n s)

shortname_short : (name : List ℕ) → length (shortname_to_string name) ≤ fat32_max_name
unfolding shortname_to_string
shortname_short name =
    let base = take_while no_space (take 8 name) in
    let ext = take 3 (drop 8 name) in
    let short = take_while_short no_space 8 name in
    let short' = take_while_short no_space 3 (drop 8 name) in
    elim (Bool-cases (has_ext ext)) [
      | inl ext_on ↦ rw ext_on (omega (arith, length-append base (b'.' ∷ take_while no_space ext)))
      | inr off ↦ rw off (omega (arith, length-append base []))
    ]

join_short :
    (i : ℕ) (parts : List (List ℕ)) (name : List ℕ)
    → length name ≤ fat32_max_name
    → length (join_parts i parts name) ≤ fat32_max_name
unfolding join_parts
join_short zero parts name h = h
join_short (suc i) parts name h =
    let part = take (fat32_max_name - length name) (get_or parts i []) in
    join_short i parts (name ++ part) (
      omega (
        arith,
        length-append name part,
        length-take (fat32_max_name - length name) (get_or parts i []),
      ))

entry_name_short : (ent : List ℕ) (st : Listing) → length (entry_name ent st) ≤ fat32_max_name
unfolding entry_name
entry_name_short ent st = elim (Bool-cases (ltb 0 st.lfn_present)) [
  | inl long ↦ rw long (join_short st.lfn_present st.lfn_parts [] (omega arith))
  | inr short ↦ rw short (shortname_short (take 11 ent))
]

-- One test of the loop body after the other.
Holds-if :
    (P : Listing → Type 0) (b : Bool) (x y : Step Listing)
    → (b ≡ true → Holds P x)
    → (b ≡ false → Holds P y)
    → Holds P (if b then x else y)
Holds-if P true x y h k = h refl
Holds-if P false x y h k = k refl

pub take_lfn-out : (ent : List ℕ) (st : Listing) → (take_lfn ent st).out ≡ st.out
take_lfn-out ent st =
    elim (Bool-cases (ltb 0 (get_or ent 0 0 % 32) && leb (get_or ent 0 0 % 32) 20)) [
      | inl part ↦ rw part refl
      | inr other ↦ rw other refl
    ]

take_lfn-IsListing :
    (max : ℕ) (ent : List ℕ) (st : Listing) → IsListing max st → IsListing max (take_lfn ent st)
take_lfn-IsListing max ent st l =
    elim (Bool-cases (ltb 0 (get_or ent 0 0 % 32) && leb (get_or ent 0 0 % 32) 20)) [
      | inl part ↦ rw part l
      | inr other ↦ rw other l
    ]

-- The last case of the loop body, in which an entry is stored.
shows :
    (max : ℕ) (ent : List ℕ) (st : Listing)
    → IsListing max st
    → (entry_attr ent == 0x0F) ≡ false
    → (entry_attr ent / 8 % 2 == 1) ≡ false
    → leb max (length st.out) ≡ false
    → IsListing max (record {
      lfn_parts = st.lfn_parts;
      lfn_present = 0;
      out =
          st.out
          ++ (record {
            name = entry_name ent st;
            attr = entry_attr ent;
            first_cluster = entry_cluster ent;
            size = entry_size ent;
          }
              ∷ []);
    })
shows max ent st (fits, shown) plain file room =
    let e : Entry = record {
      name = entry_name ent st;
      attr = entry_attr ent;
      first_cluster = entry_cluster ent;
      size = entry_size ent;
    } in
    let short = entry_name_short ent st in
    (
      ground (arith, length-append st.out (e ∷ [])),
      All-append IsShown st.out (e ∷ []) shown ((short, ground arith, file), tt),
    )

pub list_entry-IsListing :
    (max : ℕ) (ent : List ℕ) (st : Listing)
    → IsListing max st
    → Holds (IsListing max) (list_entry max ent st)
unfolding list_entry
list_entry-IsListing max ent st (fits, shown) =
    Holds-if _ (entry_ends ent) _ _ (λ _. (fits, shown))
      (λ _.
        Holds-if _ (entry_attr ent == 0x0F) _ _ (λ _. take_lfn-IsListing max ent st (fits, shown))
          (λ plain.
            Holds-if _ (entry_deleted ent) _ _ (λ _. (fits, shown))
              (λ _.
                Holds-if _ (entry_attr ent / 8 % 2 == 1) _ _ (λ _. (fits, shown))
                  (λ file.
                    Holds-if _ (leb max (length st.out)) _ _ (λ _. (fits, shown))
                      (λ room. shows max ent st (fits, shown) plain file room)))))

module _ (read : ℕ → Option (List ℕ)) (v : Volume) where
  abbrev pub Shows : ℕ → Option ((ℤ × List Entry) × Cache) → Type 0
  Shows max none = ⊥
  Shows max (some ((n, out), c)) =
      ((n ≡ pos (length out)) ⊎ (n ≡ negsuc 1))
      × (length out ≤ max)
      × All IsShown out
      × IsCoherent read c

  Shows-returned :
      (max : ℕ) (r : Step Listing) (c : Cache)
      → Holds (IsListing max) r
      → IsCoherent read c
      → Shows max (some (returned (λ st. st.out) r, c))
  Shows-returned max (more st) c (fits, shown) held = (inl refl, fits, shown, held)
  Shows-returned max (done st) c (fits, shown) held = (inl refl, fits, shown, held)
  Shows-returned max (failed st) c (fits, shown) held = (inr refl, fits, shown, held)

  pub list_dir_end :
      (k cluster max : ℕ) (parts : List (List ℕ)) (c : Cache) (r : Step Listing) (c' : Cache)
      → visit_clusters
          (list_entry max)
          read
          v
          k
          cluster
          (record { lfn_parts = parts; lfn_present = 0; out = [] })
          c
        ≡ some (r, c')
      → fat32_list_dir read v k true parts cluster max c ≡ some (returned (λ st. st.out) r, c')
  unfolding fat32_list_dir
  list_dir_end k cluster max parts c r c' e =
      ap (λ o. elim o [ none ↦ none | some r ↦ some (returned (λ st. st.out) r.0, r.1) ]) e

  -- For a directory whose chain of clusters comes to an end, `fat32_list_dir` returns. It has stored
  -- at most `max_entries` entries, their names have at most 255 characters, and none is part of a long
  -- name or a volume label; the value is their number, or -2.
  pub fat32_list_dir-Shows :
      (k cluster max_entries : ℕ) (parts : List (List ℕ)) (c : Cache) (cs : List ℕ)
      → Chain read v cluster cs
      → IsCoherent read c
      → length cs < k
      → Shows max_entries (fat32_list_dir read v k true parts cluster max_entries c)
  fat32_list_dir-Shows k cluster max_entries parts c cs chain coherent enough =
      let st : Listing = record { lfn_parts = parts; lfn_present = 0; out = [] } in
      let (c', held, e) =
        visit_clusters-Walked (list_entry max_entries) read v k st c chain coherent enough in
      let last = finish (visit_disk (list_entry max_entries) (chain_sectors read v cs) st) in
      rw (list_dir_end k cluster max_entries parts c last c' e) (
        Shows-returned max_entries last c'
          (finish-Holds (list_entry max_entries) (IsListing max_entries)
            (list_entry-IsListing max_entries) (chain_sectors read v cs) st (omega arith, tt))
          held)
