-- ===== src/Fat/Dir/Fields.antt =====
-- Which entries `fat32_list_dir` stores, and when it returns an error.
use mathlib.Core.List.{append_assoc}
use mathlib.Core.Path.{subst}
use hatcher.Base.{
  append_nil, ℕ, suc, ◌-◌, ◌/◌, ◌%◌, ◌≤◌, ◌<◌, ◌≡◌, refl, sym, ap, ◌∙◌, Bool, true, false, not,
  Option, none, some, List, [], ◌∷◌, ◌++◌, map, arith, ◌==◌, ◌&&◌, leb, if◌then◌else◌, All, take,
  length, length-append, if-true, if-false, not_both,
}
use hatcher.Base.Int.{ℤ, pos, negsuc}
use hatcher.Fat.{Volume, Cache}
use hatcher.Fat.Chain.{IsCoherent}
use hatcher.Fat.Dir.{
  Entry, Listing, Step, more, done, failed, next, entry_ends, entry_deleted, entry_attr, entry_name,
  entry_cluster, entry_size, list_entry, take_lfn, no_lfn, fat32_list_dir, returned,
}
use hatcher.Fat.Dir.Walk.{
  Chain, entries, chain_sectors, finish, Holds, finish-Holds, next_congr, next_assoc, visit_list,
  visit_disk, visit_list-append, visit_clusters-Walked,
}
use hatcher.Fat.Dir.Listed.{until_end, not_deleted, take_none, take_nil, take_next}
use hatcher.Fat.Dir.Shown.{IsListing, IsShown, list_entry-IsListing, list_dir_end, take_lfn-out}

-- What a listing takes over of an entry, but for its name.
abbrev Fields : Type 0
Fields = ℕ × ℕ × ℕ

abbrev fields : Entry → Fields
fields e = (e.attr, e.first_cluster, e.size)

abbrev fields_of : List ℕ → Fields
fields_of ent = (entry_attr ent, entry_cluster ent, entry_size ent)

-- The entries that are no volume label; the bit is set in those of a long name too.
abbrev pub no_labels : List (List ℕ) → List (List ℕ)
no_labels [] = []
no_labels (ent ∷ ents) =
    if entry_attr ent / 8 % 2 == 1 then no_labels ents else ent ∷ no_labels ents

-- The entries of the sectors before the first that cannot be read, and whether there is such a sector.
abbrev pub readable : List (Option (List ℕ)) → List (List ℕ)
readable [] = []
readable (none ∷ sectors) = []
readable (some sector ∷ sectors) = entries 16 sector ++ readable sectors

abbrev pub has_bad : List (Option (List ℕ)) → Bool
has_bad [] = false
has_bad (none ∷ sectors) = true
has_bad (some sector ∷ sectors) = has_bad sectors

abbrev pub has_end : List (List ℕ) → Bool
has_end [] = false
has_end (ent ∷ ents) = if entry_ends ent then true else has_end ents

-- The fields of the entries to list, with no regard to room.
abbrev pub wanted : List (List ℕ) → List Fields
wanted ents = map fields_of (no_labels (until_end ents))

-- A listing of these entries runs into what is behind them.
abbrev pub runs_on : ℕ → List (List ℕ) → Bool
runs_on room ents = not (has_end ents) && leb (length (wanted ents)) room

map_snoc :
    (out : List Entry) (e : Entry)
    → map fields (out ++ (e ∷ [])) ≡ map fields out ++ (fields e ∷ [])
map_snoc [] e = refl
map_snoc (x ∷ out) e = ap (λ r. fields x ∷ r) (map_snoc out e)

and_false : (b : Bool) → (b && false) ≡ false
and_false true = refl
and_false false = refl

module _ (max : ℕ) where
  -- What a visit of `ents` makes of a listing with `out`.
  abbrev Stored : List (List ℕ) → List Entry → Listing → Type 0
  Stored ents out st' = map fields st'.out ≡ map fields out ++ take (max - length out) (wanted ents)

  abbrev Passed : List (List ℕ) → List Entry → Step Listing → Type 0
  Passed ents out (more st') = Stored ents out st' × (runs_on (max - length out) ents ≡ true)
  Passed ents out (done st') = Stored ents out st' × (runs_on (max - length out) ents ≡ false)
  Passed ents out (failed st') = ⊥

  nothing_left : (st : Listing) → Passed [] st.out (more st)
  nothing_left st = (
    sym (ap (λ r. map fields st.out ++ r) (take_nil (max - length st.out)) ∙ append_nil _),
    ground arith,
  )

  module _ (ent : List ℕ) (ents : List (List ℕ)) (goes : entry_ends ent ≡ false) where
    -- An entry that is passed over.
    skips :
        (entry_attr ent / 8 % 2 == 1) ≡ true
        → (out : List Entry) (r : Step Listing) → Passed ents out r
        → Passed (ent ∷ ents) out r
    skips label out (more st') p = rw (goes, label) p
    skips label out (done st') p = rw (goes, label) p
    skips label out (failed st') p = p

    -- An entry that is stored.
    module _ (file : (entry_attr ent / 8 % 2 == 1) ≡ false) (out : List Entry) (e : Entry)
        (room : length out < max) (same : fields e ≡ fields_of ent) where
      one_less : max - length out ≡ suc (max - length (out ++ (e ∷ [])))
      one_less = omega (arith, length-append out (e ∷ []))

      wanted_keep : wanted (ent ∷ ents) ≡ fields_of ent ∷ wanted ents
      wanted_keep = rw (goes, file) refl

      one_more : (st' : Listing) → Stored ents (out ++ (e ∷ [])) st' → Stored (ent ∷ ents) out st'
      one_more st' stored =
          let m = max - length (out ++ (e ∷ [])) in
          stored
          ∙ ap (λ r. r ++ take m (wanted ents)) (map_snoc out e)
          ∙ append_assoc (map fields out) (fields e ∷ []) (take m (wanted ents))
          ∙ ap (λ x. map fields out ++ x ∷ take m (wanted ents)) same
          ∙ ap (λ r. map fields out ++ r)
              (sym (take_next (max - length out) m (fields_of ent) (wanted ents) one_less))
          ∙ ap (λ w. map fields out ++ take (max - length out) w) (sym wanted_keep)

      runs_keep :
          runs_on (max - length out) (ent ∷ ents) ≡ runs_on (max - length (out ++ (e ∷ []))) ents
      runs_keep =
          let size : length (wanted (ent ∷ ents)) ≡ suc (length (wanted ents)) =
            ap length wanted_keep in
          let test : leb (suc (length (wanted ents))) (suc (max - length (out ++ (e ∷ []))))
              ≡ leb (length (wanted ents)) (max - length (out ++ (e ∷ []))) =
            ground arith in
          ap (λ b. not b && leb (length (wanted (ent ∷ ents))) (max - length out))
            (if-false _ _ goes)
          ∙ ap (λ n. not (has_end ents) && leb n (max - length out)) size
          ∙ ap (λ n. not (has_end ents) && leb (suc (length (wanted ents))) n) one_less
          ∙ ap (λ b. not (has_end ents) && b) test

      taken_over : (r : Step Listing) → Passed ents (out ++ (e ∷ [])) r → Passed (ent ∷ ents) out r
      taken_over (more st') (stored, on) = (one_more st' stored, runs_keep ∙ on)
      taken_over (done st') (stored, off) = (one_more st' stored, runs_keep ∙ off)
      taken_over (failed st') p = p

    no_room :
        (entry_attr ent / 8 % 2 == 1) ≡ false
        → (st : Listing) → leb max (length st.out) ≡ true
        → Passed (ent ∷ ents) st.out (done st)
    no_room file st full =
        let none_left : max - length st.out ≡ 0 = ground arith in
        let w = wanted (ent ∷ ents) in
        let kept : w ≡ fields_of ent ∷ wanted ents = rw (goes, file) refl in
        let size : length w ≡ suc (length (wanted ents)) = ap length kept in
        let over : leb (length w) (max - length st.out) ≡ false = ground (arith, size, none_left) in
        (
          sym (
              ap (λ r. map fields st.out ++ r) (take_none (max - length st.out) w none_left)
              ∙ append_nil _),
          ap (λ b. not (has_end (ent ∷ ents)) && b) over ∙ and_false (not (has_end (ent ∷ ents))),
        )

  ends_here :
      (ent : List ℕ) (ents : List (List ℕ)) (st : Listing)
      → entry_ends ent ≡ true
      → Passed (ent ∷ ents) st.out (done st)
  ends_here ent ents st ends =
      rw ends (
        sym (ap (λ r. map fields st.out ++ r) (take_nil (max - length st.out)) ∙ append_nil _),
        refl,
      )

  Passed-if :
      (ents : List (List ℕ)) (out : List Entry) (go : Listing → Step Listing) (b : Bool)
      (x y : Step Listing)
      → (b ≡ true → Passed ents out (next x go))
      → (b ≡ false → Passed ents out (next y go))
      → Passed ents out (next (if b then x else y) go)
  Passed-if ents out go true x y h k = h refl
  Passed-if ents out go false x y h k = k refl

  lfn_label :
      (ent : List ℕ) → (entry_attr ent == 0x0F) ≡ true → (entry_attr ent / 8 % 2 == 1) ≡ true
  lfn_label ent lfn = ground arith

  visit_list-Passed :
      (ents : List (List ℕ)) (st : Listing)
      → Passed ents st.out (visit_list (list_entry max) ents st)
  unfolding list_entry
  visit_list-Passed [] st = nothing_left st
  visit_list-Passed (ent ∷ ents) st =
      let go = visit_list (list_entry max) ents in
      let test = Passed-if (ent ∷ ents) st.out go in
      test (entry_ends ent) _ _ (ends_here ent ents st) (λ goes.
        test (entry_attr ent == 0x0F) _ _
          (λ lfn. skips ent ents goes (lfn_label ent lfn) st.out (go (take_lfn ent st)) (
            subst (λ o. Passed ents o (go (take_lfn ent st))) (take_lfn-out ent st)
              (visit_list-Passed ents (take_lfn ent st))))
          (λ plain.
            test (entry_deleted ent) _ _ (λ d. absurd (not_both d (not_deleted ent)))
              (λ _.
                test (entry_attr ent / 8 % 2 == 1) _ _
                  (λ label.
                    skips ent ents goes label st.out (go (no_lfn st))
                      (visit_list-Passed ents (no_lfn st)))
                  (λ file.
                    test (leb max (length st.out)) _ _ (no_room ent ents goes file st) (λ room.
                      let e : Entry = record {
                        name = entry_name ent st;
                        attr = entry_attr ent;
                        first_cluster = entry_cluster ent;
                        size = entry_size ent;
                      } in
                      let st' : Listing = record {
                        lfn_parts = st.lfn_parts;
                        lfn_present = 0;
                        out = st.out ++ (e ∷ []);
                      } in
                      taken_over ent ents goes file st.out e (ground arith) refl (go st')
                        (visit_list-Passed ents st'))))))

  -- The same for the sectors of a directory: the walk comes to a sector that cannot be read, or not.
  abbrev stop_at : Bool → Listing → Step Listing
  stop_at bad st = if bad then failed st else more st

  visit_disk-readable :
      (sectors : List (Option (List ℕ))) (st : Listing)
      → visit_disk (list_entry max) sectors st
        ≡ next (visit_list (list_entry max) (readable sectors) st) (stop_at (has_bad sectors))
  visit_disk-readable [] st = refl
  visit_disk-readable (none ∷ sectors) st = refl
  visit_disk-readable (some sector ∷ sectors) st =
      next_congr (visit_list (list_entry max) (entries 16 sector) st) (visit_disk-readable sectors)
      ∙ sym (
          next_assoc (visit_list (list_entry max) (entries 16 sector) st)
            (visit_list (list_entry max) (readable sectors)) (stop_at (has_bad sectors)))
      ∙ sym (
          ap (λ r. next r (stop_at (has_bad sectors)))
            (visit_list-append (list_entry max) (entries 16 sector) (readable sectors) st))

-- The value of a listing that has stored `n` entries.
abbrev pub value : ℕ → List (Option (List ℕ)) → ℕ → ℤ
value max sectors n = if has_bad sectors && runs_on max (readable sectors) then negsuc 1 else pos n

-- The outcome of a listing of these sectors.
abbrev pub Lists : ℕ → List (Option (List ℕ)) → ℤ × List Entry → Type 0
Lists max sectors (n, out) =
    (map fields out ≡ take max (wanted (readable sectors)))
    × (n ≡ value max sectors (length out))
    × (length out ≤ max)
    × All IsShown out

module _ (max : ℕ) (ents : List (List ℕ)) where
  abbrev Ended : Bool → Step Listing → Type 0
  Ended bad r =
      let v = returned (λ st. st.out) r in
      (map fields v.1 ≡ take max (wanted ents))
      × (v.0 ≡ (if bad && runs_on max ents then negsuc 1 else pos (length v.1)))

  whole : max - length {A = Entry} [] ≡ max
  whole = omega arith

  whole_list : (st : Listing) → Stored max ents [] st → map fields st.out ≡ take max (wanted ents)
  whole_list st stored = stored ∙ ap (λ n. take n (wanted ents)) whole

  runs_whole : {b : Bool} → runs_on (max - length {A = Entry} []) ents ≡ b → runs_on max ents ≡ b
  runs_whole h = sym (ap (λ n. runs_on n ents) whole) ∙ h

  stopped :
      (bad : Bool) (r : Step Listing)
      → Passed max ents [] r
      → Ended bad (finish (next r (stop_at max bad)))
  stopped true (more st) (stored, on) = (whole_list st stored, sym (if-true _ _ (runs_whole on)))
  stopped false (more st) (stored, on) = (whole_list st stored, refl)
  stopped true (done st) (stored, off) = (whole_list st stored, sym (if-false _ _ (runs_whole off)))
  stopped false (done st) (stored, off) = (whole_list st stored, refl)
  stopped bad (failed st) p = absurd p

module _ (read : ℕ → Option (List ℕ)) (v : Volume) where
  returned-IsListing :
      (max : ℕ) (r : Step Listing)
      → Holds (IsListing max) r
      → (length (returned (λ st. st.out) r).1 ≤ max) × All IsShown (returned (λ st. st.out) r).1
  returned-IsListing max (more st) l = l
  returned-IsListing max (done st) l = l
  returned-IsListing max (failed st) l = l

  -- For a directory whose chain of clusters comes to an end, `fat32_list_dir` returns. It has stored, with
  -- attributes, cluster and size and in the order of the disk, the first `max_entries` of the entries that
  -- are no volume label and no part of a long name, up to the end mark or the first sector that cannot be
  -- read; their names have at most 255 characters. The value is -2 where it comes to such a sector, with
  -- no end mark and no more than `max_entries` such entries before it, and the number of entries
  -- otherwise. Where `kmalloc` returns NULL the value is -1, and nothing is stored.
  pub fat32_list_dir-Lists :
      (k cluster max_entries : ℕ) (parts : List (List ℕ)) (c : Cache) (cs : List ℕ)
      → Chain read v cluster cs
      → IsCoherent read c
      → length cs < k
      → (fat32_list_dir read v k false parts cluster max_entries c ≡ some ((negsuc 0, []), c))
        × ((r : ℤ × List Entry) × (c' : Cache) × IsCoherent read c'
            × (fat32_list_dir read v k true parts cluster max_entries c ≡ some (r, c'))
            × Lists max_entries (chain_sectors read v cs) r)
  unfolding fat32_list_dir
  fat32_list_dir-Lists k cluster max_entries parts c cs chain coherent enough =
      let visit = list_entry max_entries in
      let st : Listing = record { lfn_parts = parts; lfn_present = 0; out = [] } in
      let sectors = chain_sectors read v cs in
      let (c', held, e) = visit_clusters-Walked visit read v k st c chain coherent enough in
      let last = finish (visit_disk visit sectors st) in
      let (stored, result) : Ended max_entries (readable sectors) (has_bad sectors) last =
        subst (λ r. Ended max_entries (readable sectors) (has_bad sectors) (finish r))
          (sym (visit_disk-readable max_entries sectors st))
          (stopped max_entries (readable sectors) (has_bad sectors)
            (visit_list visit (readable sectors) st)
            (visit_list-Passed max_entries (readable sectors) st)) in
      let (fits, shown) = returned-IsListing max_entries last (
        finish-Holds visit (IsListing max_entries) (list_entry-IsListing max_entries) sectors st
          (omega arith, tt)) in
      (
        refl,
        (
          returned (λ st. st.out) last,
          c',
          held,
          list_dir_end read v k cluster max_entries parts c last c' e,
          (stored, result, fits, shown),
        ),
      )
