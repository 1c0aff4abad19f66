-- ===== src/Fat/Dir/Listed.antt =====
-- What `fat32_read_dir` and `fat32_list_dir` return for a directory whose chain of clusters ends.
use mathlib.Core.List.{append_assoc}
use hatcher.Base.{
  append_nil, ℕ, zero, suc, ◌-◌, ◌<◌, ◌≡◌, refl, sym, ap, ◌∙◌, true, false, Option, none, some,
  List, [], ◌∷◌, ◌++◌, map, arith, inl, inr, ◌==◌, ◌||◌, leb, if◌then◌else◌, Bool-cases, take,
  length, length-append, if-true, if-false,
}
use hatcher.Base.Int.{pos}
use hatcher.Fat.{Volume, Cache}
use hatcher.Fat.Chain.{IsCoherent}
use hatcher.Fat.Dir.{
  Step, more, done, entry_ends, entry_deleted, entry_attr, read_entry, fat32_read_dir, returned,
}
use hatcher.Fat.Dir.Walk.{
  Chain, entries, chain_sectors, finish, next_congr, visit_list, visit_disk, visit_list-append,
  visit_clusters-Walked,
}

-- The entries of sectors that can all be read.
abbrev pub all_entries : List (List ℕ) → List (List ℕ)
all_entries [] = []
all_entries (sector ∷ sectors) = entries 16 sector ++ all_entries sectors

-- The entries before the end mark, and those that are no part of a long name.
abbrev pub until_end : List (List ℕ) → List (List ℕ)
until_end [] = []
until_end (ent ∷ ents) = if entry_ends ent then [] else ent ∷ until_end ents

abbrev pub no_lfns : List (List ℕ) → List (List ℕ)
no_lfns [] = []
no_lfns (ent ∷ ents) = if entry_attr ent == 0x0F then no_lfns ents else ent ∷ no_lfns ents

visit_disk_list :
    {S : Type 0} (visit : List ℕ → S → Step S) (sectors : List (List ℕ)) (st : S)
    → visit_disk visit (map some sectors) st ≡ visit_list visit (all_entries sectors) st
visit_disk_list visit [] st = refl
visit_disk_list visit (sector ∷ sectors) st =
    next_congr (visit_list visit (entries 16 sector) st) (visit_disk_list visit sectors)
    ∙ sym (visit_list-append visit (entries 16 sector) (all_entries sectors) st)

-- A `char` is never 0xE5, which is above 127.
pub not_deleted : (ent : List ℕ) → entry_deleted ent ≡ false
not_deleted ent = ground arith

abbrev read_so_far : ℕ → List (List ℕ) → List (List ℕ) → List (List ℕ)
read_so_far max ents out = out ++ take (max - length out) (no_lfns (until_end ents))

pub take_none : {A : Type 0} (n : ℕ) (xs : List A) → n ≡ 0 → take n xs ≡ []
take_none zero xs h = refl
take_none (suc n) xs h = absurd (omega arith)

pub take_nil : {A : Type 0} (n : ℕ) → take {A = A} n [] ≡ []
take_nil zero = refl
take_nil (suc n) = refl

pub take_next :
    {A : Type 0} (n m : ℕ) (x : A) (xs : List A) → n ≡ suc m → take n (x ∷ xs) ≡ x ∷ take m xs
take_next zero m x xs h = absurd (omega arith)
take_next (suc n) m x xs h = let same : n ≡ m = omega arith in ap (λ k. x ∷ take k xs) same

-- The loop body in its four cases.
module _ (max : ℕ) (ent : List ℕ) (out : List (List ℕ)) where
  read_entry_ends : entry_ends ent ≡ true → read_entry max ent out ≡ done out
  unfolding read_entry
  read_entry_ends ends = if-true _ _ ends

  module _ (goes : entry_ends ent ≡ false) where
    read_entry_lfn : (entry_attr ent == 0x0F) ≡ true → read_entry max ent out ≡ more out
    unfolding read_entry
    read_entry_lfn lfn =
        let hidden : (entry_attr ent == 0x0F || entry_deleted ent) ≡ true = rw lfn refl in
        if-false _ _ goes ∙ if-true _ _ hidden

    module _ (plain : (entry_attr ent == 0x0F) ≡ false) where
      shown : (entry_attr ent == 0x0F || entry_deleted ent) ≡ false
      shown = rw (plain, not_deleted ent) refl

      read_entry_full : leb max (length out) ≡ true → read_entry max ent out ≡ done out
      unfolding read_entry
      read_entry_full full = if-false _ _ goes ∙ if-false _ _ shown ∙ if-true _ _ full

      read_entry_more :
          leb max (length out) ≡ false → read_entry max ent out ≡ more (out ++ (ent ∷ []))
      unfolding read_entry
      read_entry_more room = if-false _ _ goes ∙ if-false _ _ shown ∙ if-false _ _ room

read_so_far_nothing : (n : ℕ) (out : List (List ℕ)) → done out ≡ done (out ++ take n [])
read_so_far_nothing n out = ap done (sym (ap (λ r. out ++ r) (take_nil n) ∙ append_nil out))

read_list :
    (max : ℕ) (ents out : List (List ℕ))
    → finish (visit_list (read_entry max) ents out) ≡ done (read_so_far max ents out)
read_list max [] out = read_so_far_nothing (max - length out) out
read_list max (ent ∷ ents) out = elim (Bool-cases (entry_ends ent)) [
  | inl ends ↦
      rw (read_entry_ends max ent out ends, ends) (read_so_far_nothing (max - length out) out)
  | inr goes ↦ elim (Bool-cases (entry_attr ent == 0x0F)) [
    | inl lfn ↦ rw (read_entry_lfn max ent out goes lfn, goes, lfn) (read_list max ents out)
    | inr plain ↦
        let rest = no_lfns (until_end ents) in
        elim (Bool-cases (leb max (length out))) [
          | inl full ↦
              let none_left : max - length out ≡ 0 = ground arith in
              rw (read_entry_full max ent out goes plain full, goes, plain)
                (ap done (
                  sym (
                    ap (λ r. out ++ r) (take_none (max - length out) (ent ∷ rest) none_left)
                    ∙ append_nil out)))
          | inr room ↦
              let longer = length-append out (ent ∷ []) in
              let one_less : max - length out ≡ suc (max - length (out ++ (ent ∷ []))) =
                ground (arith, longer) in
              rw (read_entry_more max ent out goes plain room, goes, plain)
                (read_list max ents (out ++ (ent ∷ []))
                  ∙ ap done (
                      append_assoc out (ent ∷ []) (take (max - length (out ++ (ent ∷ []))) rest)
                      ∙ ap (λ r. out ++ r)
                          (sym (
                            take_next (max - length out) (max - length (out ++ (ent ∷ []))) ent rest
                              one_less))))
        ]
  ]
]

module _ (read : ℕ → Option (List ℕ)) (v : Volume) where
  -- For a directory whose chain of clusters comes to an end and whose sectors can be read,
  -- `fat32_read_dir` returns and stores the entries in the order of the disk, up to the end mark and
  -- no more than `max_entries`, less those with the attribute 0x0F; deleted entries are among them.
  pub fat32_read_dir-all_entries :
      (k cluster max_entries : ℕ) (c : Cache) (cs : List ℕ) (sectors : List (List ℕ))
      → Chain read v cluster cs
      → IsCoherent read c
      → chain_sectors read v cs ≡ map some sectors
      → length cs < k
      → let found = take max_entries (no_lfns (until_end (all_entries sectors))) in
        (c' : Cache) × IsCoherent read c'
        × (fat32_read_dir read v k true cluster max_entries c
            ≡ some ((pos (length found), found), c'))
  unfolding fat32_read_dir
  fat32_read_dir-all_entries k cluster max_entries c cs sectors chain coherent good enough =
      let (c', held, e) =
        visit_clusters-Walked (read_entry max_entries) read v k [] c chain coherent enough in
      let found = no_lfns (until_end (all_entries sectors)) in
      let whole : max_entries - 0 ≡ max_entries = omega arith in
      let all : finish (visit_disk (read_entry max_entries) (chain_sectors read v cs) [])
          ≡ done (take max_entries found) =
        ap (λ d. finish (visit_disk (read_entry max_entries) d [])) good
        ∙ ap finish (visit_disk_list (read_entry max_entries) sectors [])
        ∙ read_list max_entries (all_entries sectors) []
        ∙ ap (λ n. done (take n found)) whole in
      (
        c',
        held,
        ap (λ o. elim o [ none ↦ none | some r ↦ some (returned (λ entries. entries) r.0, r.1) ])
            (e ∙ ap (λ r. some (r, c')) all),
      )
