-- ===== src/Ata/Drives.antt =====
-- Which drives `ata_init` can find.
use hatcher.Base.{
  ℕ, zero, suc, ◌+◌, ◌<◌, ◌≡◌, refl, ap, ◌∙◌, false, Option, none, some, List, arith, ◌==◌,
  Bool-cases, inl, inr, get_elem?, set, map_some, get_elem?-set_ne, get_elem?-modify, if-true,
  if-false, replicate,
}
use hatcher.Ata.{
  Device, Drive, no_drive, primary_base, secondary_base, identified, absent, set_drive,
  ata_get_drive, identify, ata_init_drive, ata_init, ata_read_sector, ata_write_sector, answered,
  asked, if_present, if_there, read_present, write_present,
}

if_present-absent : (o : Option Drive) → if_present (map_some absent o) ≡ none
if_present-absent none = refl
if_present-absent (some d) = refl

set_drive-ata_get_drive :
    (i j : ℕ) (buffer : List ℕ) (drives : List Drive)
    → i < j
    → ata_get_drive j drives ≡ none
    → ata_get_drive j (set_drive i buffer drives) ≡ none
unfolding set_drive ata_get_drive
set_drive-ata_get_drive i j buffer drives less missing =
    let after = set drives i (identified buffer) in
    let kept : get_elem? after j ≡ get_elem? drives j =
      get_elem?-set_ne drives i j (identified buffer) (λ e. omega arith) in
    let e = get_elem?-modify (i + 1) j absent after in
    elim (Bool-cases (i + 1 == j)) [
      | inl next_ ↦ ap if_present (e ∙ if-true _ _ next_) ∙ if_present-absent (get_elem? after j)
      | inr far ↦ ap if_present (e ∙ if-false _ _ far ∙ kept) ∙ missing
    ]

answered-ata_get_drive :
    (i j : ℕ) (drives : List Drive) (o : Option (List ℕ))
    → i < j
    → ata_get_drive j drives ≡ none
    → ata_get_drive j (answered i drives o).1 ≡ none
unfolding answered
answered-ata_get_drive i j drives none less missing = missing
answered-ata_get_drive i j drives (some buffer) less missing =
    set_drive-ata_get_drive i j buffer drives less missing

empty_table : (j : ℕ) → ata_get_drive j (replicate 4 no_drive) ≡ none
unfolding ata_get_drive
empty_table zero = refl
empty_table (suc zero) = refl
empty_table (suc (suc zero)) = refl
empty_table (suc (suc (suc zero))) = refl
empty_table (suc (suc (suc (suc n)))) = refl

module _ {D : Type 0} (dev : Device D) where
  init_drive-ata_get_drive :
      (base i j : ℕ) (drives : List Drive) (d : D)
      → i < j
      → ata_get_drive j drives ≡ none
      → ata_get_drive j (ata_init_drive dev base i drives d).0.1 ≡ none
  unfolding ata_init_drive
  init_drive-ata_get_drive base i j drives d less missing =
      answered-ata_get_drive i j drives (identify dev base (asked dev base i d)).0 less missing

  pub ata_get_drive-ata_init : (j : ℕ) (d : D) → 1 < j → ata_get_drive j (ata_init dev d).0 ≡ none
  unfolding ata_init
  ata_get_drive-ata_init j d more =
      let one : 0 < j = omega arith in
      let r0 = ata_init_drive dev primary_base 0 (replicate 4 no_drive) d in
      let r1 = ata_init_drive dev primary_base 1 r0.0.1 r0.1 in
      let r2 = ata_init_drive dev secondary_base 0 r1.0.1 r1.1 in
      let m0 =
        init_drive-ata_get_drive primary_base 0 j (replicate 4 no_drive) d one (empty_table j) in
      let m1 = init_drive-ata_get_drive primary_base 1 j r0.0.1 r0.1 more m0 in
      let m2 = init_drive-ata_get_drive secondary_base 0 j r1.0.1 r1.1 one m1 in
      init_drive-ata_get_drive secondary_base 1 j r2.0.1 r2.1 more m2

  -- Whatever the drives answer: after `ata_init`, for every drive number from 2 on, and so for both drives
  -- of the secondary channel, reading and writing a sector fail, and no port is written or read.
  pub ata_read_sector-ata_init :
      (drive lba : ℕ) (buffer : List ℕ) (d e : D)
      → 1 < drive
      → (ata_read_sector dev (ata_init dev d).0 drive lba e ≡ (none, e))
        × (ata_write_sector dev (ata_init dev d).0 drive lba buffer e ≡ (false, e))
  unfolding ata_read_sector ata_write_sector
  ata_read_sector-ata_init drive lba buffer d e more =
      let missing = ata_get_drive-ata_init drive d more in
      (
        ap (λ o. if_there o (read_present dev drive lba e) (none, e)) missing,
        ap (λ o. if_there o (write_present dev drive lba buffer e) (false, e)) missing,
      )
