-- ===== src/Fat/Alloc/Tables.antt =====
-- The loop of `fat_write_fat_entry` over the copies of the table.
use native.Mathlib.Nat.{add-mul, suc-mul, mul-le-mul_right}
use hatcher.Base.{
  ℕ, zero, suc, ◌+◌, ◌*◌, ◌/◌, ◌%◌, ◌^◌, ◌≤◌, ◌<◌, ◌≡◌, inl, inr, refl, sym, ap, ◌∙◌, Bool, true,
  false, Option, none, some, List, arith, ◌==◌, Option-cases, u32, length, update, if-false,
}
use hatcher.Fat.Alloc.{Disk, ata_write_sector, put_le32, write_tables}

-- Sectors have 512 bytes.
abbrev pub IsSectored : Disk → Type 0
IsSectored disk = (n : ℕ) (s : List ℕ) → disk n ≡ some s → length s ≡ 512

module _ (start per cluster value : ℕ) where
  -- The sector of table `t` that has the entry, and its new bytes.
  abbrev pub place : ℕ → ℕ
  place t = u32 (start + t * per + u32 (cluster * 4) / 512)

  abbrev pub changed : List ℕ → List ℕ
  changed s = put_le32 (u32 (cluster * 4) % 512) (value % 2 ^ 28) s

  module _ (n t : ℕ) (disk : Disk) where
    abbrev written : List ℕ → Option Disk
    written s = ata_write_sector (place t) (changed s) disk

    abbrev after_write : Option Disk → Bool × Disk
    after_write o = elim o [
      | none ↦ (false, disk)
      | some disk' ↦ write_tables n (t + 1) start per cluster value disk'
    ]

    tables_bad :
        disk (place t) ≡ none → write_tables (suc n) t start per cluster value disk ≡ (false, disk)
    unfolding write_tables
    tables_bad bad =
        ap (λ o. elim o [ none ↦ (false, disk) | some s ↦ after_write (written s) ]) bad

    tables_good :
        (s : List ℕ)
        → disk (place t) ≡ some s
        → write_tables (suc n) t start per cluster value disk
          ≡ write_tables n
              (t + 1)
              start
              per
              cluster
              value
              (update disk (place t) (some (changed s)))
    unfolding write_tables
    tables_good s good =
        ap (λ o. elim o [ none ↦ (false, disk) | some s ↦ after_write (written s) ]) good
        ∙ ap
            (λ o.
              after_write (elim o [
                | none ↦ none
                | some old ↦ some (update disk (place t) (some (changed s)))
              ]))
            good

  -- The copies that follow the first table leave it as it is.
  tables_behind :
      (n t : ℕ) (disk : Disk) (x : ℕ)
      → 1 ≤ t
      → start + (t + n) * per < 2 ^ 32
      → u32 (cluster * 4) / 512 < per
      → x < start + per
      → (write_tables n t start per cluster value disk).1 x ≡ disk x
  unfolding write_tables
  tables_behind zero t disk x copy small inside first = refl
  tables_behind (suc n) t disk x copy small inside first =
      let above : 1 * per ≤ t * per = mul-le-mul_right per copy in
      let sum = add-mul t (suc n) per in
      let sum' = add-mul (t + 1) n per in
      let sum'' = add-mul t 1 per in
      let more = suc-mul n per in
      let fits : start + (t + 1 + n) * per < 2 ^ 32 = omega arith in
      let apart : (x == place t) ≡ false = ground arith in
      elim (Option-cases (disk (place t))) [
        | inl bad ↦ ap (λ r. r.1 x) (tables_bad n t disk bad)
        | inr (s, good) ↦
            ap (λ r. r.1 x) (tables_good n t disk s good)
            ∙ tables_behind n (t + 1) (update disk (place t) (some (changed s))) x (omega arith)
                fits inside first
            ∙ if-false _ _ apart
      ]

  -- What a write of all tables has done to the sectors of the first table, of which there is one
  -- at least.
  module _ (n : ℕ) (disk : Disk) where
    abbrev pub all_tables : Bool × Disk
    all_tables = write_tables (suc n) 0 start per cluster value disk

    pub was_there : all_tables.0 ≡ true → (s : List ℕ) × (disk (place 0) ≡ some s)
    was_there h = elim (Option-cases (disk (place 0))) [
      | inl bad ↦ let gone : false ≡ true = sym (ap (λ r. r.0) (tables_bad n 0 disk bad)) ∙ h in cc
      | inr found ↦ found
    ]

    module _ (s : List ℕ) (there : disk (place 0) ≡ some s) (small : start + suc n * per < 2 ^ 32)
        (inside : u32 (cluster * 4) / 512 < per) where
      pub first_table :
          (x : ℕ) → x < start + per → all_tables.1 x ≡ update disk (place 0) (some (changed s)) x
      first_table x near =
          let same : start + (1 + n) * per < 2 ^ 32 =
            omega (arith, add-mul 1 n per, suc-mul n per) in
          ap (λ r. r.1 x) (tables_good n 0 disk s there)
          ∙ tables_behind n 1 (update disk (place 0) (some (changed s))) x (omega arith) same inside
              near
