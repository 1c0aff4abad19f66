-- ===== src/Fat/Alloc/Write.antt =====
-- `fat_write_fat_entry` sets the entry of one cluster of the table that the walks read.
use hatcher.Base.{
  ℕ, zero, suc, ◌+◌, ◌*◌, ◌/◌, ◌%◌, ◌^◌, ◌≤◌, ◌<◌, ◌≡◌, ◌≢◌, ◌⊎◌, inl, inr, refl, sym, ap, ◌∙◌,
  Bool, true, false, Option, none, some, List, arith, ◌==◌, ==_iff, Bool-cases, dec_lt, u32,
  if-true, if-false,
}
use hatcher.Base.Int.{pos, negsuc}
use hatcher.Fat.{fat_sector, fat_entry}
use hatcher.Fat.Chain.{next_on_disk, on_disk}
use hatcher.Fat.Alloc.{Disk, Fs, write_tables, fat_write_fat_entry, with_disk, drop_cache}
use hatcher.Fat.Alloc.Bytes.{fat_entry-put_le32, fat_entry-put_le32_other}
use hatcher.Fat.Alloc.Tables.{IsSectored, place, changed, all_tables, was_there, first_table}

-- What a mount gives, and what the drive is taken to be.
abbrev pub IsMounted : Fs → Type 0
IsMounted fs =
    (fs.volume.partition_lba ≡ 0)
    × (0 < fs.table_count)
    × (fs.volume.fat_start + fs.table_count * fs.sectors_per_fat < 2 ^ 32)
    × IsSectored fs.disk

-- The clusters that have an entry in a table.
abbrev pub IsInTable : Fs → ℕ → Type 0
IsInTable fs cluster = (cluster < 2 ^ 30) × (u32 (cluster * 4) / 512 < fs.sectors_per_fat)

module _ (cluster value : ℕ) (fs : Fs) where
  abbrev tables_of : Bool × Disk
  tables_of =
      write_tables fs.table_count 0 fs.volume.fat_start fs.sectors_per_fat cluster value fs.disk

  write_ok :
      tables_of.0 ≡ true
      → fat_write_fat_entry cluster value fs ≡ (pos 0, drop_cache (with_disk tables_of.1 fs))
  unfolding fat_write_fat_entry
  write_ok h = if-true _ _ h

  write_bad :
      tables_of.0 ≡ false
      → fat_write_fat_entry cluster value fs ≡ (negsuc 0, with_disk tables_of.1 fs)
  unfolding fat_write_fat_entry
  write_bad h = if-false _ _ h

  succeeded : (fat_write_fat_entry cluster value fs).0 ≡ pos 0 → tables_of.0 ≡ true
  succeeded h = elim (Bool-cases tables_of.0) [
    | inl ok ↦ ok
    | inr bad ↦ let gone : negsuc 0 ≡ pos 0 = sym (ap (λ r. r.0) (write_bad bad)) ∙ h in cc
  ]

place_lem :
    (c value : ℕ) (fs : Fs)
    → IsMounted fs
    → fat_sector fs.volume c ≡ place fs.volume.fat_start fs.sectors_per_fat c value 0
place_lem c value fs mounted = rw (mounted.0) (omega arith)

-- Two clusters whose entries are in one sector.
entries_apart :
    (a b : ℕ)
    → a < 2 ^ 30
    → b < 2 ^ 30
    → u32 (a * 4) / 512 ≡ u32 (b * 4) / 512
    → b ≢ a
    → (u32 (b * 4) % 512 + 4 ≤ u32 (a * 4) % 512) ⊎ (u32 (a * 4) % 512 + 4 ≤ u32 (b * 4) % 512)
entries_apart a b ha hb same differ = elim (dec_lt a b) [
  | yes less ↦ inr (omega arith)
  | no more ↦ inl (omega arith)
]

abbrev found_in : ℕ → Option (List ℕ) → ℕ
found_in cluster o = elim o [ none ↦ 0x0FFFFFFF | some s ↦ fat_entry s cluster ]

abbrev entry_at : Disk → ℕ → ℕ → ℕ
entry_at disk x cluster = found_in cluster (disk x)

module _ (start per cluster value n : ℕ) (disk : Disk) (sectored : IsSectored disk)
    (small : start + suc n * per < 2 ^ 32) (inside : u32 (cluster * 4) / 512 < per)
    (ok : (all_tables start per cluster value n disk).0 ≡ true) where
  -- The first table after the write: the entry of the cluster, and that of another.
  abbrev now : Disk
  now = (all_tables start per cluster value n disk).1

  entry_now :
      (s : List ℕ) × (now (place start per cluster value 0) ≡ some s)
      × (fat_entry s cluster ≡ value % 2 ^ 28)
  entry_now =
      let x = place start per cluster value 0 in
      let (s, there) = was_there start per cluster value n disk ok in
      let near : x < start + per = omega arith in
      (
        changed start per cluster value s,
        first_table start per cluster value n disk s there small inside x near
            ∙ if-true _ _ ((==_iff x x).1 refl),
        fat_entry-put_le32 cluster value s (sectored x s there),
      )

  module _ (other : ℕ) (c_small : cluster < 2 ^ 30) (o_small : other < 2 ^ 30)
      (o_inside : u32 (other * 4) / 512 < per) (differ : other ≢ cluster) where
    other_now :
        entry_at now (place start per other value 0) other
        ≡ entry_at disk (place start per other value 0) other
    other_now =
        let x = place start per cluster value 0 in
        let y = place start per other value 0 in
        let (s, there) = was_there start per cluster value n disk ok in
        let near : y < start + per = omega arith in
        let same = first_table start per cluster value n disk s there small inside y near in
        elim (Bool-cases (y == x)) [
          | inl one ↦
              let equal : y ≡ x = (==_iff y x).0 one in
              let away = entries_apart cluster other c_small o_small (omega arith) differ in
              ap (found_in other) (same ∙ if-true _ _ one)
              ∙ fat_entry-put_le32_other cluster other (value % 2 ^ 28) s away
              ∙ sym (ap (found_in other) (ap disk equal ∙ there))
          | inr two ↦ ap (found_in other) (same ∙ if-false _ _ two)
        ]

-- The same for a number of tables that is not zero.
module _ (cluster value : ℕ) (fs : Fs) (mounted : IsMounted fs)
    (inside : IsInTable fs cluster) where
  abbrev tables_with : ℕ → Bool × Disk
  tables_with count =
      write_tables count 0 fs.volume.fat_start fs.sectors_per_fat cluster value fs.disk

  abbrev written_with : ℕ → Fs
  written_with count = drop_cache (with_disk (tables_with count).1 fs)

  own_entry :
      (count : ℕ)
      → 0 < count
      → fs.volume.fat_start + count * fs.sectors_per_fat < 2 ^ 32
      → (tables_with count).0 ≡ true
      → next_on_disk (tables_with count).1 fs.volume cluster ≡ value % 2 ^ 28
  own_entry zero some_table small ok = absurd (omega arith)
  own_entry (suc n) some_table small ok =
      let (s, there, e) =
        entry_now fs.volume.fat_start fs.sectors_per_fat cluster value n fs.disk mounted.3 small
          inside.1 ok in
      on_disk (tables_with (suc n)).1 fs.volume cluster
        (ap (tables_with (suc n)).1 (place_lem cluster value fs mounted) ∙ there)
      ∙ e

  other_entry :
      (other count : ℕ)
      → IsInTable fs other
      → other ≢ cluster
      → 0 < count
      → fs.volume.fat_start + count * fs.sectors_per_fat < 2 ^ 32
      → (tables_with count).0 ≡ true
      → next_on_disk (tables_with count).1 fs.volume other ≡ next_on_disk fs.disk fs.volume other
  other_entry other zero inside' differ some_table small ok = absurd (omega arith)
  other_entry other (suc n) inside' differ some_table small ok =
      let there = place_lem other value fs mounted in
      ap (λ x. entry_at (tables_with (suc n)).1 x other) there
      ∙ other_now fs.volume.fat_start fs.sectors_per_fat cluster value n fs.disk mounted.3 small
          inside.1 ok other inside.0 inside'.0 inside'.1 differ
      ∙ sym (ap (λ x. entry_at fs.disk x other) there)

-- Where `fat_write_fat_entry` returns 0, the walks find the new value, cut to 28 bits, for the cluster,
-- and for each other cluster what they found before; the cache is empty. The volume is mounted, its
-- tables have less than 2^32 sectors, and both clusters have an entry.
pub fat_write_fat_entry-next_on_disk :
    (cluster value other : ℕ) (fs : Fs)
    → IsMounted fs
    → IsInTable fs cluster
    → IsInTable fs other
    → other ≢ cluster
    → (fat_write_fat_entry cluster value fs).0 ≡ pos 0
    → let fs' = (fat_write_fat_entry cluster value fs).1 in
      (next_on_disk fs'.disk fs'.volume cluster ≡ value % 2 ^ 28)
      × (next_on_disk fs'.disk fs'.volume other ≡ next_on_disk fs.disk fs.volume other)
      × (fs'.cache.cached_fat_sector ≡ 0xFFFFFFFF)
fat_write_fat_entry-next_on_disk cluster value other fs mounted inside inside' differ ok =
    let good = succeeded cluster value fs ok in
    let (_, some_table, small, _) = mounted in
    rw (write_ok cluster value fs good) (
      own_entry cluster value fs mounted inside fs.table_count some_table small good,
      other_entry cluster value fs mounted inside other fs.table_count inside' differ some_table
          small good,
      refl,
    )
