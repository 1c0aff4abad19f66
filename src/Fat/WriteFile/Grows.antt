-- ===== src/Fat/WriteFile/Grows.antt =====
-- The last loop of `fat32_write_file_data`, for a file that grows.
use hatcher.Base.{
  ℕ, zero, suc, ◌+◌, ◌*◌, ◌/◌, ◌%◌, ◌^◌, ◌≤◌, ◌<◌, ◌≡◌, refl, sym, ap, ◌∙◌, Bool, true, false,
  Option, none, some, List, [], ◌∷◌, arith, inl, inr, ◌==◌, ==_iff, ltb, u8, u32, if◌then◌else◌,
  Bool-cases, get_or, set, take, drop, if-true, if-false, update,
}
use hatcher.Fat.{fat32_cluster_to_lba, strcasecmp_ascii, shortname_to_string}
use hatcher.Fat.Alloc.{Disk, Fs, with_disk, put_le32}
use hatcher.Base.Int.{is_zero}
use hatcher.Fat.WriteFile.{is_entry_of, find_entry, put_le16, set_size, update_entry, write_fs}

some_inj : {a b : ℕ} → some a ≡ some b → a ≡ b
some_inj e = cc

take_before : (n i v : ℕ) (s : List ℕ) → n ≤ i → take n (set s i v) ≡ take n s
take_before zero i v s h = refl
take_before (suc n) i v [] h = refl
take_before (suc n) zero v (x ∷ s) h = absurd (omega arith)
take_before (suc n) (suc i) v (x ∷ s) h = ap (λ r. x ∷ r) (take_before n i v s (omega arith))

-- `n` bytes at `off`, after a write behind them.
head_set :
    (n off i v : ℕ) (s : List ℕ) → off + n ≤ i → take n (drop off (set s i v)) ≡ take n (drop off s)
head_set n zero i v s h = take_before n i v s (omega arith)
head_set n (suc off) i v [] h = refl
head_set n (suc off) zero v (x ∷ s) h = absurd (omega arith)
head_set n (suc off) (suc i) v (x ∷ s) h = head_set n off i v s (omega arith)

-- The name and the attributes of an entry stay as they are.
module _ (off : ℕ) where
  abbrev head : List ℕ → List ℕ
  head s = take 12 (drop off s)

  head-put_le16 : (at v : ℕ) (s : List ℕ) → off + 12 ≤ at → head (put_le16 at v s) ≡ head s
  head-put_le16 at v s h =
      head_set 12 off (at + 1) (v / 2 ^ 8 % 2 ^ 8) (set s at (v % 2 ^ 8)) (omega arith)
      ∙ head_set 12 off at (v % 2 ^ 8) s h

  head-put_le32 : (at v : ℕ) (s : List ℕ) → off + 12 ≤ at → head (put_le32 at v s) ≡ head s
  head-put_le32 at v s h =
      head_set 12 off (at + 3) _ _ (omega arith)
      ∙ head_set 12 off (at + 2) _ _ (omega arith)
      ∙ head_set 12 off (at + 1) _ _ (omega arith)
      ∙ head_set 12 off at _ s h

  head-set_size : (size cluster : ℕ) (s : List ℕ) → head (set_size off size cluster s) ≡ head s
  head-set_size size cluster s =
      head-put_le16 (off + 26) (cluster % 2 ^ 16) _ (omega arith)
      ∙ head-put_le16 (off + 20) (cluster / 2 ^ 16 % 2 ^ 16) _ (omega arith)
      ∙ head-put_le32 (off + 28) size s (omega arith)

get_or-take : (n i : ℕ) (xs : List ℕ) → i < n → get_or (take n xs) i 0 ≡ get_or xs i 0
get_or-take zero i xs h = absurd (omega arith)
get_or-take (suc n) i [] h = refl
get_or-take (suc n) zero (x ∷ xs) h = refl
get_or-take (suc n) (suc i) (x ∷ xs) h = get_or-take n i xs (omega arith)

take_shorter : (n m : ℕ) (xs : List ℕ) → n ≤ m → take n (take m xs) ≡ take n xs
take_shorter zero m xs h = refl
take_shorter (suc n) zero xs h = absurd (omega arith)
take_shorter (suc n) (suc m) [] h = refl
take_shorter (suc n) (suc m) (x ∷ xs) h = ap (λ r. x ∷ r) (take_shorter n m xs (omega arith))

-- The test for the entry reads its first 12 bytes only.
abbrev test_of : List ℕ → ℕ → List ℕ → Bool
test_of name attr short =
    if attr % 16 == 0x0F then false else is_zero (strcasecmp_ascii (shortname_to_string short) name)

is_entry_of-head :
    (name xs : List ℕ)
    → is_entry_of name (take 32 xs) ≡ test_of name (get_or (take 12 xs) 11 0) (take 11 (take 12 xs))
is_entry_of-head name xs =
    ap (λ a. test_of name a (take 11 (take 32 xs)))
      (get_or-take 32 11 xs (omega arith) ∙ sym (get_or-take 12 11 xs (omega arith)))
    ∙ ap (test_of name (get_or (take 12 xs) 11 0))
        (take_shorter 11 32 xs (omega arith) ∙ sym (take_shorter 11 12 xs (omega arith)))

-- The entry is still found in the sector after the write.
still_entry :
    (name s : List ℕ) (off size cluster : ℕ)
    → is_entry_of name (take 32 (drop off s)) ≡ true
    → is_entry_of name (take 32 (drop off (set_size off size cluster s))) ≡ true
still_entry name s off size cluster h =
    is_entry_of-head name (drop off (set_size off size cluster s))
    ∙ ap (λ b. test_of name (get_or b 11 0) (take 11 b)) (head-set_size off size cluster s)
    ∙ sym (is_entry_of-head name (drop off s))
    ∙ h

-- Where the search stops there is an entry, and it stops if there is one.
find_entry_at :
    (n start : ℕ) (name s : List ℕ) {off : ℕ}
    → find_entry n start name s ≡ some off
    → (j : ℕ) × (j < n) × (off ≡ start + 32 * j) × (is_entry_of name (take 32 (drop off s)) ≡ true)
unfolding find_entry
find_entry_at zero start name s e = cc
find_entry_at (suc n) start name s {off} e =
    elim (Bool-cases (is_entry_of name (take 32 (drop start s)))) [
      | inl here ↦
          let at : start ≡ off = some_inj (sym (if-true _ _ here) ∙ e) in
          (
            0,
            omega arith,
            omega arith,
            ap (λ i. is_entry_of name (take 32 (drop i s))) (sym at) ∙ here,
          )
      | inr other ↦
          let (j, less, at, hit) =
            find_entry_at n (start + 32) name s (sym (if-false _ _ other) ∙ e) in
          (suc j, omega arith, omega arith, hit)
    ]

finds_entry :
    (n start j : ℕ) (name s : List ℕ)
    → j < n
    → is_entry_of name (take 32 (drop (start + 32 * j) s)) ≡ true
    → (off : ℕ) × (find_entry n start name s ≡ some off)
unfolding find_entry
finds_entry zero start j name s less h = absurd (omega arith)
finds_entry (suc n) start zero name s less h =
    let plain : start + 32 * 0 ≡ start = omega arith in
    (start, if-true _ _ (ap (λ i. is_entry_of name (take 32 (drop i s))) (sym plain) ∙ h))
finds_entry (suc n) start (suc j) name s less h =
    elim (Bool-cases (is_entry_of name (take 32 (drop start s)))) [
      | inl here ↦ (start, if-true _ _ here)
      | inr other ↦
          let further : start + 32 * suc j ≡ start + 32 + 32 * j = omega arith in
          let (off, e) =
            finds_entry n (start + 32) j name s (omega arith)
              (ap (λ i. is_entry_of name (take 32 (drop i s))) (sym further) ∙ h) in
          (off, if-false _ _ other ∙ e)
    ]

-- The first sector of the current directory can be read and has the entry.
abbrev pub first_lba : Fs → ℕ
first_lba fs = u32 (fat32_cluster_to_lba fs.volume fs.current_dir_cluster + 0)

abbrev pub HasEntry : List ℕ → Fs → Type 0
HasEntry name fs =
    (sector : List ℕ) × (off : ℕ) × (fs.disk (first_lba fs) ≡ some sector)
    × (find_entry 16 0 name sector ≡ some off)

-- The tests of the loop, as functions of what is tested.
abbrev rewritten : ℕ → ℕ → ℕ → List ℕ → Fs → Option Fs → Option (Bool × Fs)
rewritten k size cluster name fs none = some (false, fs)
rewritten k size cluster name fs (some fs') = update_entry k (u8 (0xFF + 1)) name size cluster fs'

abbrev in_state : Fs → Option Disk → Option Fs
in_state fs none = none
in_state fs (some disk) = some (with_disk disk fs)

abbrev searched : ℕ → ℕ → ℕ → List ℕ → Fs → List ℕ → Option ℕ → Option (Bool × Fs)
searched k size cluster name fs sector none = update_entry k (u8 (0 + 1)) name size cluster fs
searched k size cluster name fs sector (some off) =
    rewritten k size cluster name fs (write_fs (first_lba fs) (set_size off size cluster sector) fs)

-- One round of the loop, in which the entry is written.
update_entry_round :
    (k size cluster off : ℕ) (name sector : List ℕ) (fs : Fs)
    → 0 < fs.volume.sectors_per_cluster
    → fs.disk (first_lba fs) ≡ some sector
    → find_entry 16 0 name sector ≡ some off
    → update_entry (suc k) 0 name size cluster fs
      ≡ update_entry k 0 name size cluster
          (with_disk (update fs.disk (first_lba fs) (some (set_size off size cluster sector))) fs)
unfolding update_entry
update_entry_round k size cluster off name sector fs some_sector there found =
    let lba = first_lba fs in
    let inside : ltb 0 fs.volume.sectors_per_cluster ≡ true = ground arith in
    if-true _ _ inside
    ∙ ap
        (λ o. elim o [
          | none ↦ some (false, fs)
          | some b ↦ searched k size cluster name fs b (find_entry 16 0 name b)
        ])
        there
    ∙ ap (searched k size cluster name fs sector) found
    ∙ ap
        (λ o. rewritten k size cluster name fs (
          in_state fs (elim o [
            | none ↦ none
            | some old ↦ some (update fs.disk lba (some (set_size off size cluster sector)))
          ])))
        there

update_self : (disk : Disk) (x : ℕ) (o : Option (List ℕ)) → update disk x o x ≡ o
update_self disk x o = if-true _ _ ((==_iff x x).1 refl)

HasEntry-write :
    (size cluster off : ℕ) (name sector : List ℕ) (fs : Fs)
    → find_entry 16 0 name sector ≡ some off
    → HasEntry name
        (with_disk (update fs.disk (first_lba fs) (some (set_size off size cluster sector))) fs)
HasEntry-write size cluster off name sector fs found =
    let (j, less, at, hit) = find_entry_at 16 0 name sector found in
    let sector' = set_size off size cluster sector in
    let hit' : is_entry_of name (take 32 (drop (0 + 32 * j) sector')) ≡ true =
      ap (λ i. is_entry_of name (take 32 (drop i sector'))) (sym at)
      ∙ still_entry name sector off size cluster hit in
    let (off', found') = finds_entry 16 0 j name sector' less hit' in
    (sector', off', update_self fs.disk (first_lba fs) (some sector'), found')

-- If the first sector of the current directory has the entry that the last loop of
-- `fat32_write_file_data` looks for, this loop does not end: it has not ended after any number `k` of
-- rounds, however large.
pub update_entry_endless :
    (k size cluster : ℕ) (name : List ℕ) (fs : Fs)
    → 0 < fs.volume.sectors_per_cluster
    → HasEntry name fs
    → update_entry k 0 name size cluster fs ≡ none
unfolding update_entry
update_entry_endless zero size cluster name fs some_sector has = refl
update_entry_endless (suc k) size cluster name fs some_sector (sector, off, there, found) =
    update_entry_round k size cluster off name sector fs some_sector there found
    ∙ update_entry_endless k size cluster name
        (with_disk (update fs.disk (first_lba fs) (some (set_size off size cluster sector))) fs)
        some_sector (HasEntry-write size cluster off name sector fs found)
