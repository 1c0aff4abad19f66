-- ===== src/Fat/Create/Place.antt =====
-- Where new entries go in a sector of a directory, and what a listing of the sector then finds.
use hatcher.Base.{
  ℕ, zero, suc, ◌+◌, ◌-◌, ◌*◌, ◌≤◌, ◌<◌, ◌≡◌, ◌≢◌, refl, sym, ap, ◌∙◌, true, false, Option, some,
  List, [], ◌∷◌, ◌++◌, arith, inl, inr, ◌==◌, ◌||◌, Bool-cases, get_or, set, take, drop, length,
  replicate, length-append, length-take, length-replicate, if-true, if-false,
}
use hatcher.Fat.Dir.Walk.{entries}
use hatcher.Fat.Create.{free_entries, place_in, put_entries}

module _ {A : Type 0} where
  pub take-drop : (n : ℕ) (xs : List A) → take n xs ++ drop n xs ≡ xs
  take-drop zero xs = refl
  take-drop (suc n) [] = refl
  take-drop (suc n) (x ∷ xs) = ap (λ r. x ∷ r) (take-drop n xs)

  take-append : (n : ℕ) (xs ys : List A) → n ≤ length xs → take n (xs ++ ys) ≡ take n xs
  take-append zero xs ys h = refl
  take-append (suc n) [] ys h = absurd (omega arith)
  take-append (suc n) (x ∷ xs) ys h = ap (λ r. x ∷ r) (take-append n xs ys (omega arith))

  take_again : (n : ℕ) (xs : List A) → take n (take n xs) ≡ take n xs
  take_again zero xs = refl
  take_again (suc n) [] = refl
  take_again (suc n) (x ∷ xs) = ap (λ r. x ∷ r) (take_again n xs)

  drop-append : (n : ℕ) (xs ys : List A) → n ≤ length xs → drop n (xs ++ ys) ≡ drop n xs ++ ys
  drop-append zero xs ys h = refl
  drop-append (suc n) [] ys h = absurd (omega arith)
  drop-append (suc n) (x ∷ xs) ys h = drop-append n xs ys (omega arith)

  pub length-drop : (n : ℕ) (xs : List A) → length (drop n xs) ≡ length xs - n
  length-drop zero xs = omega arith
  length-drop (suc n) [] = omega arith
  length-drop (suc n) (x ∷ xs) = omega (arith, length-drop n xs)

  pub set-append :
      (xs ys : List A) (i k : ℕ) (v : A) → i ≡ length xs + k → set (xs ++ ys) i v ≡ xs ++ set ys k v
  set-append [] ys i k v h = ap (λ j. set ys j v) (omega arith)
  set-append (x ∷ xs) ys zero k v h = absurd (omega arith)
  set-append (x ∷ xs) ys (suc i) k v h = ap (λ r. x ∷ r) (set-append xs ys i k v (omega arith))

-- The entries of a list of bytes that is cut between two of them.
pub entries_front :
    (m : ℕ) (xs ys : List ℕ) → length xs ≡ 32 * m → entries m (xs ++ ys) ≡ entries m xs
entries_front zero xs ys h = refl
entries_front (suc m) xs ys h =
    ap (λ r. r ∷ entries m (drop 32 (xs ++ ys))) (take-append 32 xs ys (omega arith))
    ∙ ap (λ r. take 32 xs ∷ entries m r) (drop-append 32 xs ys (omega arith))
    ∙ ap (λ r. take 32 xs ∷ r) (entries_front m (drop 32 xs) ys (omega (arith, length-drop 32 xs)))

pub entries-append :
    (m n k : ℕ) (xs ys : List ℕ)
    → length xs ≡ 32 * m
    → k ≡ m + n
    → entries k (xs ++ ys) ≡ entries m xs ++ entries n ys
entries-append zero n k [] ys h e = ap (λ j. entries j ys) (omega arith)
entries-append zero n k (x ∷ xs) ys h e = absurd (omega arith)
entries-append (suc m) n zero xs ys h e = absurd (omega arith)
entries-append (suc m) n (suc k) xs ys h e =
    ap (λ r. r ∷ entries k (drop 32 (xs ++ ys))) (take-append 32 xs ys (omega arith))
    ∙ ap (λ r. take 32 xs ∷ entries k r) (drop-append 32 xs ys (omega arith))
    ∙ ap (λ r. take 32 xs ∷ r)
        (entries-append m n k (drop 32 xs) ys (omega (arith, length-drop 32 xs)) (omega arith))

-- The `m` entries from `off` on are in use.
abbrev pub Occupied : ℕ → ℕ → List ℕ → Type 0
Occupied zero off sector = Unit
Occupied (suc m) off sector =
    (get_or sector off 0 ≢ 0x00) × (get_or sector off 0 ≢ 0xE5) × Occupied m (off + 32) sector

module _ (n off total : ℕ) (buf sector : List ℕ) where
  place_free :
      free_entries total off sector ≡ true
      → place_in (suc n) off total buf sector ≡ some (put_entries off buf sector)
  unfolding place_in
  place_free h = if-true _ _ h

  place_end :
      free_entries total off sector ≡ false
      → (get_or sector off 0 == 0x00) ≡ true
      → place_in (suc n) off total buf sector
        ≡ some (put_entries off buf (take off sector ++ replicate (512 - off) 0))
  unfolding place_in
  place_end h e = if-false _ _ h ∙ if-true _ _ e

  place_on :
      free_entries total off sector ≡ false
      → (get_or sector off 0 == 0x00) ≡ false
      → place_in (suc n) off total buf sector ≡ place_in n (off + 32) total buf sector
  unfolding place_in
  place_on h e = if-false _ _ h ∙ if-false _ _ e

not_free :
    (total off : ℕ) (sector : List ℕ)
    → get_or sector off 0 ≢ 0x00
    → get_or sector off 0 ≢ 0xE5
    → 0 < total
    → free_entries total off sector ≡ false
unfolding free_entries
not_free zero off sector h h' some_entry = absurd (omega arith)
not_free (suc total) off sector h h' some_entry =
    let used : (get_or sector off 0 == 0x00 || get_or sector off 0 == 0xE5) ≡ false =
      ground arith in
    rw used refl

-- The entries are put at the end mark, `m` entries behind `off`, into a sector that is the same before
-- that.
abbrev pub PutAt : ℕ → List ℕ → List ℕ → Option (List ℕ) → Type 0
PutAt at buf sector o =
    (base : List ℕ) × (o ≡ some (put_entries at buf base))
    × (take at base ≡ take at sector)
    × (length base ≡ 512)

here-PutAt :
    (n off total : ℕ) (buf sector : List ℕ)
    → get_or sector off 0 ≡ 0x00
    → length sector ≡ 512
    → off ≤ 512
    → PutAt off buf sector (place_in (suc n) off total buf sector)
here-PutAt n off total buf sector mark full inside =
    elim (Bool-cases (free_entries total off sector)) [
      | inl free ↦ (sector, place_free n off total buf sector free, refl, full)
      | inr used ↦
          let nothing : ℕ = 0 in
          let cleared = replicate (512 - off) nothing in
          let same = length-take off sector in
          (
            take off sector ++ cleared,
            place_end n off total buf sector used (ground arith),
            take-append off (take off sector) cleared (omega arith) ∙ take_again off sector,
            omega (
              arith,
              length-append (take off sector) cleared,
              length-replicate (512 - off) nothing,
              length-take off sector,
            ),
          )
    ]

pub place_in-PutAt :
    (m n off total : ℕ) (buf sector : List ℕ)
    → Occupied m off sector
    → get_or sector (off + 32 * m) 0 ≡ 0x00
    → m < n
    → 0 < total
    → length sector ≡ 512
    → off + 32 * m ≤ 512
    → PutAt (off + 32 * m) buf sector (place_in n off total buf sector)
place_in-PutAt m zero off total buf sector used mark less some_entry full inside =
    absurd (omega arith)
place_in-PutAt zero (suc n) off total buf sector used mark less some_entry full inside =
    let at : off + 32 * 0 ≡ off = omega arith in
    rw at (
      here-PutAt n off total buf sector (ap (λ i. get_or sector i 0) (sym at) ∙ mark) full
        (omega arith))
place_in-PutAt (suc m) (suc n) off total buf sector (h, h', used) mark less some_entry full inside =
    let zero_free : (get_or sector off 0 == 0x00) ≡ false = ground arith in
    let further : off + 32 + 32 * m ≡ off + 32 * suc m = omega arith in
    rw
      (
        place_on n off total buf sector (not_free total off sector h h' some_entry) zero_free,
        sym further,
      )
      (place_in-PutAt m n (off + 32) total buf sector used
        (ap (λ i. get_or sector i 0) further ∙ mark) (omega arith) some_entry full (omega arith))
