-- ===== src/Fat/Alloc/Bytes.antt =====
-- Four bytes of a sector of the table, written and read.
use hatcher.Base.{
  ℕ, ◌+◌, ◌*◌, ◌/◌, ◌%◌, ◌^◌, ◌≤◌, ◌<◌, ◌≡◌, ◌⊎◌, inl, inr, refl, ◌∙◌, List, arith, u32, get_or,
  set, length, length-set, get_or-set_self, get_or-set_ne,
}
use hatcher.Fat.{fat_entry}
use hatcher.Fat.Alloc.{put_le32}

pub length-put_le32 : (at v : ℕ) (s : List ℕ) → length (put_le32 at v s) ≡ length s
length-put_le32 at v s =
    length-set _ (at + 3) _ ∙ length-set _ (at + 2) _ ∙ length-set _ (at + 1) _ ∙ length-set s at _

-- Four bytes, from the lowest, at and behind one place.
abbrev set4 : List ℕ → ℕ → ℕ → ℕ → ℕ → ℕ → List ℕ
set4 s at a b c d = set (set (set (set s at a) (at + 1) b) (at + 2) c) (at + 3) d

module _ (s : List ℕ) (at a b c d : ℕ) where
  abbrev one : List ℕ
  one = set s at a

  abbrev two : List ℕ
  two = set one (at + 1) b

  abbrev three : List ℕ
  three = set two (at + 2) c

  apart : (j : ℕ) → (j < at) ⊎ (at + 4 ≤ j) → get_or (set4 s at a b c d) j 0 ≡ get_or s j 0
  apart j h =
      get_or-set_ne three (at + 3) j d 0 (λ e. omega arith)
      ∙ get_or-set_ne two (at + 2) j c 0 (λ e. omega arith)
      ∙ get_or-set_ne one (at + 1) j b 0 (λ e. omega arith)
      ∙ get_or-set_ne s at j a 0 (λ e. omega arith)

  module _ (room : at + 4 ≤ length s) where
    byte0 : get_or (set4 s at a b c d) at 0 ≡ a
    byte0 =
        get_or-set_ne three (at + 3) at d 0 (λ e. omega arith)
        ∙ get_or-set_ne two (at + 2) at c 0 (λ e. omega arith)
        ∙ get_or-set_ne one (at + 1) at b 0 (λ e. omega arith)
        ∙ get_or-set_self s at a 0 (omega arith)

    byte1 : get_or (set4 s at a b c d) (at + 1) 0 ≡ b
    byte1 =
        get_or-set_ne three (at + 3) (at + 1) d 0 (λ e. omega arith)
        ∙ get_or-set_ne two (at + 2) (at + 1) c 0 (λ e. omega arith)
        ∙ get_or-set_self one (at + 1) b 0 (omega (arith, length-set s at a))

    byte2 : get_or (set4 s at a b c d) (at + 2) 0 ≡ c
    byte2 =
        get_or-set_ne three (at + 3) (at + 2) d 0 (λ e. omega arith)
        ∙ get_or-set_self two (at + 2) c 0
            (omega (arith, length-set one (at + 1) b, length-set s at a))

    byte3 : get_or (set4 s at a b c d) (at + 3) 0 ≡ d
    byte3 =
        get_or-set_self three (at + 3) d 0
          (omega (arith, length-set two (at + 2) c, length-set one (at + 1) b, length-set s at a))

-- The entry of a cluster after it has been written.
pub fat_entry-put_le32 :
    (cluster v : ℕ) (s : List ℕ)
    → length s ≡ 512
    → fat_entry (put_le32 (u32 (cluster * 4) % 512) (v % 2 ^ 28) s) cluster ≡ v % 2 ^ 28
fat_entry-put_le32 cluster v s full =
    let at = u32 (cluster * 4) % 512 in
    let w = v % 2 ^ 28 in
    let a = w % 2 ^ 8 in
    let b = w / 2 ^ 8 % 2 ^ 8 in
    let c = w / 2 ^ 16 % 2 ^ 8 in
    let d = w / 2 ^ 24 % 2 ^ 8 in
    let room : at + 4 ≤ length s = omega arith in
    rw
      (
        byte0 s at a b c d room,
        byte1 s at a b c d room,
        byte2 s at a b c d room,
        byte3 s at a b c d room,
      )
      (omega arith)

-- The entry of another cluster of the table.
pub fat_entry-put_le32_other :
    (cluster other v : ℕ) (s : List ℕ)
    → (u32 (other * 4) % 512 + 4 ≤ u32 (cluster * 4) % 512)
      ⊎ (u32 (cluster * 4) % 512 + 4 ≤ u32 (other * 4) % 512)
    → fat_entry (put_le32 (u32 (cluster * 4) % 512) v s) other ≡ fat_entry s other
fat_entry-put_le32_other cluster other v s away =
    let at = u32 (cluster * 4) % 512 in
    let j = u32 (other * 4) % 512 in
    let far : (k : ℕ) → k < 4 → (j + k < at) ⊎ (at + 4 ≤ j + k) =
      λ k h. elim away [ inl before ↦ inl (omega arith) | inr behind ↦ inr (omega arith) ] in
    let same =
      apart s at (v % 2 ^ 8) (v / 2 ^ 8 % 2 ^ 8) (v / 2 ^ 16 % 2 ^ 8) (v / 2 ^ 24 % 2 ^ 8) in
    rw
      (
        same j (elim away [ inl before ↦ inl (omega arith) | inr behind ↦ inr (omega arith) ]),
        same (j + 1) (far 1 (omega arith)),
        same (j + 2) (far 2 (omega arith)),
        same (j + 3) (far 3 (omega arith)),
      )
      refl
