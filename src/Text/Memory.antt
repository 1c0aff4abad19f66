-- ===== src/Text/Memory.antt =====
-- Copies in memory.
use hatcher.Base.{
  ℕ, zero, suc, ◌+◌, ◌-◌, ◌%◌, ◌^◌, ◌≤◌, ◌≡◌, sym, ap, ◌∙◌, Bool, true, false, ◌⊎◌, inl, inr, arith,
  ◌==◌, ◌&&◌, ltb, leb, if◌then◌else◌, Bool-cases, update,
}
use hatcher.Text.{copy_up, copy_down, memcpy, memmove, memset}

-- Whether address `x` is one of the `n` from `d` on.
abbrev pub within : ℕ → ℕ → ℕ → Bool
within d n x = leb d x && ltb x (d + n)

copy_up_lem :
    (n d s : ℕ) (f : ℕ → ℕ) (x : ℕ)
    → (d ≤ s) ⊎ (s + n ≤ d)
    → copy_up n d s f x ≡ (if within d n x then f (s + (x - d)) else f x)
unfolding copy_up
copy_up_lem zero d s f x h = ground arith
copy_up_lem (suc n) d s f x h =
    copy_up_lem n (d + 1) (s + 1) (update f d (f s)) x (ground arith)
    ∙ elim (Bool-cases (within (d + 1) n x)) [
      | inl later ↦
          let all : within d (suc n) x ≡ true = ground arith in
          let apart : (s + 1 + (x - (d + 1)) == d) ≡ false = ground arith in
          let same : s + 1 + (x - (d + 1)) ≡ s + (x - d) = ground arith in
          simp (later, all, apart) (ap f same)
      | inr other ↦ elim (Bool-cases (x == d)) [
        | inl first ↦
            let all : within d (suc n) x ≡ true = ground arith in
            let same : s ≡ s + (x - d) = ground arith in simp (other, first, all) (ap f same)
        | inr outside ↦
            let all : within d (suc n) x ≡ false = ground arith in simp (other, outside, all)
      ]
    ]

copy_down_lem :
    (n d s : ℕ) (f : ℕ → ℕ) (x : ℕ)
    → s ≤ d
    → copy_down n (d + n) (s + n) f x ≡ (if within d n x then f (s + (x - d)) else f x)
unfolding copy_down
copy_down_lem zero d s f x h = ground arith
copy_down_lem (suc n) d s f x h =
    let d' : d + suc n - 1 ≡ d + n = omega arith in
    let s' : s + suc n - 1 ≡ s + n = omega arith in
    let g : ℕ → ℕ = update f (d + n) (f (s + n)) in
    rw (d', s')
      (copy_down_lem n d s g x h ∙ elim (Bool-cases (within d n x)) [
        | inl early ↦
            let all : within d (suc n) x ≡ true = ground arith in
            let apart : (s + (x - d) == d + n) ≡ false = ground arith in simp (early, all, apart)
        | inr other ↦ elim (Bool-cases (x == d + n)) [
          | inl last ↦
              let all : within d (suc n) x ≡ true = ground arith in
              let same : s + n ≡ s + (x - d) = ground arith in simp (other, last, all) (ap f same)
          | inr outside ↦
              let all : within d (suc n) x ≡ false = ground arith in simp (other, outside, all)
        ]
      ])

-- `memmove` leaves at the destination what stood at the source before, overlapping or not, and
-- changes no other byte.
pub memmove_lem :
    (dest src n x : ℕ) (f : ℕ → ℕ)
    → memmove dest src n f x ≡ (if within dest n x then f (src + (x - dest)) else f x)
unfolding memmove
memmove_lem dest src n x f = moved
  where
    stays : src ≡ dest → f x ≡ (if within dest n x then f (src + (x - dest)) else f x)
    stays equal = elim (Bool-cases (within dest n x)) [
      | inl inside ↦ let here : x ≡ src + (x - dest) = ground arith in simp inside (ap f here)
      | inr outside ↦ simp outside
    ]

    moved : memmove dest src n f x ≡ (if within dest n x then f (src + (x - dest)) else f x)
    moved = elim (Bool-cases (ltb dest src)) [
      | inl up ↦ simp up (copy_up_lem n dest src f x (inl (ground arith)))
      | inr not_up ↦ elim (Bool-cases (ltb src dest)) [
        | inl down ↦ simp (not_up, down) (copy_down_lem n dest src f x (ground arith))
        | inr same ↦ let equal : src ≡ dest = ground arith in simp (not_up, same) (stays equal)
      ]
    ]

-- `memcpy` does what `memmove` does where the destination does not begin inside the source.
pub memcpy-memmove :
    (dest src n x : ℕ) (f : ℕ → ℕ)
    → (dest ≤ src) ⊎ (src + n ≤ dest)
    → memcpy dest src n f x ≡ memmove dest src n f x
unfolding memcpy
memcpy-memmove dest src n x f apart =
    copy_up_lem n dest src f x apart ∙ sym (memmove_lem dest src n x f)

-- `memset` writes the low byte of `c` to the `n` addresses and changes no other byte.
pub memset_lem :
    (s c n x : ℕ) (f : ℕ → ℕ) → memset s c n f x ≡ (if within s n x then c % 2 ^ 8 else f x)
unfolding memset
memset_lem s c zero x f = ground arith
memset_lem s c (suc n) x f =
    memset_lem (s + 1) c n x (update f s (c % 2 ^ 8)) ∙ elim (Bool-cases (within (s + 1) n x)) [
      | inl later ↦ let all : within s (suc n) x ≡ true = ground arith in simp (later, all)
      | inr other ↦ elim (Bool-cases (x == s)) [
        | inl first ↦ let all : within s (suc n) x ≡ true = ground arith in simp (other, first, all)
        | inr outside ↦
            let all : within s (suc n) x ≡ false = ground arith in simp (other, outside, all)
      ]
    ]
