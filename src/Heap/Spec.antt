-- ===== src/Heap/Spec.antt =====
-- What the allocator promises, over the list of blocks in the order of their addresses: a first-fit
-- search that cuts the block it takes, and a release that joins the free neighbours.
use hatcher.Base.{
  ℕ, ◌+◌, ◌-◌, Bool, true, false, List, [], ◌∷◌, ◌&&◌, ◌==◌, leb, ltb, if◌then◌else◌,
}
use hatcher.Heap.{block_size}

-- A block without its links: the bytes behind its header, and whether they are free.
pub record Seg : Type 0 where
  pub size : ℕ
  pub free : Bool

abbrev pub seg : ℕ → Bool → Seg
seg n b = record { size = n; free = b }

-- The address behind a block at `a`.
abbrev pub after : ℕ → Seg → ℕ
after a s = a + block_size + s.size

abbrev pub fits : ℕ → Seg → Bool
fits n s = s.free && leb n s.size

-- A block of `size` bytes, taken for `n` bytes.
unfoldable pub place : ℕ → ℕ → List Seg → List Seg
place n size ss =
    if ltb (n + block_size) size
    then seg n false ∷ seg (size - n - block_size) true ∷ ss
    else seg size false ∷ ss

unfoldable pub alloc : ℕ → List Seg → List Seg
alloc n [] = []
alloc n (s ∷ ss) = if fits n s then place n s.size ss else s ∷ alloc n ss

-- The address that `alloc` hands out, 0 if no block fits.
unfoldable pub alloc_at : ℕ → ℕ → List Seg → ℕ
alloc_at n a [] = 0
alloc_at n a (s ∷ ss) = if fits n s then a + block_size else alloc_at n (after a s) ss

-- A released block of `size` bytes, joined to the block behind it if that is free.
unfoldable pub absorb_next : ℕ → List Seg → List Seg
absorb_next size [] = seg size true ∷ []
absorb_next size (n ∷ ss) =
    if n.free then seg (size + (block_size + n.size)) true ∷ ss else seg size true ∷ n ∷ ss

-- A block in front of a released one.
unfoldable pub absorb_prev : Seg → List Seg → List Seg
absorb_prev s [] = s ∷ []
absorb_prev s (n ∷ ss) =
    if s.free then seg (s.size + (block_size + n.size)) true ∷ ss else s ∷ n ∷ ss

-- The block at `p` is released; the list starts at address `a`.
unfoldable pub release : ℕ → ℕ → List Seg → List Seg
release p a [] = []
release p a (s ∷ ss) =
    if a == p
    then absorb_next s.size ss
    else (if after a s == p
        then absorb_prev s (release p (after a s) ss)
        else s ∷ release p (after a s) ss)

-- The bytes in free blocks, or in blocks in use.
unfoldable pub bytes_in : Bool → List Seg → ℕ
bytes_in wanted [] = 0
bytes_in wanted (s ∷ ss) =
    (if s.free then (if wanted then s.size else 0) else (if wanted then 0 else s.size))
    + bytes_in wanted ss

-- Some block of the list, which starts at `a`, has its header at `p`.
unfoldable pub has_block : ℕ → ℕ → List Seg → Bool
has_block p a [] = false
has_block p a (s ∷ ss) = if a == p then true else has_block p (after a s) ss
