-- ===== src/Heap/Blocks.antt =====
-- The blocks that the first-fit search and the release leave in place.
use hatcher.Base.{
  ℕ, ◌+◌, ◌≤◌, ◌≡◌, refl, ◌≢◌, true, false, Option, some, none, List, [], ◌∷◌, arith, ◌==◌, All,
  ◌↔◌, ltb, Bool-cases, inl, inr, if◌then◌else◌,
}
use hatcher.Heap.{block_size}
use hatcher.Heap.Spec.{
  Seg, seg, after, fits, place, alloc, alloc_at, absorb_next, absorb_prev, release, has_block,
}
use hatcher.Heap.Joined.{head-absorb_next, alloc_at-ge, head_busy, release_second, release_past}

-- The block in use or free with its header at `p`.
abbrev pub block_at : ℕ → ℕ → List Seg → Option Seg
block_at p a [] = none
block_at p a (s ∷ ss) = if a == p then some s else block_at p (after a s) ss

block_at-ge : (q a : ℕ) (ss : List Seg) {t : Seg} → block_at q a ss ≡ some t → a ≤ q
block_at-ge q a [] e = cc
block_at-ge q a (s ∷ ss) {t} e = ground (arith, block_at-ge q (after a s) ss {t = t})

-- What is handed out is the space behind the header of a block in use of at least `n` bytes.
pub block_at-alloc :
    (n p a : ℕ) (ss : List Seg)
    → alloc_at n a ss ≡ p + block_size
    → (k : ℕ) × (block_at p a (alloc n ss) ≡ some (seg k false)) × (n ≤ k)
unfolding alloc alloc_at place
block_at-alloc n p a [] e = absurd (omega arith)
block_at-alloc n p a (s ∷ ss) e = elim (Bool-cases (fits n s)) [
  | inl fit ↦
      let here : (a == p) ≡ true = ground arith in
      elim (Bool-cases (ltb (n + block_size) s.size)) [
        | inl cut ↦ (n, ground arith, omega arith)
        | inr keep ↦ (s.size, ground arith, ground arith)
      ]
  | inr miss ↦
      let there : alloc_at n (after a s) ss ≡ p + block_size = ground arith in
      let (k, held, le) = block_at-alloc n p (after a s) ss there in
      (k, ground (arith, alloc_at-ge n (after a s) ss), le)
]

-- `kmalloc` finds no block exactly when none is free and large enough.
pub alloc_at-eq-zero :
    (n a : ℕ) (ss : List Seg) → (alloc_at n a ss ≡ 0) ↔ All (λ s. fits n s ≡ false) ss
unfolding alloc_at
alloc_at-eq-zero n a [] = (λ e. tt, λ h. refl)
alloc_at-eq-zero n a (s ∷ ss) = (
  λ e. (ground arith, (alloc_at-eq-zero n (after a s) ss).0 (ground arith)),
  λ h. ground (arith, (alloc_at-eq-zero n (after a s) ss).1 h.1),
)

block_at-absorb_next :
    (q k n a : ℕ) (ss : List Seg)
    → (a == q) ≡ false
    → block_at q (a + block_size + n) ss ≡ some (seg k false)
    → block_at q a (absorb_next n ss) ≡ some (seg k false)
unfolding absorb_next
block_at-absorb_next q k n a [] past e = cc
block_at-absorb_next q k n a (t ∷ ss) past e = elim (Bool-cases t.free) [
  | inl idle ↦
      let behind : a + block_size + (n + (block_size + t.size))
          ≡ a + block_size + n + block_size + t.size =
        omega arith in
      let later : (a + block_size + n == q) ≡ false = ground arith in
      simp (idle, past, behind) (simp later at e)
  | inr busy ↦ simp (busy, past) e
]

block_at-absorb_prev :
    (q k a : ℕ) (s : Seg) (ss : List Seg)
    → head_busy ss ≡ false
    → block_at q a (s ∷ ss) ≡ some (seg k false)
    → block_at q a (absorb_prev s ss) ≡ some (seg k false)
unfolding absorb_prev
block_at-absorb_prev q k a s [] idle e = e
block_at-absorb_prev q k a s (t ∷ ss) idle e = elim (Bool-cases s.free) [
  | inl joined ↦
      let behind : a + block_size + (s.size + (block_size + t.size))
          ≡ a + block_size + s.size + block_size + t.size =
        omega arith in
      let past : (a == q) ≡ false = ground arith in
      let later : (after a s == q) ≡ false = ground arith in
      simp (joined, past, behind) (simp (past, later) at e)
  | inr busy ↦ simp busy e
]

-- The step where the block at `p` lies right behind `s`.
block_at-second :
    (p q k a : ℕ) (s : Seg) (ss : List Seg)
    → (after a s == p) ≡ true
    → block_at q a (s ∷ ss) ≡ some (seg k false)
    → block_at q a (s ∷ release p (after a s) ss) ≡ some (seg k false)
    → block_at q a (absorb_prev s (release p (after a s) ss)) ≡ some (seg k false)
unfolding release
block_at-second p q k a s [] second e ih = unfold absorb_prev in e
block_at-second p q k a s (t ∷ ss) second e ih = simp second (
    block_at-absorb_prev q k a s (absorb_next t.size ss) (head-absorb_next t.size ss)
      (simp second at ih))

block_at-tail :
    (q k a : ℕ) (s : Seg) (ss ts : List Seg)
    → (block_at q (after a s) ss ≡ some (seg k false)
        → block_at q (after a s) ts ≡ some (seg k false))
    → block_at q a (s ∷ ss) ≡ some (seg k false)
    → block_at q a (s ∷ ts) ≡ some (seg k false)
block_at-tail q k a s ss ts keep e = elim (Bool-cases (a == q)) [
  | inl here ↦ simp here (simp here at e)
  | inr there ↦ simp there (keep (simp there at e))
]

-- A block in use stays where it is, with its size, when another one is released.
pub block_at-release_busy :
    (p q k a : ℕ) (ss : List Seg)
    → q ≢ p
    → block_at q a ss ≡ some (seg k false)
    → block_at q a (release p a ss) ≡ some (seg k false)
block_at-release_busy p q k a [] ne e = cc
block_at-release_busy p q k a (s ∷ ss) ne e =
    let rest =
      block_at-tail q k a s ss (release p (after a s) ss)
        (block_at-release_busy p q k (after a s) ss ne) e in
    elim (Bool-cases (a == p)) [
      | inl at ↦
          let past : (a == q) ≡ false = ground arith in
          unfold release in simp at (block_at-absorb_next q k s.size a ss past (simp past at e))
      | inr past ↦ elim (Bool-cases (after a s == p)) [
        | inl second ↦
            rw (release_second p a s ss past second) (block_at-second p q k a s ss second e rest)
        | inr later ↦ rw (release_past p a s ss past later) rest
      ]
    ]

pub has_block_of_block_at :
    (p a : ℕ) (ss : List Seg) {t : Seg} → block_at p a ss ≡ some t → has_block p a ss ≡ true
unfolding has_block
has_block_of_block_at p a [] e = cc
has_block_of_block_at p a (s ∷ ss) {t} e =
    ground (arith, has_block_of_block_at p (after a s) ss {t = t})
