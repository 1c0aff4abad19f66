-- ===== src/Heap/Busy.antt =====
-- The blocks in use, as the first-fit search leaves them.
use hatcher.Base.{
  ℕ, ◌+◌, ◌-◌, ◌≤◌, ◌<◌, ◌≡◌, ◌≢◌, refl, ap, true, List, [], ◌∷◌, ◌++◌, arith, All, Bool-cases, inl,
  inr, if◌then◌else◌, ltb, if-true, if-false, ◌∙◌, ltb→lt, sym,
}
use hatcher.Heap.{block_size}
use hatcher.Heap.Spec.{Seg, after, fits, place, alloc, alloc_at}
use hatcher.Heap.Joined.{alloc_at-ge}

-- The blocks in use of a list that starts at `a`: the address of the header, and the bytes behind it.
abbrev pub busy_blocks : ℕ → List Seg → List (ℕ × ℕ)
busy_blocks a [] = []
busy_blocks a (s ∷ ss) =
    let rest = busy_blocks (after a s) ss in if s.free then rest else (a, s.size) ∷ rest

-- One block more is in use, at `p` with `k` bytes; no block was in use there.
abbrev pub Adds : ℕ → ℕ → List (ℕ × ℕ) → List (ℕ × ℕ) → Type 0
Adds p k old new =
    (before : List (ℕ × ℕ)) × (behind : List (ℕ × ℕ)) × (old ≡ before ++ behind)
    × (new ≡ before ++ (p, k) ∷ behind)
    × All (λ b. b.0 ≢ p) old

Above : ℕ → List (ℕ × ℕ) → Type 0
Above a bs = All (λ b. a ≤ b.0) bs

lower : (a a' : ℕ) (bs : List (ℕ × ℕ)) → a ≤ a' → Above a' bs → Above a bs
unfolding Above
lower a a' [] le above = tt
lower a a' (b ∷ bs) le (here, above) = (omega arith, lower a a' bs le above)

apart : (p a : ℕ) (bs : List (ℕ × ℕ)) → p < a → Above a bs → All (λ b. b.0 ≢ p) bs
unfolding Above
apart p a [] less above = tt
apart p a (b ∷ bs) less (here, above) = ((λ e. omega arith), apart p a bs less above)

busy_blocks-Above : (a : ℕ) (ss : List Seg) → Above a (busy_blocks a ss)
unfolding Above
busy_blocks-Above a [] = tt
busy_blocks-Above a (s ∷ ss) =
    let rest : Above a (busy_blocks (after a s) ss) =
      lower a (after a s) (busy_blocks (after a s) ss) (omega arith)
        (busy_blocks-Above (after a s) ss) in
    elim (Bool-cases s.free) [ inl idle ↦ rw idle rest | inr busy ↦ rw busy (omega arith, rest) ]

busy_blocks-place :
    (n a : ℕ) (s : Seg) (ss : List Seg)
    → fits n s ≡ true
    → (k : ℕ) × (busy_blocks a (place n s.size ss) ≡ (a, k) ∷ busy_blocks (after a s) ss) × (n ≤ k)
unfolding place
busy_blocks-place n a s ss fit = elim (Bool-cases (ltb (n + block_size) s.size)) [
  | inl cut ↦
      let behind : a + block_size + n + block_size + (s.size - n - block_size) ≡ after a s =
        omega (arith, ltb→lt _ _ cut) in
      (n, simp (cut, behind) refl, omega arith)
  | inr keep ↦ (s.size, simp keep refl, ground arith)
]

pub alloc-Adds :
    (n p a : ℕ) (ss : List Seg)
    → alloc_at n a ss ≡ p + block_size
    → (k : ℕ) × Adds p k (busy_blocks a ss) (busy_blocks a (alloc n ss)) × (n ≤ k)
unfolding alloc alloc_at
alloc-Adds n p a [] e = absurd (omega arith)
alloc-Adds n p a (s ∷ ss) e = elim (Bool-cases (fits n s)) [
  | inl fit ↦
      let idle : s.free ≡ true = ground arith in
      let here : a ≡ p = ground arith in
      let (k, placed, le) = busy_blocks-place n a s ss fit in
      let away =
        apart p (after a s) (busy_blocks (after a s) ss) (omega arith)
          (busy_blocks-Above (after a s) ss) in
      let taken : busy_blocks a (place n s.size ss) ≡ (p, k) ∷ busy_blocks (after a s) ss =
        placed ∙ ap (λ q. (q, k) ∷ busy_blocks (after a s) ss) here in
      let rest = busy_blocks (after a s) ss in
      (
        k,
        ([], rest, if-true _ _ idle, ap (busy_blocks a) (if-true _ _ fit) ∙ taken, rw idle away),
        le,
      )
  | inr miss ↦
      let further : alloc_at n (after a s) ss ≡ p + block_size = sym (if-false _ _ miss) ∙ e in
      let (k, (before, behind, old, new, away), le) = alloc-Adds n p (after a s) ss further in
      simp miss (elim (Bool-cases s.free) [
        | inl idle ↦ simp idle (k, (before, behind, old, new, away), le)
        | inr busy ↦
            let ge = alloc_at-ge n (after a s) ss (λ z. omega arith) in
            simp busy (
              k,
              (
                (a, s.size) ∷ before,
                behind,
                ap (λ bs. (a, s.size) ∷ bs) old,
                ap (λ bs. (a, s.size) ∷ bs) new,
                ((λ z. omega arith), away),
              ),
              le,
            )
      ])
]
