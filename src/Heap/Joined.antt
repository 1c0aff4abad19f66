-- ===== src/Heap/Joined.antt =====
-- No two free blocks lie side by side, after `kmalloc` and `kfree` too, and `kfree` undoes `kmalloc`.
use mathlib.Core.Path.{subst}
use hatcher.Base.{
  ℕ, ◌+◌, ◌≤◌, ◌≡◌, refl, ◌≢◌, Bool, true, false, List, [], ◌∷◌, arith, ◌==◌, ==_iff, ltb,
  Bool-cases, inl, inr, not, ◌||◌,
}
use hatcher.Heap.{block_size}
use hatcher.Heap.Spec.{Seg, after, fits, place, alloc, alloc_at, absorb_next, absorb_prev, release}

-- No two free blocks lie side by side.
abbrev pub head_busy : List Seg → Bool
head_busy [] = true
head_busy (s ∷ ss) = not s.free

abbrev pub IsJoined : List Seg → Type 0
IsJoined [] = Unit
IsJoined (s ∷ ss) = ((not s.free || head_busy ss) ≡ true) × IsJoined ss

head_busy-place : (n size : ℕ) (ss : List Seg) → head_busy (place n size ss) ≡ true
unfolding place
head_busy-place n size ss = ground arith

place-IsJoined :
    (n size : ℕ) (ss : List Seg) → head_busy ss ≡ true → IsJoined ss → IsJoined (place n size ss)
unfolding place
place-IsJoined n size ss busy v = elim (Bool-cases (ltb (n + block_size) size)) [
  | inl cut ↦ rw cut (refl, (busy, v))
  | inr keep ↦ rw keep (refl, v)
]

head_busy-alloc : (n : ℕ) (ss : List Seg) → head_busy ss ≡ true → head_busy (alloc n ss) ≡ true
unfolding alloc
head_busy-alloc n [] h = refl
head_busy-alloc n (s ∷ ss) h = ground (arith, head_busy-place n s.size ss)

pub alloc-IsJoined : (n : ℕ) (ss : List Seg) → IsJoined ss → IsJoined (alloc n ss)
unfolding alloc
alloc-IsJoined n [] v = tt
alloc-IsJoined n (s ∷ ss) v = elim (Bool-cases (fits n s)) [
  | inl fit ↦ simp fit (place-IsJoined n s.size ss (ground arith) v.1)
  | inr miss ↦ simp miss (ground (arith, head_busy-alloc n ss), alloc-IsJoined n ss v.1)
]

absorb_next-IsJoined : (n : ℕ) (ss : List Seg) → IsJoined ss → IsJoined (absorb_next n ss)
unfolding absorb_next
absorb_next-IsJoined n [] v = (refl, tt)
absorb_next-IsJoined n (s ∷ ss) v = elim (Bool-cases s.free) [
  | inl idle ↦ simp idle (ground arith, v.1)
  | inr busy ↦ simp busy (ground arith, (refl, v.1))
]

pub head-absorb_next : (n : ℕ) (ss : List Seg) → head_busy (absorb_next n ss) ≡ false
unfolding absorb_next
head-absorb_next n [] = refl
head-absorb_next n (s ∷ ss) = ground arith

absorb_prev-IsJoined :
    (s : Seg) (ss : List Seg) → head_busy ss ≡ false → IsJoined ss → IsJoined (absorb_prev s ss)
unfolding absorb_prev
absorb_prev-IsJoined s [] h v = (ground arith, tt)
absorb_prev-IsJoined s (t ∷ ss) h v = elim (Bool-cases s.free) [
  | inl idle ↦ simp idle (ground arith, v.1)
  | inr busy ↦ simp busy (ground arith, v)
]

head_busy-absorb_prev :
    (s : Seg) (ss : List Seg) → s.free ≡ false → head_busy (absorb_prev s ss) ≡ true
unfolding absorb_prev
head_busy-absorb_prev s [] h = ground arith
head_busy-absorb_prev s (t ∷ ss) h = ground arith

head_busy-release :
    (p a : ℕ) (ss : List Seg)
    → (a == p) ≡ false
    → head_busy ss ≡ true
    → head_busy (release p a ss) ≡ true
unfolding release
head_busy-release p a [] past h = refl
head_busy-release p a (s ∷ ss) past h =
    ground (arith, head_busy-absorb_prev s (release p (after a s) ss))

-- The blocks from `p` on, with the one at `p` released.
first-IsJoined :
    (s : Seg) (p a : ℕ) (ss : List Seg)
    → (a == p) ≡ true
    → IsJoined ss
    → IsJoined (release p a ss)
    → IsJoined (absorb_prev s (release p a ss))
unfolding release
first-IsJoined s p a [] at v w = unfold absorb_prev in (ground arith, tt)
first-IsJoined s p a (t ∷ ss) at v w = simp at (
    absorb_prev-IsJoined s (absorb_next t.size ss) (head-absorb_next t.size ss)
      (absorb_next-IsJoined t.size ss v.1))

pub release-IsJoined : (p a : ℕ) (ss : List Seg) → IsJoined ss → IsJoined (release p a ss)
unfolding release
release-IsJoined p a [] v = tt
release-IsJoined p a (s ∷ ss) v = elim (Bool-cases (a == p)) [
  | inl at ↦ simp at (absorb_next-IsJoined s.size ss v.1)
  | inr past ↦ elim (Bool-cases (after a s == p)) [
    | inl second ↦
        simp (past, second)
          (first-IsJoined s p (after a s) ss second v.1 (release-IsJoined p (after a s) ss v.1))
    | inr miss ↦
        simp (past, miss)
          (
            ground (arith, head_busy-release p (after a s) ss miss),
            release-IsJoined p (after a s) ss v.1,
          )
  ]
]

pub alloc_at-ge : (n a : ℕ) (ss : List Seg) → alloc_at n a ss ≢ 0 → a + block_size ≤ alloc_at n a ss
unfolding alloc_at
alloc_at-ge n a [] h = absurd (h refl)
alloc_at-ge n a (s ∷ ss) h = ground (arith, alloc_at-ge n (after a s) ss)

head_idle : (n q : ℕ) (ss : List Seg) → alloc_at n q ss ≡ q + block_size → head_busy ss ≡ false
unfolding alloc_at
head_idle n q [] e = absurd (omega arith)
head_idle n q (s ∷ ss) e = ground (arith, alloc_at-ge n (after q s) ss)

release-place :
    (n a : ℕ) (s : Seg) (ss : List Seg)
    → fits n s ≡ true
    → head_busy ss ≡ true
    → release a a (place n s.size ss) ≡ s ∷ ss
unfolding release place absorb_next
release-place n a s [] fit busy = ground arith
release-place n a s (t ∷ ss) fit busy = ground arith

absorb_prev_busy : (s : Seg) (ss : List Seg) → s.free ≡ false → absorb_prev s ss ≡ s ∷ ss
unfolding absorb_prev
absorb_prev_busy s [] h = refl
absorb_prev_busy s (t ∷ ss) h = ground arith

busy_of : (b c : Bool) → (not b || c) ≡ true → c ≡ false → b ≡ false
busy_of b c h e = ground arith

pub release_second :
    (p a : ℕ) (s : Seg) (ss : List Seg)
    → (a == p) ≡ false
    → (after a s == p) ≡ true
    → release p a (s ∷ ss) ≡ absorb_prev s (release p (after a s) ss)
unfolding release
release_second p a s ss past second = simp (past, second)

pub release_past :
    (p a : ℕ) (s : Seg) (ss : List Seg)
    → (a == p) ≡ false
    → (after a s == p) ≡ false
    → release p a (s ∷ ss) ≡ s ∷ release p (after a s) ss
unfolding release
release_past p a s ss past miss = simp (past, miss)

-- Where no two free blocks lie side by side, a release undoes the allocation before it.
pub release-alloc :
    (n p a : ℕ) (ss : List Seg)
    → IsJoined ss
    → alloc_at n a ss ≡ p + block_size
    → release p a (alloc n ss) ≡ ss
unfolding alloc alloc_at
release-alloc n p a [] v e = absurd (omega arith)
release-alloc n p a (s ∷ ss) v e = elim (Bool-cases (fits n s)) [
  | inl fit ↦
      let here : a ≡ p = ground arith in
      simp fit (
        subst (λ q. release q a (place n s.size ss) ≡ s ∷ ss) here
          (release-place n a s ss fit (ground arith)))
  | inr miss ↦
      let there : alloc_at n (after a s) ss ≡ p + block_size = ground arith in
      let past : (a == p) ≡ false = ground (arith, alloc_at-ge n (after a s) ss) in
      let back = release-alloc n p (after a s) ss v.1 there in
      simp miss (elim (Bool-cases (after a s == p)) [
        | inl second ↦
            let idle =
              head_idle n (after a s) ss (omega (arith, there, (==_iff (after a s) p).0 second)) in
            rw (release_second p a s (alloc n ss) past second, back)
              (absorb_prev_busy s ss (busy_of s.free (head_busy ss) v.0 idle))
        | inr later ↦ rw (release_past p a s (alloc n ss) past later, back)
      ])
]
