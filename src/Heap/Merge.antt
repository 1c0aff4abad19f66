-- ===== src/Heap/Merge.antt =====
-- The two joins of `kfree`: a released block and the block behind it, the block in front and the
-- released one.
use hatcher.Base.{
  ℕ, ◌+◌, ◌^◌, ◌≤◌, ◌<◌, ◌≡◌, refl, ◌∙◌, true, false, List, [], ◌∷◌, arith, ◌==◌, u64, Bool-cases,
  inl, inr,
}
use hatcher.Effect.{Returns, returns, mono, ◌>>◌}
use hatcher.Heap.{Heap, block_size, load, set_prev, mark_free, merge_next, merge_prev}
use hatcher.Heap.Spec.{Seg, seg, after, absorb_next, absorb_prev}
use hatcher.Heap.Chain.{Chain, Chain-le, frame-update, relink}
use hatcher.Heap.Split.{Holds}

-- Two blocks one behind the other, of `x` and `y` bytes from `a` on, and what lies behind them.
record Pair (a x y : ℕ) : Type 0 where
  sum : u64 (x + u64 (block_size + y)) ≡ x + (block_size + y)
  nz : (a == 0) ≡ false
  next_nz : (a + block_size + x == 0) ≡ false
  last_nz : (a + block_size + x + block_size + y == 0) ≡ false
  next_away : (a + block_size + x == a) ≡ false
  last_away : (a + block_size + x + block_size + y == a) ≡ false
  last_next : (a + block_size + x + block_size + y == (a + block_size + x)) ≡ false
  self : (a == a) ≡ true
  behind : a + block_size + (x + (block_size + y)) ≡ a + block_size + x + block_size + y

pair : (a x y e : ℕ) → 0 < a → a + block_size + x + block_size + y ≤ e → e < 2 ^ 64 → Pair a x y
pair a x y e pos fit room = record {
  sum = omega arith;
  nz = ground arith;
  next_nz = ground arith;
  last_nz = ground arith;
  next_away = ground arith;
  last_away = ground arith;
  last_next = ground arith;
  self = ground arith;
  behind = omega arith;
}

-- The released block is the last one.
release_last :
    (m : Heap) (prev a e : ℕ) (s : Seg)
    → 0 < a
    → Chain m.header prev a (s ∷ []) e
    → Returns (λ _ m'. Holds m prev a (seg s.size true ∷ []) e m') ((mark_free a >> merge_next a) m)
unfolding mark_free merge_next load
release_last m prev a e s pos c =
    let nz : (a == 0) ≡ false = ground arith in
    let self : (a == a) ≡ true = ground arith in
    simp (nz, self, c.0)
      (returns (record {
        chain = (rw self, c.1);
        below = λ y lt. ground arith;
        head = refl;
        base = refl;
        total = refl;
        bytes = λ y. refl;
      }))

module _ (m : Heap) (prev a e : ℕ) (s n : Seg) (p : Pair a s.size n.size) where
  open p use {sum, nz, next_nz, last_nz, next_away, last_away, last_next, self, behind}

  -- The block behind the released one is in use.
  release_alone :
      (ss : List Seg)
      → n.free ≡ false
      → Chain m.header prev a (s ∷ n ∷ ss) e
      → Returns
          (λ _ m'. Holds m prev a (seg s.size true ∷ n ∷ ss) e m')
          ((mark_free a >> merge_next a) m)
  unfolding mark_free merge_next load
  release_alone ss busy c =
      simp (nz, self, c.0, next_nz, next_away, c.1.0, busy)
        (returns (record {
          chain = (rw self, frame-update m.header a _ a _ (n ∷ ss) e (omega arith) c.1);
          below = λ y lt. ground arith;
          head = refl;
          base = refl;
          total = refl;
          bytes = λ y. refl;
        }))

  -- The block behind the released one is free and the last.
  join_last :
      n.free ≡ true
      → Chain m.header prev a (s ∷ n ∷ []) e
      → Returns
          (λ _ m'. Holds m prev a (seg (s.size + (block_size + n.size)) true ∷ []) e m')
          ((mark_free a >> merge_next a) m)
  unfolding mark_free merge_next load
  join_last idle c =
      simp (nz, self, c.0, next_nz, next_away, c.1.0, idle, sum)
        (returns (record {
          chain = (rw self, behind ∙ c.1.1);
          below = λ y lt. ground arith;
          head = refl;
          base = refl;
          total = refl;
          bytes = λ y. refl;
        }))

  join_inner :
      (t : Seg) (ss : List Seg)
      → n.free ≡ true
      → Chain m.header prev a (s ∷ n ∷ t ∷ ss) e
      → Returns
          (λ _ m'. Holds m prev a (seg (s.size + (block_size + n.size)) true ∷ t ∷ ss) e m')
          ((mark_free a >> merge_next a) m)
  unfolding mark_free merge_next load set_prev
  join_inner t ss idle c =
      simp (nz, self, c.0, next_nz, next_away, last_nz, last_away, c.1.0, c.1.1.0, idle, sum)
        (returns (record {
          chain = (
            ground arith,
            relink _ a (after (after a s) n) _ t ss e behind (ground arith) (λ y lt. ground arith)
                c.1.1,
          );
          below = λ y lt. ground arith;
          head = refl;
          base = refl;
          total = refl;
          bytes = λ y. refl;
        }))

-- After the first two steps of `kfree` the block at `a` is free, with the block behind it in it if
-- that was free.
pub merge_next-absorb :
    (m : Heap) (prev a e : ℕ) (s : Seg) (ss : List Seg)
    → 0 < a
    → e < 2 ^ 64
    → Chain m.header prev a (s ∷ ss) e
    → Returns
        (λ _ m'. Holds m prev a (absorb_next s.size ss) e m')
        ((mark_free a >> merge_next a) m)
unfolding absorb_next
merge_next-absorb m prev a e s [] pos room c = release_last m prev a e s pos c
merge_next-absorb m prev a e s (n ∷ ss) pos room c = elim (Bool-cases n.free) [
  | inl idle ↦ simp idle (join idle ss c)
  | inr busy ↦ simp busy (release_alone m prev a e s n two ss busy c)
]
  where
    two : Pair a s.size n.size
    two =
        pair a s.size n.size e pos
          (omega (arith, Chain-le m.header _ (after (after a s) n) ss e c.1.1)) room

    join :
        n.free ≡ true
        → (ts : List Seg) → Chain m.header prev a (s ∷ n ∷ ts) e
        → Returns
            (λ _ m'. Holds m prev a (seg (s.size + (block_size + n.size)) true ∷ ts) e m')
            ((mark_free a >> merge_next a) m)
    join idle [] d = join_last m prev a e s n two idle d
    join idle (t ∷ ts) d = join_inner m prev a e s n two t ts idle d

-- A block with none in front of it stays as it is.
pub merge_prev_first :
    (m : Heap) (a e : ℕ) (s : Seg) (ss : List Seg)
    → 0 < a
    → Chain m.header 0 a (s ∷ ss) e
    → Returns (λ _ m'. m' ≡ m) (merge_prev a m)
unfolding merge_prev load
merge_prev_first m a e s ss pos c =
    let nz : (a == 0) ≡ false = ground arith in simp (nz, c.0) (returns refl)

module _ (m : Heap) (prev a e : ℕ) (s n : Seg) (p : Pair a s.size n.size) where
  open p use {sum, nz, next_nz, last_nz, next_away, last_away, last_next, self, behind}

  prev_busy :
      (ss : List Seg)
      → s.free ≡ false
      → Chain m.header prev a (s ∷ n ∷ ss) e
      → Returns (λ _ m'. m' ≡ m) (merge_prev (after a s) m)
  unfolding merge_prev load
  prev_busy ss busy c = simp (next_nz, c.1.0, nz, c.0, busy) (returns refl)

  prev_last :
      s.free ≡ true
      → Chain m.header prev a (s ∷ n ∷ []) e
      → Returns
          (λ _ m'. Holds m prev a (seg (s.size + (block_size + n.size)) true ∷ []) e m')
          (merge_prev (after a s) m)
  unfolding merge_prev load
  prev_last idle c =
      simp (next_nz, c.1.0, nz, c.0, idle, sum)
        (returns (record {
          chain = (ground arith, behind ∙ c.1.1);
          below = λ y lt. ground arith;
          head = refl;
          base = refl;
          total = refl;
          bytes = λ y. refl;
        }))

  prev_inner :
      (t : Seg) (ss : List Seg)
      → s.free ≡ true
      → Chain m.header prev a (s ∷ n ∷ t ∷ ss) e
      → Returns
          (λ _ m'. Holds m prev a (seg (s.size + (block_size + n.size)) true ∷ t ∷ ss) e m')
          (merge_prev (after a s) m)
  unfolding merge_prev load set_prev
  prev_inner t ss idle c =
      simp (next_nz, last_nz, last_away, c.1.0, nz, c.0, idle, sum, c.1.1.0)
        (returns (record {
          chain = (
            ground arith,
            relink _ a (after (after a s) n) _ t ss e behind (ground arith) (λ y lt. ground arith)
                c.1.1,
          );
          below = λ y lt. ground arith;
          head = refl;
          base = refl;
          total = refl;
          bytes = λ y. refl;
        }))

Holds-refl :
    (m : Heap) (prev a : ℕ) (ss : List Seg) (e : ℕ) (m' : Heap)
    → m' ≡ m
    → Chain m.header prev a ss e
    → Holds m prev a ss e m'
Holds-refl m prev a ss e m' same c = rw same (record {
  chain = c;
  below = λ y lt. refl;
  head = refl;
  base = refl;
  total = refl;
  bytes = λ y. refl;
})

-- The last step of `kfree`: the block in front, if it is free, takes the released one in.
pub merge_prev-absorb :
    (m : Heap) (prev a e : ℕ) (s n : Seg) (ss : List Seg)
    → 0 < a
    → e < 2 ^ 64
    → Chain m.header prev a (s ∷ n ∷ ss) e
    → Returns (λ _ m'. Holds m prev a (absorb_prev s (n ∷ ss)) e m') (merge_prev (after a s) m)
unfolding absorb_prev
merge_prev-absorb m prev a e s n ss pos room c = elim (Bool-cases s.free) [
  | inl idle ↦ simp idle (join idle ss c)
  | inr busy ↦ simp busy (
      mono (prev_busy m prev a e s n two ss busy c)
        λ _ m' same. Holds-refl m prev a (s ∷ n ∷ ss) e m' same c)
]
  where
    two : Pair a s.size n.size
    two =
        pair a s.size n.size e pos
          (omega (arith, Chain-le m.header _ (after (after a s) n) ss e c.1.1)) room

    join :
        s.free ≡ true
        → (ts : List Seg) → Chain m.header prev a (s ∷ n ∷ ts) e
        → Returns
            (λ _ m'. Holds m prev a (seg (s.size + (block_size + n.size)) true ∷ ts) e m')
            (merge_prev (after a s) m)
    join idle [] d = prev_last m prev a e s n two idle d
    join idle (t ∷ ts) d = prev_inner m prev a e s n two t ts idle d
