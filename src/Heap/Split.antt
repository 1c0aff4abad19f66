-- ===== src/Heap/Split.antt =====
-- `split_block`, and the block that `kmalloc` takes.
use hatcher.Base.{
  ℕ, ◌+◌, ◌^◌, ◌≤◌, ◌<◌, ◌≡◌, refl, ◌-◌, false, true, false, List, [], ◌∷◌, arith, ◌==◌, ltb, u64,
  ltb→lt, Bool-cases, inl, inr,
}
use hatcher.Effect.{Returns, returns}
use hatcher.Heap.{Heap, block_size, sub64, load, set_prev, take_block}
use hatcher.Heap.Spec.{Seg, seg, after, place, fits}
use hatcher.Heap.Chain.{Chain, Chain-le, frame-update, relink}

-- The heap after a call: the blocks `ss` from `a` to `e`, and below `a` what was there before.
pub record Holds (m : Heap) (prev a : ℕ) (ss : List Seg) (e : ℕ) (m' : Heap) : Type 0 where
  pub chain : Chain m'.header prev a ss e
  pub below : (y : ℕ) → y < a → m'.header y ≡ m.header y
  pub head : m'.heap_head ≡ m.heap_head
  pub base : m'.heap_base ≡ m.heap_base
  pub total : m'.heap_total_size ≡ m.heap_total_size
  pub bytes : (y : ℕ) → m'.byte y ≡ m.byte y

-- The sums that `split_block` makes for a block at `a`, with `next` behind it, and what they say of
-- the addresses that it writes to.
record Sums (a n size : ℕ) : Type 0 where
  small : u64 (n + block_size) ≡ n + block_size
  out : u64 (a + block_size) ≡ a + block_size
  new : u64 (a + block_size + n) ≡ a + block_size + n
  rest : sub64 (sub64 size n) block_size ≡ size - n - block_size
  behind : a + block_size + n + block_size + (size - n - block_size) ≡ a + block_size + size
  nz : (a == 0) ≡ false
  next_nz : (a + block_size + size == 0) ≡ false
  away : (a == (a + block_size + n)) ≡ false
  next_away : (a + block_size + size == (a + block_size + n)) ≡ false
  next_ahead : (a == (a + block_size + size)) ≡ false
  self : (a == a) ≡ true

sums :
    (a n size e : ℕ)
    → 0 < a
    → a + block_size + size ≤ e
    → e < 2 ^ 64
    → n + block_size < size
    → Sums a n size
sums a n size e pos fit room lt = record {
  small = omega arith;
  out = omega arith;
  new = omega arith;
  rest = omega arith;
  behind = omega arith;
  nz = ground arith;
  next_nz = ground arith;
  away = ground arith;
  next_away = ground arith;
  next_ahead = ground arith;
  self = ground arith;
}

split_last :
    (m : Heap) (n prev a size e : ℕ)
    → Sums a n size
    → ltb (n + block_size) size ≡ true
    → Chain m.header prev a (seg size true ∷ []) e
    → Returns
        (λ p m'.
          (p ≡ a + block_size)
          × Holds m prev a (seg n false ∷ seg (size - n - block_size) true ∷ []) e m')
        (take_block n a m)
unfolding take_block load
split_last m n prev a size e s cut c =
    simp (small, cut, out, new, rest, nz, away, self, c.0)
      (returns (
        refl,
        record {
          chain = (rw self, (ground arith, omega arith));
          below = λ y lt. ground arith;
          head = refl;
          base = refl;
          total = refl;
          bytes = λ y. refl;
        },
      ))
  where
    open s use {small, out, new, rest, behind, nz, away, self}

split_inner :
    (m : Heap) (n prev a size e : ℕ) (t : Seg) (ss : List Seg)
    → Sums a n size
    → ltb (n + block_size) size ≡ true
    → Chain m.header prev a (seg size true ∷ t ∷ ss) e
    → Returns
        (λ p m'.
          (p ≡ a + block_size)
          × Holds m prev a (seg n false ∷ seg (size - n - block_size) true ∷ t ∷ ss) e m')
        (take_block n a m)
unfolding take_block load set_prev
split_inner m n prev a size e t ss s cut c =
    simp (small, cut, out, new, rest, nz, next_nz, away, next_away, next_ahead, self, c.0, c.1.0)
      (returns (
        refl,
        record {
          chain = (
            rw self,
            (
              ground arith,
              relink a (a + block_size + n) (a + block_size + size) _ t ss e behind (ground arith)
                  (λ y lt. ground arith) c.1,
            ),
          );
          below = λ y lt. ground arith;
          head = refl;
          base = refl;
          total = refl;
          bytes = λ y. refl;
        },
      ))
  where
    open s use {small, out, new, rest, behind, nz, next_nz, away, next_away, next_ahead, self}

take_whole :
    (m : Heap) (n prev a size e : ℕ) (ss : List Seg)
    → (u64 (n + block_size) ≡ n + block_size) × (u64 (a + block_size) ≡ a + block_size)
    → 0 < a
    → ltb (n + block_size) size ≡ false
    → Chain m.header prev a (seg size true ∷ ss) e
    → Returns
        (λ p m'. (p ≡ a + block_size) × Holds m prev a (seg size false ∷ ss) e m')
        (take_block n a m)
unfolding take_block load
take_whole m n prev a size e ss sums pos cut c =
    let nz : (a == 0) ≡ false = ground arith in
    let self : (a == a) ≡ true = ground arith in
    simp (sums.0, sums.1, cut, nz, c.0)
      (returns (
        refl,
        record {
          chain = (rw self, frame-update m.header a _ a _ ss e (omega arith) c.1);
          below = λ y lt. ground arith;
          head = refl;
          base = refl;
          total = refl;
          bytes = λ y. refl;
        },
      ))

-- A free block of at least `n` bytes is taken as `place` says: its header and the one that is cut
-- off are all that changes, and what is handed out is the address behind its header.
pub take_block-place :
    (m : Heap) (n prev a e : ℕ) (s : Seg) (ss : List Seg)
    → 0 < a
    → e < 2 ^ 64
    → fits n s ≡ true
    → Chain m.header prev a (s ∷ ss) e
    → Returns
        (λ p m'. (p ≡ a + block_size) × Holds m prev a (place n s.size ss) e m')
        (take_block n a m)
unfolding place
take_block-place m n prev a e s ss pos room fit c =
    elim (Bool-cases (ltb (n + block_size) s.size)) [
      | inl cut ↦ rw cut (split cut ss c')
      | inr keep ↦ rw keep (
          take_whole m n prev a s.size e ss (omega (arith, behind, le), omega (arith, behind)) pos
            keep c')
    ]
  where
    behind : after a s ≤ e
    behind = omega (arith, Chain-le m.header a (after a s) ss e c.1)

    le : n ≤ s.size
    le = ground arith

    c' : Chain m.header prev a (seg s.size true ∷ ss) e
    c' = (ground arith, c.1)

    split :
        ltb (n + block_size) s.size ≡ true
        → (ts : List Seg) → Chain m.header prev a (seg s.size true ∷ ts) e
        → Returns
            (λ p m'.
              (p ≡ a + block_size)
              × Holds m prev a (seg n false ∷ seg (s.size - n - block_size) true ∷ ts) e m')
            (take_block n a m)
    split cut [] d =
        split_last m n prev a s.size e (sums a n s.size e pos behind room (ltb→lt _ _ cut)) cut d
    split cut (t ∷ ts) d =
        split_inner m n prev a s.size e t ts (sums a n s.size e pos behind room (ltb→lt _ _ cut))
          cut d
