-- ===== src/Heap/Free.antt =====
-- `kfree` against the list of blocks.
use mathlib.Core.Path.{subst}
use hatcher.Base.{
  ℕ, ◌+◌, ◌^◌, ◌≤◌, ◌<◌, ◌≡◌, refl, sym, ◌∙◌, true, false, Option, some, List, [], ◌∷◌, arith, ◌==◌,
  ==_iff, Bool-cases, inl, inr, length,
}
use hatcher.Effect.{and_then_assoc, Returns, bind, mono, ok, ◌>>◌, Cmd}
use hatcher.Heap.{Block, Heap, block_size, sub64, mark_free, merge_next, merge_prev, kfree}
use hatcher.Heap.Spec.{Seg, after, absorb_next, absorb_prev, release, has_block}
use hatcher.Heap.Chain.{Chain, Chain-le, block, start}
use hatcher.Heap.Split.{Holds}
use hatcher.Heap.Malloc.{IsHeap, IsHeap-Holds, start-eq}
use hatcher.Heap.Merge.{merge_next-absorb, merge_prev-absorb, merge_prev_first}

Holds-trans :
    {m m₁ m₂ : Heap} {prev prev₁ a b : ℕ} {ss ts : List Seg} {e : ℕ}
    → b ≤ a
    → Holds m prev₁ a ss e m₁
    → Holds m₁ prev b ts e m₂
    → Holds m prev b ts e m₂
Holds-trans le h k = record {
  chain = k.chain;
  below = λ y lt. k.below y lt ∙ h.below y (omega arith);
  head = k.head ∙ h.head;
  base = k.base ∙ h.base;
  total = k.total ∙ h.total;
  bytes = λ y. k.bytes y ∙ h.bytes y;
}

-- What was done to the blocks behind the first one leaves that one linked to them.
Holds-cons :
    {m m' : Heap} {prev a : ℕ} {s : Seg} (ss : List Seg) {ts : List Seg} {e : ℕ}
    → start (after a s) ts ≡ start (after a s) ss
    → m.header a ≡ some (block s (start (after a s) ss) prev)
    → Holds m a (after a s) ts e m'
    → Holds m prev a (s ∷ ts) e m'
Holds-cons {a} ss same at h = record {
  chain = (rw same (h.below a (omega arith) ∙ at), h.chain);
  below = λ y lt. h.below y (omega arith);
  head = h.head;
  base = h.base;
  total = h.total;
  bytes = h.bytes;
}

start-absorb_next : (a n : ℕ) (ss : List Seg) → start a (absorb_next n ss) ≡ a
unfolding absorb_next
start-absorb_next a n [] = refl
start-absorb_next a n (s ∷ ss) = ground arith

start-absorb_prev : (a : ℕ) (s : Seg) (ss : List Seg) → start a (absorb_prev s ss) ≡ a
unfolding absorb_prev
start-absorb_prev a s [] = refl
start-absorb_prev a s (n ∷ ss) = ground arith

start-release : (p a : ℕ) (ss : List Seg) → start a (release p a ss) ≡ start a ss
unfolding release
start-release p a [] = refl
start-release p a (s ∷ ss) =
    ground (arith, start-absorb_next a s.size ss, start-absorb_prev a s (release p (after a s) ss))

le_of_has_block : (p a : ℕ) (ss : List Seg) → has_block p a ss ≡ true → a ≤ p
unfolding has_block
le_of_has_block p a [] h = cc
le_of_has_block p a (s ∷ ss) h = ground (arith, le_of_has_block p (after a s) ss)

-- `kfree` behind its test for NULL, at a block.
unjoin : ℕ → Cmd Heap (Unit {0})
unjoin p = (mark_free p >> merge_next p) >> merge_prev p

-- The block behind `s`, released and joined to the one behind it, is joined to `s`.
unjoin_second :
    (m m₁ : Heap) (prev a e : ℕ) (s : Seg) (ss ts : List Seg)
    → 0 < a
    → e < 2 ^ 64
    → start (after a s) ts ≡ start (after a s) ss
    → 0 < start (after a s) ts
    → m.header a ≡ some (block s (start (after a s) ss) prev)
    → Holds m a (after a s) ts e m₁
    → Returns (λ _ m'. Holds m prev a (absorb_prev s ts) e m') (merge_prev (after a s) m₁)
unjoin_second m m₁ prev a e s ss [] pos room same some_block at h = elim some_block [ ]
unjoin_second m m₁ prev a e s ss (t ∷ ts) pos room same some_block at h =
    let k = Holds-cons {prev = prev} ss same at h in
    mono (merge_prev-absorb m₁ prev a e s t ts pos room k.chain)
      λ _ m₂ h₂. Holds-trans (omega arith) k h₂

release_past :
    (p a : ℕ) (s : Seg) (ss : List Seg)
    → (a == p) ≡ false
    → (after a s == p) ≡ false
    → release p a (s ∷ ss) ≡ s ∷ release p (after a s) ss
unfolding release
release_past p a s ss past miss = simp (past, miss)

release_second :
    (a : ℕ) (s t : Seg) (ss : List Seg)
    → release (after a s) a (s ∷ t ∷ ss) ≡ absorb_prev s (absorb_next t.size ss)
unfolding release
release_second a s t ss =
    let past : (a == after a s) ≡ false = ground arith in
    let self : (after a s == after a s) ≡ true = ground arith in simp (past, self)

release_first : (a : ℕ) (s : Seg) (ss : List Seg) → release a a (s ∷ ss) ≡ absorb_next s.size ss
unfolding release
release_first a s ss = let self : (a == a) ≡ true = ground arith in simp self

-- A block that is not the first of its chain, released.
unjoin-release :
    (m : Heap) (p prev a e : ℕ) (s : Seg) (ss : List Seg)
    → 0 < a
    → e < 2 ^ 64
    → has_block p (after a s) ss ≡ true
    → Chain m.header prev a (s ∷ ss) e
    → Returns (λ _ m'. Holds m prev a (release p a (s ∷ ss)) e m') (unjoin p m)
unfolding has_block
unjoin-release m p prev a e s [] pos room mem c = cc
unjoin-release m p prev a e s (t ∷ ts) pos room mem c = elim (Bool-cases (after a s == p)) [
  | inl at ↦
      subst (λ q. Returns (λ _ m'. Holds m prev a (release q a (s ∷ t ∷ ts)) e m') (unjoin q m))
        ((==_iff _ _).0 at) second
  | inr miss ↦
      let past : (a == p) ≡ false = ground (arith, le_of_has_block p (after a s) (t ∷ ts) mem) in
      rw (release_past p a s (t ∷ ts) past miss) (
        mono (unjoin-release m p a (after a s) e t ts (omega arith) room (ground arith) c.1)
          λ _ m' h. Holds-cons (t ∷ ts) (start-release p (after a s) (t ∷ ts)) c.0 h)
]
  where
    second :
        Returns
          (λ _ m'. Holds m prev a (release (after a s) a (s ∷ t ∷ ts)) e m')
          (unjoin (after a s) m)
    second = rw release_second (
        unfold unjoin in
        bind (merge_next-absorb m a (after a s) e t ts (omega arith) room c.1) λ _ m₁ h.
          unjoin_second m m₁ prev a e s (t ∷ ts) (absorb_next t.size ts) pos room
            (start-absorb_next (after a s) t.size ts)
            (omega (arith, start-absorb_next (after a s) t.size ts)) c.0 h)

-- A block of the heap, the first one included.
unjoin_any :
    (m : Heap) (p a e : ℕ) (ss : List Seg)
    → 0 < a
    → e < 2 ^ 64
    → has_block p a ss ≡ true
    → Chain m.header 0 a ss e
    → Returns (λ _ m'. Holds m 0 a (release p a ss) e m') (unjoin p m)
unfolding has_block
unjoin_any m p a e [] pos room mem c = cc
unjoin_any m p a e (s ∷ ss) pos room mem c = elim (Bool-cases (a == p)) [
  | inl at ↦
      subst (λ q. Returns (λ _ m'. Holds m 0 a (release q a (s ∷ ss)) e m') (unjoin q m))
        ((==_iff _ _).0 at) first
  | inr miss ↦ unjoin-release m p 0 a e s ss pos room (ground arith) c
]
  where
    alone :
        (m₁ : Heap) (ts : List Seg)
        → start a ts ≡ a
        → Holds m 0 a ts e m₁
        → Returns (λ _ m'. Holds m 0 a ts e m') (merge_prev a m₁)
    alone m₁ [] some_block h = absurd (omega arith)
    alone m₁ (t ∷ ts) some_block h =
        mono (merge_prev_first m₁ a e t ts pos h.chain) λ _ m₂ same. rw same h

    first : Returns (λ _ m'. Holds m 0 a (release a a (s ∷ ss)) e m') (unjoin a m)
    first = rw release_first (
        unfold unjoin in
        bind (merge_next-absorb m 0 a e s ss pos room c)
          λ _ m₁ h. alone m₁ (absorb_next s.size ss) (start-absorb_next a s.size ss) h)

kfree-unjoin :
    (m : Heap) (p : ℕ) → 0 < p → p + block_size < 2 ^ 64 → kfree (p + block_size) m ≡ unjoin p m
unfolding kfree unjoin
kfree-unjoin m p pos room =
    let nz : (p + block_size == 0) ≡ false = ground arith in
    let back : sub64 (p + block_size) block_size ≡ p = omega arith in
    rw (nz, back) (sym (and_then_assoc (mark_free p m) (λ _. merge_next p) (λ _. merge_prev p)))

has_block-le :
    (h : ℕ → Option Block) (p prev a : ℕ) (ss : List Seg) (e : ℕ)
    → Chain h prev a ss e
    → has_block p a ss ≡ true
    → p + block_size ≤ e
unfolding has_block
has_block-le h p prev a [] e c mem = cc
has_block-le h p prev a (s ∷ ss) e c mem = elim (Bool-cases (a == p)) [
  | inl at ↦ omega (arith, (==_iff a p).0 at, Chain-le h a (after a s) ss e c.1)
  | inr miss ↦ has_block-le h p a (after a s) ss e c.1 (ground arith)
]

length_of_start : (a : ℕ) (ss : List Seg) → 0 < start a ss → 0 < length ss
length_of_start a [] h = h
length_of_start a (s ∷ ss) h = omega arith

-- `kfree` of the address behind a block's header ends, without a fault, in a heap in which that
-- block is released and joined to its free neighbours; it changes no byte behind a header. `kfree`
-- of NULL does nothing.
pub kfree-release :
    (m : Heap) (ss : List Seg) (p : ℕ)
    → IsHeap m ss
    → has_block p m.heap_base ss ≡ true
    → Returns
        (λ _ m'.
          IsHeap m' (release p m.heap_base ss)
          × (m'.heap_base ≡ m.heap_base)
          × (m'.heap_total_size ≡ m.heap_total_size)
          × ((y : ℕ) → m'.byte y ≡ m.byte y))
        (kfree (p + block_size) m)
      × (kfree 0 m ≡ ok tt m)
unfolding kfree
kfree-release m ss p v mem = (
  rw (kfree-unjoin m p (omega (arith, v.low, low)) (omega (arith, v.high, top))) (
      mono
        (unjoin_any m p m.heap_base (m.heap_base + m.heap_total_size) ss v.low v.high mem v.chain)
        λ _ m' h. (IsHeap-Holds v still h, h.base, h.total, h.bytes)),
  refl,
)
  where
    low : m.heap_base ≤ p
    low = le_of_has_block p m.heap_base ss mem

    top : p + block_size ≤ m.heap_base + m.heap_total_size
    top = has_block-le m.header p 0 m.heap_base ss _ v.chain mem

    still : 0 < length (release p m.heap_base ss)
    still =
        length_of_start m.heap_base (release p m.heap_base ss)
          (rw (start-release, start-eq m.heap_base ss v.nonempty) v.low)
