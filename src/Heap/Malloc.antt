-- ===== src/Heap/Malloc.antt =====
-- `heap_init` and `kmalloc` against the list of blocks.
use hatcher.Base.{
  ℕ, zero, suc, ◌+◌, ◌-◌, ◌^◌, ◌≤◌, ◌<◌, ◌≡◌, refl, sym, ◌∙◌, true, false, List, [], ◌∷◌, arith,
  ◌==◌, Bool-cases, inl, inr, length,
}
use mathlib.Core.Path.{subst}
use hatcher.Effect.{Returns, returns, mono}
use hatcher.Heap.{Heap, block_size, align16, heap_init, malloc_loop, kmalloc}
use hatcher.Heap.Spec.{Seg, seg, after, fits, place, alloc, alloc_at}
use hatcher.Heap.Chain.{Chain, Chain-le, start, load-ok}
use hatcher.Heap.Split.{Holds, take_block-place}

-- The blocks of the heap are `ss`: they fill it from its base to its end.
pub record IsHeap (m : Heap) (ss : List Seg) : Type 0 where
  pub chain : Chain m.header 0 m.heap_base ss (m.heap_base + m.heap_total_size)
  pub head : m.heap_head ≡ m.heap_base
  pub nonempty : 0 < length ss
  pub low : 0 < m.heap_base
  pub high : m.heap_base + m.heap_total_size < 2 ^ 64

-- `heap_init` makes one free block of the whole region.
pub heap_init-IsHeap :
    (m : Heap) (heap_start heap_size : ℕ)
    → 0 < heap_start
    → block_size ≤ heap_size
    → heap_start + heap_size < 2 ^ 64
    → Returns
        (λ _ m'.
          IsHeap m' (seg (heap_size - block_size) true ∷ [])
          × (m'.heap_base ≡ heap_start)
          × (m'.heap_total_size ≡ heap_size))
        (heap_init heap_start heap_size m)
unfolding heap_init
heap_init-IsHeap m heap_start heap_size pos room high = returns (
  record {
    chain = (ground arith, omega arith);
    head = refl;
    nonempty = omega arith;
    low = pos;
    high = high;
  },
  refl,
  refl,
)

start-place : (n size a : ℕ) (ss : List Seg) → start a (place n size ss) ≡ a
unfolding place
start-place n size a ss = ground arith

start-alloc : (n a : ℕ) (ss : List Seg) → start a (alloc n ss) ≡ start a ss
unfolding alloc
start-alloc n a [] = refl
start-alloc n a (s ∷ ss) = ground (arith, start-place n s.size a ss)

-- What a call of the allocator has done to the blocks `ss` from `a` to `e`.
abbrev Allocated : Heap → ℕ → ℕ → ℕ → List Seg → ℕ → ℕ → Heap → Type 0
Allocated m n prev a ss e p m' = (p ≡ alloc_at n a ss) × Holds m prev a (alloc n ss) e m'

malloc_loop-alloc :
    (k : ℕ) (m : Heap) (n prev a : ℕ) (ss : List Seg) (e : ℕ)
    → 0 < a
    → e < 2 ^ 64
    → length ss < k
    → Chain m.header prev a ss e
    → Returns (Allocated m n prev a ss e) (malloc_loop k n (start a ss) m)
unfolding malloc_loop alloc alloc_at
malloc_loop-alloc zero m n prev a ss e pos room fuel c = elim fuel [ ]
malloc_loop-alloc (suc k) m n prev a [] e pos room fuel c = returns (
  refl,
  record {
    chain = c;
    below = λ y lt. refl;
    head = refl;
    base = refl;
    total = refl;
    bytes = λ y. refl;
  },
)
malloc_loop-alloc (suc k) m n prev a (s ∷ ss) e pos room fuel c =
    let nz : (a == 0) ≡ false = ground arith in
    rw (nz, load-ok m (omega arith) c.0)
      (elim (Bool-cases (fits n s)) [
        | inl fit ↦ rw fit (
            mono (take_block-place m n prev a e s ss pos room fit c)
              λ p m' (at, h). (rw fit at, rw fit h))
        | inr miss ↦ rw miss (
            mono (malloc_loop-alloc k m n a (after a s) ss e (omega arith) room (omega arith) c.1)
              λ p m' (at, h). (rw miss at, rw miss (keep m' h)))
      ])
  where
    -- The block at `a` is passed over, and still points at the blocks behind it.
    keep :
        (m' : Heap) → Holds m a (after a s) (alloc n ss) e m' → Holds m prev a (s ∷ alloc n ss) e m'
    keep m' h = record {
      chain = (rw start-alloc (h.below a (omega arith) ∙ c.0), h.chain);
      below = λ y lt. h.below y (omega arith);
      head = h.head;
      base = h.base;
      total = h.total;
      bytes = h.bytes;
    }

length-alloc : (n : ℕ) (ss : List Seg) → length ss ≤ length (alloc n ss)
unfolding alloc place
length-alloc n [] = omega arith
length-alloc n (s ∷ ss) = ground (arith, length-alloc n ss)

pub IsHeap-fuel : {m : Heap} {ss : List Seg} → IsHeap m ss → length ss < suc m.heap_total_size
IsHeap-fuel {m} {ss} v = omega (arith, Chain-le m.header 0 m.heap_base ss _ v.chain)

pub start-eq : (a : ℕ) (ss : List Seg) → 0 < length ss → start a ss ≡ a
start-eq a [] h = elim h [ ]
start-eq a (s ∷ ss) h = refl

pub IsHeap-Holds :
    {m m' : Heap} {ss ts : List Seg}
    → IsHeap m ss
    → 0 < length ts
    → Holds m 0 m.heap_base ts (m.heap_base + m.heap_total_size) m'
    → IsHeap m' ts
IsHeap-Holds v some_block h = record {
  chain = rw (h.base, h.total) h.chain;
  head = h.head ∙ v.head ∙ sym h.base;
  nonempty = some_block;
  low = rw h.base v.low;
  high = rw (h.base, h.total) v.high;
}

-- `kmalloc` ends, without a fault, in a heap whose blocks are those of the first-fit search for the
-- rounded size; it returns the address that the search hands out, which is NULL if nothing fits, and
-- changes no byte behind a header.
pub kmalloc-alloc :
    (m : Heap) (ss : List Seg) (size : ℕ)
    → IsHeap m ss
    → Returns
        (λ p m'.
          (p ≡ alloc_at (align16 size) m.heap_base ss)
          × IsHeap m' (alloc (align16 size) ss)
          × (m'.heap_base ≡ m.heap_base)
          × (m'.heap_total_size ≡ m.heap_total_size)
          × ((y : ℕ) → m'.byte y ≡ m.byte y))
        (kmalloc size m)
unfolding kmalloc
kmalloc-alloc m ss size v =
    mono
      (subst
        (λ p.
          Returns (Allocated m n 0 m.heap_base ss (m.heap_base + m.heap_total_size))
            (malloc_loop (suc m.heap_total_size) n p m))
        (sym first)
        (malloc_loop-alloc (suc m.heap_total_size) m n 0 m.heap_base ss _ v.low v.high
          (IsHeap-fuel v) v.chain))
      λ p m' (at, h). (
        at,
        IsHeap-Holds v (omega (arith, length-alloc n ss, v.nonempty)) h,
        h.base,
        h.total,
        h.bytes,
      )
  where
    n : ℕ
    n = align16 size

    first : m.heap_head ≡ start m.heap_base ss
    first = v.head ∙ sym (start-eq m.heap_base ss v.nonempty)
