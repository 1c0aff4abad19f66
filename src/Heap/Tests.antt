-- ===== src/Heap/Tests.antt =====
-- The allocator on a heap of 1024 bytes at 0x1000, and its theorems there.
use hatcher.Base.{
  ℕ, ◌+◌, ◌-◌, ◌^◌, ◌≤◌, ◌≡◌, refl, Bool, true, false, none, some, List, [], ◌∷◌, arith,
}
use hatcher.Effect.{Returns, ok}
use hatcher.Heap.{Block, Heap, update, block_size, align16, kmalloc, kfree}
use hatcher.Heap.Spec.{Seg, seg, alloc, alloc_at, release, has_block, absorb_next}
use hatcher.Heap.Malloc.{IsHeap, kmalloc-alloc}
use hatcher.Heap.Free.{kfree-release}
use hatcher.Heap.Joined.{IsJoined}
use hatcher.Heap.Busy.{busy_blocks, Adds}
use hatcher.Heap.Blocks.{block_at}
use hatcher.Heap.Client.{kmalloc_in_use, kfree-kmalloc, kfree_keeps, heap_stays-IsJoined}

abbrev header : ℕ → Bool → ℕ → ℕ → Block
header size free next prev = record { size = size; free = free; next = next; prev = prev }

abbrev empty : Heap
empty = record {
  heap_head = 0;
  heap_base = 0;
  heap_total_size = 0;
  header = λ _. none;
  byte = λ _. 0;
}

-- After `heap_init(0x1000, 1024)`.
abbrev fresh : Heap
fresh = record {
  heap_head = 0x1000;
  heap_base = 0x1000;
  heap_total_size = 1024;
  header = update (λ _. none) 0x1000 (some (header 992 true 0 0));
  byte = λ _. 0;
}

fresh-IsHeap : IsHeap fresh (seg 992 true ∷ [])
fresh-IsHeap = record {
  chain = (refl, refl);
  head = refl;
  nonempty = omega arith;
  low = omega arith;
  high = omega arith;
}

-- Three blocks: one in use, a free one, one in use.
abbrev three : List Seg
three = seg 112 false ∷ seg 64 true ∷ seg 752 false ∷ []

abbrev busy : Heap
busy = record fresh {
  header =
      update
        (update (update (λ _. none) 0x1000 (some (header 112 false 4240 0))) 4240
          (some (header 64 true 4336 0x1000)))
        4336 (some (header 752 false 0 4240));
}

busy-IsHeap : IsHeap busy three
busy-IsHeap = record {
  chain = (refl, (refl, (refl, refl)));
  head = refl;
  nonempty = omega arith;
  low = omega arith;
  high = omega arith;
}

-- After `kmalloc(60)`, which takes the free block whole.
abbrev full : Heap
full = record busy { header = update busy.header 4240 (some (header 64 false 4336 0x1000)) }

kmalloc-busy : kmalloc 60 busy ≡ ok (4240 + block_size) full
unfolding kmalloc
kmalloc-busy = refl

kmalloc-alloc_example :
    Returns
      (λ p m'.
        (p ≡ alloc_at (align16 60) busy.heap_base three)
        × IsHeap m' (alloc (align16 60) three)
        × (m'.heap_base ≡ busy.heap_base)
        × (m'.heap_total_size ≡ busy.heap_total_size)
        × ((y : ℕ) → m'.byte y ≡ busy.byte y))
      (kmalloc 60 busy)
kmalloc-alloc_example = kmalloc-alloc busy three 60 busy-IsHeap

kfree-release_example :
    Returns
      (λ _ m'.
        IsHeap m' (release 0x1000 busy.heap_base three)
        × (m'.heap_base ≡ busy.heap_base)
        × (m'.heap_total_size ≡ busy.heap_total_size)
        × ((y : ℕ) → m'.byte y ≡ busy.byte y))
      (kfree (0x1000 + block_size) busy)
    × (kfree 0 busy ≡ ok tt busy)
unfolding has_block
kfree-release_example = kfree-release busy three 0x1000 busy-IsHeap refl

kfree_joins : release 0x1000 0x1000 three ≡ seg 208 true ∷ seg 752 false ∷ []
unfolding release absorb_next
kfree_joins = refl

kmalloc_in_use_example :
    (ts : List Seg) × (k : ℕ) × IsHeap full ts
    × (align16 60 ≤ k)
    × Adds 4240 k (busy_blocks busy.heap_base three) (busy_blocks full.heap_base ts)
kmalloc_in_use_example = kmalloc_in_use 60 4240 busy-IsHeap kmalloc-busy

kfree-kmalloc_example : Returns (λ _ m''. IsHeap m'' three) (kfree (4240 + block_size) full)
kfree-kmalloc_example = kfree-kmalloc 60 4240 busy-IsHeap (refl, (refl, (refl, tt))) kmalloc-busy

kfree_keeps_example :
    Returns
      (λ _ m'.
        IsHeap m' (release 0x1000 busy.heap_base three)
        × (block_at 4336 m'.heap_base (release 0x1000 busy.heap_base three) ≡ some (seg 752 false)))
      (kfree (0x1000 + block_size) busy)
unfolding has_block
kfree_keeps_example = kfree_keeps busy three 0x1000 4336 752 busy-IsHeap refl (omega arith) refl

heap_stays-IsJoined_example :
    Returns (λ _ m'. (ts : List Seg) × IsHeap m' ts × IsJoined ts) (kmalloc 60 busy)
    × Returns
        (λ _ m'. (ts : List Seg) × IsHeap m' ts × IsJoined ts)
        (kfree (0x1000 + block_size) busy)
unfolding has_block
heap_stays-IsJoined_example =
    heap_stays-IsJoined busy three 60 0x1000 busy-IsHeap (refl, (refl, (refl, tt))) refl

-- A request for 2^64 - 1 bytes is granted, with a block of no bytes.
kmalloc_huge : alloc_at (align16 (2 ^ 64 - 1)) 0x1000 three ≡ 4240 + block_size
unfolding align16 alloc_at
kmalloc_huge = refl
