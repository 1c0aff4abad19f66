-- ===== src/Heap/Client.antt =====
-- What the callers of the allocator may rely on, for every heap that `heap_init` and the calls of
-- `kmalloc` and `kfree` lead to.
use mathlib.Core.Path.{subst}
use hatcher.Base.{
  sym, ℕ, ◌+◌, ◌-◌, ◌^◌, ◌%◌, ◌≤◌, ◌<◌, ◌≡◌, ◌≢◌, ◌↔◌, true, false, some, List, arith, All,
}
use hatcher.Effect.{Returns, at_end, mono, ok}
use hatcher.Heap.{Heap, block_size, align16, kmalloc, kfree}
use hatcher.Heap.Spec.{Seg, seg, fits, alloc, alloc_at, release, has_block}
use hatcher.Heap.Malloc.{IsHeap, kmalloc-alloc}
use hatcher.Heap.Free.{kfree-release}
use hatcher.Heap.Joined.{IsJoined, alloc-IsJoined, release-IsJoined, release-alloc}
use hatcher.Heap.Busy.{busy_blocks, Adds, alloc-Adds}
use hatcher.Heap.Blocks.{
  block_at, block_at-alloc, block_at-release_busy, alloc_at-eq-zero, has_block_of_block_at,
}

-- `ALIGN16` rounds a size up to the next multiple of 16; a size above 2^64 - 16 is rounded to 0, as
-- 0 is.
align16_lem :
    (size k : ℕ)
    → 0 < size
    → size ≤ 2 ^ 64 - 16
    → k < 15
    → (align16 size % 16 ≡ 0)
      × (size ≤ align16 size)
      × (align16 size < size + 16)
      × (align16 (2 ^ 64 - 15 + k) ≡ 0)
      × (align16 0 ≡ 0)
unfolding align16
align16_lem size k pos small below = omega arith

handed_out :
    {m m' : Heap} {ss : List Seg} (size p : ℕ)
    → IsHeap m ss
    → kmalloc size m ≡ ok (p + block_size) m'
    → (alloc_at (align16 size) m.heap_base ss ≡ p + block_size)
      × IsHeap m' (alloc (align16 size) ss)
      × (m'.heap_base ≡ m.heap_base)
handed_out {m} {m'} {ss} size p v e =
    let all = at_end _ (p + block_size) m' (kmalloc-alloc m ss size v) e in
    (sym all.0, all.1, all.2)

-- What a successful `kmalloc` hands out is the space behind the header of a block in use that holds
-- at least the rounded size, and where no block was in use before. The heap it leaves is well formed,
-- and its blocks in use, by address and size, are this one and those that were in use before.
pub kmalloc_in_use :
    {m m' : Heap} {ss : List Seg} (size p : ℕ)
    → IsHeap m ss
    → kmalloc size m ≡ ok (p + block_size) m'
    → (ts : List Seg) × (k : ℕ) × IsHeap m' ts
      × (align16 size ≤ k)
      × Adds p k (busy_blocks m.heap_base ss) (busy_blocks m'.heap_base ts)
kmalloc_in_use {m} {m'} {ss} size p v e =
    let (at, v', base) = handed_out size p v e in
    let (k, adds, le) = alloc-Adds (align16 size) p m.heap_base ss at in
    (alloc (align16 size) ss, k, v', le, rw base adds)

-- `kmalloc` returns NULL exactly when no free block holds the rounded size.
pub kmalloc-null :
    (m : Heap) (ss : List Seg) (size : ℕ)
    → IsHeap m ss
    → Returns (λ p m'. (p ≡ 0) ↔ All (λ s. fits (align16 size) s ≡ false) ss) (kmalloc size m)
kmalloc-null m ss size v =
    mono (kmalloc-alloc m ss size v)
      λ p m' r. rw r.0 (alloc_at-eq-zero (align16 size) m.heap_base ss)

-- A `kfree` right behind the `kmalloc` that handed the block out gives the blocks back as they were,
-- in a heap where no two free blocks lie side by side.
pub kfree-kmalloc :
    {m m' : Heap} {ss : List Seg} (size p : ℕ)
    → IsHeap m ss
    → IsJoined ss
    → kmalloc size m ≡ ok (p + block_size) m'
    → Returns (λ _ m''. IsHeap m'' ss) (kfree (p + block_size) m')
kfree-kmalloc {m} {m'} {ss} size p v j e =
    let (at, v', base) = handed_out size p v e in
    let (k, held, le) = block_at-alloc (align16 size) p m.heap_base ss at in
    let there = has_block_of_block_at p m.heap_base (alloc (align16 size) ss) held in
    mono (kfree-release m' (alloc (align16 size) ss) p v' (rw base there)).0 λ _ m'' r.
      subst (λ ts. IsHeap m'' ts) (rw base (release-alloc (align16 size) p m.heap_base ss j at)) r.0

-- `kfree` of one block leaves each other block that is in use at its address, with its size.
pub kfree_keeps :
    (m : Heap) (ss : List Seg) (p q j : ℕ)
    → IsHeap m ss
    → has_block p m.heap_base ss ≡ true
    → q ≢ p
    → block_at q m.heap_base ss ≡ some (seg j false)
    → Returns
        (λ _ m'.
          IsHeap m' (release p m.heap_base ss)
          × (block_at q m'.heap_base (release p m.heap_base ss) ≡ some (seg j false)))
        (kfree (p + block_size) m)
kfree_keeps m ss p q j v mem ne old =
    mono (kfree-release m ss p v mem).0
      λ _ m' r. (r.0, rw r.1 (block_at-release_busy p q j m.heap_base ss ne old))

-- Neither `kmalloc` nor `kfree` leaves two free blocks side by side, where there were none.
pub heap_stays-IsJoined :
    (m : Heap) (ss : List Seg) (size p : ℕ)
    → IsHeap m ss
    → IsJoined ss
    → has_block p m.heap_base ss ≡ true
    → Returns (λ _ m'. (ts : List Seg) × IsHeap m' ts × IsJoined ts) (kmalloc size m)
      × Returns (λ _ m'. (ts : List Seg) × IsHeap m' ts × IsJoined ts) (kfree (p + block_size) m)
heap_stays-IsJoined m ss size p v j mem = (
  mono (kmalloc-alloc m ss size v)
      λ _ m' r. (alloc (align16 size) ss, r.1, alloc-IsJoined (align16 size) ss j),
  mono (kfree-release m ss p v mem).0
      λ _ m' r. (release p m.heap_base ss, r.0, release-IsJoined p m.heap_base ss j),
)
