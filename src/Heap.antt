-- ===== src/Heap.antt =====
-- mem/heap.c, the kernel's allocator: a doubly linked list of block headers inside the heap.
-- The headers are a map from addresses to `heap_block_t`, and the bytes that callers own a map of
-- their own. A header is read where one was written: any other read is a fault.
pub mod Chain
pub mod Spec
pub mod Split
pub mod Malloc
pub mod Merge
pub mod Free
pub mod Account
pub mod Joined
pub mod Blocks
pub mod Busy
pub mod Client
mod Tests
pub use hatcher.Base.{update}
use hatcher.Base.{
  ℕ, zero, suc, ◌+◌, ◌-◌, ◌*◌, ◌/◌, ◌^◌, Bool, true, false, Option, none, some, ◌&&◌, ◌==◌, leb,
  ltb, if◌then◌else◌, u64,
}
use hatcher.Effect.{Cmd, ok, fault, out_of_fuel, pure, ◌>>=◌, ◌>>◌}

-- `heap_block_t`
pub record Block : Type 0 where
  pub size : ℕ
  pub free : Bool
  pub next : ℕ
  pub prev : ℕ

-- The static variables, the block headers and the bytes of memory.
pub record Heap : Type 0 where
  pub heap_head : ℕ
  pub heap_base : ℕ
  pub heap_total_size : ℕ
  pub header : ℕ → Option Block
  pub byte : ℕ → ℕ

-- `size_t` subtraction
abbrev pub sub64 : ℕ → ℕ → ℕ
sub64 a b = u64 (a + 2 ^ 64 - b)

-- `ALIGN16`, at a `size_t`
unfoldable pub align16 : ℕ → ℕ
align16 x = u64 (sub64 x 1 / 16 * 16 + 16)

-- `BLOCK_SIZE`, `ALIGN16(sizeof(heap_block_t))`
abbrev pub block_size : ℕ
block_size = 32

unfoldable pub load : ℕ → Cmd Heap Block
load p m = if p == 0 then fault else elim (m.header p) [ none ↦ fault | some b ↦ ok b m ]

abbrev pub store : ℕ → Block → Cmd Heap (Unit {0})
store p b m = ok tt (record m { header = update m.header p (some b) })

-- `p->prev = q`
unfoldable pub set_prev : ℕ → ℕ → Cmd Heap (Unit {0})
unfolding load
set_prev p q = do n ← load p; store p (record n { prev = q })

unfoldable pub heap_init : ℕ → ℕ → Cmd Heap (Unit {0})
heap_init heap_start heap_size m =
    store heap_start (record { size = sub64 heap_size block_size; free = true; next = 0; prev = 0 })
      (record m { heap_base = heap_start; heap_total_size = heap_size; heap_head = heap_start })

unfoldable pub split_block : ℕ → ℕ → Cmd Heap (Unit {0})
unfolding load set_prev
split_block block size = do
  b ← load block
  if ltb (u64 (size + block_size)) b.size
      then (do
        let new_block = u64 (u64 (block + block_size) + size)
        store new_block (record {
          size = sub64 (sub64 b.size size) block_size;
          free = true;
          next = b.next;
          prev = block;
        })
        if b.next == 0 then pure tt else set_prev b.next new_block
        b' ← load block
        store block (record b' { size = size; next = new_block }))
      else pure tt

-- What `kmalloc` does with the block that it has found.
unfoldable pub take_block : ℕ → ℕ → Cmd Heap ℕ
unfolding load split_block
take_block size curr = do
  split_block curr size
  b' ← load curr
  store curr (record b' { free = false })
  pure (u64 (curr + block_size))

unfoldable pub malloc_loop : ℕ → ℕ → ℕ → Cmd Heap ℕ
unfolding load take_block
malloc_loop zero size curr = λ _. out_of_fuel
malloc_loop (suc k) size curr = if curr == 0 then pure 0 else do
  b ← load curr
  if b.free && leb size b.size then take_block size curr else malloc_loop k size b.next

-- The walk is given a round for each byte of the heap, and one more.
unfoldable pub kmalloc : ℕ → Cmd Heap ℕ
unfolding malloc_loop align16
kmalloc size m = malloc_loop (suc m.heap_total_size) (align16 size) m.heap_head m

-- The first `if` of `kfree`: the block absorbs the one after it.
unfoldable pub merge_next : ℕ → Cmd Heap (Unit {0})
unfolding load set_prev
merge_next block = do
  b ← load block
  if b.next == 0 then pure tt else do
    n ← load b.next
    if n.free
        then (do
          store block (record b { size = u64 (b.size + u64 (block_size + n.size)); next = n.next })
          if n.next == 0 then pure tt else set_prev n.next block)
        else pure tt

-- The second `if` of `kfree`: the block before it absorbs the block.
unfoldable pub merge_prev : ℕ → Cmd Heap (Unit {0})
unfolding load set_prev
merge_prev block = do
  b ← load block
  if b.prev == 0 then pure tt else do
    p ← load b.prev
    if p.free
        then (do
          store b.prev (record p { size = u64 (p.size + u64 (block_size + b.size)); next = b.next })
          if b.next == 0 then pure tt else set_prev b.next b.prev)
        else pure tt

-- `block->free = 1`
unfoldable pub mark_free : ℕ → Cmd Heap (Unit {0})
unfolding load
mark_free block = do b ← load block; store block (record b { free = true })

unfoldable pub kfree : ℕ → Cmd Heap (Unit {0})
unfolding mark_free merge_next merge_prev
kfree ptr =
    if ptr == 0
    then pure tt
    else do let block = sub64 ptr block_size; mark_free block; merge_next block; merge_prev block

-- `for (i = 0; i < n; ++i) dst[i] = src[i]`
unfoldable pub copy_bytes : ℕ → ℕ → ℕ → ℕ → (ℕ → ℕ) → ℕ → ℕ
copy_bytes zero i dst src f = f
copy_bytes (suc n) i dst src f = copy_bytes n (i + 1) dst src (update f (dst + i) (f (src + i)))

-- `for (i = 0; i < n; ++i) dst[i] = 0`
unfoldable pub zero_bytes : ℕ → ℕ → ℕ → (ℕ → ℕ) → ℕ → ℕ
zero_bytes zero i dst f = f
zero_bytes (suc n) i dst f = zero_bytes n (i + 1) dst (update f (dst + i) 0)

unfoldable pub krealloc : ℕ → ℕ → Cmd Heap ℕ
unfolding kmalloc kfree load copy_bytes
krealloc ptr size = if ptr == 0 then kmalloc size else do
  b ← load (sub64 ptr block_size)
  if leb size b.size then pure ptr else do
    newptr ← kmalloc size
    if newptr == 0 then pure 0 else do
      b' ← load (sub64 ptr block_size)
      (λ m. ok tt (record m { byte = copy_bytes b'.size 0 newptr ptr m.byte }))
      kfree ptr
      pure newptr

unfoldable pub kcalloc : ℕ → ℕ → Cmd Heap ℕ
unfolding kmalloc zero_bytes
kcalloc nmemb size = do
  let total = u64 (nmemb * size)
  ptr ← kmalloc total
  if ptr == 0
      then pure 0
      else do (λ m. ok tt (record m { byte = zero_bytes total 0 ptr m.byte })); pure ptr

-- The loops of `heap_used` and `heap_free`; `wanted` is the `free` field of the blocks they count.
unfoldable pub sum_loop : Bool → ℕ → ℕ → ℕ → Cmd Heap ℕ
unfolding load
sum_loop wanted zero curr acc = λ _. out_of_fuel
sum_loop wanted (suc k) curr acc = if curr == 0 then pure acc else do
  b ← load curr
  sum_loop wanted k b.next (
      u64
        (acc + (if b.free then (if wanted then b.size else 0) else (if wanted then 0 else b.size))))

unfoldable pub heap_used : Cmd Heap ℕ
unfolding sum_loop
heap_used m = sum_loop false (suc m.heap_total_size) m.heap_head 0 m

unfoldable pub heap_free : Cmd Heap ℕ
unfolding sum_loop
heap_free m = sum_loop true (suc m.heap_total_size) m.heap_head 0 m

unfoldable pub heap_total : Heap → ℕ
heap_total m = m.heap_total_size
