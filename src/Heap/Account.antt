-- ===== src/Heap/Account.antt =====
-- `heap_used` and `heap_free`: what they sum up, and that no byte of the heap is lost.
use mathlib.Core.Path.{subst}
use hatcher.Base.{
  ℕ, zero, suc, ◌+◌, ◌*◌, ◌^◌, ◌≤◌, ◌<◌, ◌≡◌, sym, ap, ◌∙◌, Bool, true, false, Option, List, [],
  ◌∷◌, arith, ◌==◌, u64, length, if◌then◌else◌,
}
use hatcher.Effect.{ok}
use hatcher.Heap.{Block, Heap, block_size, sum_loop, heap_used, heap_free, heap_total}
use hatcher.Heap.Spec.{Seg, after, bytes_in}
use hatcher.Heap.Chain.{Chain, start, load-ok}
use hatcher.Heap.Malloc.{IsHeap, IsHeap-fuel, start-eq}

abbrev counted : Bool → Seg → ℕ
counted wanted s = if s.free then (if wanted then s.size else 0) else (if wanted then 0 else s.size)

bytes_in-le :
    (h : ℕ → Option Block) (wanted : Bool) (prev a : ℕ) (ss : List Seg) (e : ℕ)
    → Chain h prev a ss e
    → a + bytes_in wanted ss ≤ e
unfolding bytes_in
bytes_in-le h wanted prev a [] e c = omega arith
bytes_in-le h wanted prev a (s ∷ ss) e c =
    ground (arith, bytes_in-le h wanted a (after a s) ss e c.1)

sum_loop-bytes_in :
    (k : ℕ) (m : Heap) (wanted : Bool) (prev a acc : ℕ) (ss : List Seg) (e : ℕ)
    → 0 < a
    → length ss < k
    → acc + bytes_in wanted ss < 2 ^ 64
    → Chain m.header prev a ss e
    → sum_loop wanted k (start a ss) acc m ≡ ok (acc + bytes_in wanted ss) m
unfolding sum_loop bytes_in
sum_loop-bytes_in zero m wanted prev a acc ss e pos fuel small c = elim fuel [ ]
sum_loop-bytes_in (suc k) m wanted prev a acc [] e pos fuel small c = ap (λ n. ok n m) (omega arith)
sum_loop-bytes_in (suc k) m wanted prev a acc (s ∷ ss) e pos fuel small c =
    let nz : (a == 0) ≡ false = ground arith in
    let sum : u64 (acc + counted wanted s) ≡ acc + counted wanted s = omega arith in
    rw (nz, load-ok m (omega arith) c.0, sum)
      (sum_loop-bytes_in k m wanted a (after a s) (acc + counted wanted s) ss e (omega arith)
          (omega arith) (omega arith) c.1
        ∙ ap (λ n. ok n m) (omega arith))

bytes_in_total :
    (h : ℕ → Option Block) (prev a : ℕ) (ss : List Seg) (e : ℕ)
    → Chain h prev a ss e
    → a + bytes_in false ss + bytes_in true ss + block_size * length ss ≡ e
unfolding bytes_in
bytes_in_total h prev a [] e c = omega arith
bytes_in_total h prev a (s ∷ ss) e c = ground (arith, bytes_in_total h a (after a s) ss e c.1)

-- `heap_used` and `heap_free` return the bytes of the blocks in use and of the free ones, and leave
-- the heap as it is; with a header for each block these make up the `heap_total` bytes.
pub heap_used-add-heap_free :
    (m : Heap) (ss : List Seg)
    → IsHeap m ss
    → (heap_used m ≡ ok (bytes_in false ss) m)
      × (heap_free m ≡ ok (bytes_in true ss) m)
      × (bytes_in false ss + bytes_in true ss + block_size * length ss ≡ heap_total m)
unfolding heap_used heap_free heap_total
heap_used-add-heap_free m ss v =
    (count false, count true, omega (arith, bytes_in_total m.header 0 m.heap_base ss _ v.chain))
  where
    count :
        (wanted : Bool)
        → sum_loop wanted (suc m.heap_total_size) m.heap_head 0 m ≡ ok (bytes_in wanted ss) m
    count wanted =
        subst (λ p. sum_loop wanted (suc m.heap_total_size) p 0 m ≡ ok (bytes_in wanted ss) m)
          (sym (v.head ∙ sym (start-eq m.heap_base ss v.nonempty)))
          (sum_loop-bytes_in (suc m.heap_total_size) m wanted 0 m.heap_base 0 ss _ v.low
              (IsHeap-fuel v)
              (omega (arith, v.high, bytes_in-le m.header wanted 0 m.heap_base ss _ v.chain))
              v.chain
            ∙ ap (λ n. ok n m) (omega arith))
