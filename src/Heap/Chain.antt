-- ===== src/Heap/Chain.antt =====
-- The blocks that lie in the heap one behind the other, each linked to its neighbours.
use hatcher.Base.{
  ℕ, ◌+◌, ◌*◌, ◌≤◌, ◌<◌, ◌≡◌, ◌≢◌, false, Option, some, List, [], ◌∷◌, arith, ◌==◌, length,
}
use hatcher.Effect.{ok}
use hatcher.Heap.{Block, Heap, block_size, update, load, set_prev}
use hatcher.Heap.Spec.{Seg, after}

abbrev pub block : Seg → ℕ → ℕ → Block
block s next prev = record { size = s.size; free = s.free; next = next; prev = prev }

-- The pointer to the blocks at `a`: NULL if there are none.
abbrev pub start : ℕ → List Seg → ℕ
start a [] = 0
start a (s ∷ ss) = a

-- From `a` up to `e` there are the blocks `ss`, each with the right links; `prev` points at the
-- block in front of `a`.
abbrev pub Chain : (ℕ → Option Block) → ℕ → ℕ → List Seg → ℕ → Type 0
Chain h prev a [] e = a ≡ e
Chain h prev a (s ∷ ss) e =
    (h a ≡ some (block s (start (after a s) ss) prev)) × Chain h a (after a s) ss e

-- Where a chain ends, behind its blocks.
pub Chain-le :
    (h : ℕ → Option Block) (prev a : ℕ) (ss : List Seg) (e : ℕ)
    → Chain h prev a ss e
    → a + block_size * length ss ≤ e
Chain-le h prev a [] e c = omega arith
Chain-le h prev a (s ∷ ss) e c = omega (arith, Chain-le h a (after a s) ss e c.1)

-- A chain survives a change of the headers below it.
pub frame :
    {h g : ℕ → Option Block} (prev a : ℕ) (ss : List Seg) (e : ℕ)
    → ((y : ℕ) → a ≤ y → g y ≡ h y)
    → Chain h prev a ss e
    → Chain g prev a ss e
frame prev a [] e same c = c
frame prev a (s ∷ ss) e same c =
    (ground (arith, same a), frame a (after a s) ss e (λ y le. same y (omega arith)) c.1)

pub frame-update :
    (h : ℕ → Option Block) (p : ℕ) (b : Option Block) (prev a : ℕ) (ss : List Seg) (e : ℕ)
    → p < a
    → Chain h prev a ss e
    → Chain (update h p b) prev a ss e
frame-update h p b prev a ss e lt = frame prev a ss e (λ y le. ground arith)

module _ (m : Heap) {p : ℕ} {b : Block} (pos : p ≢ 0) (at : m.header p ≡ some b) where
  pub load-ok : load p m ≡ ok b m
  unfolding load
  load-ok = let e : (p == 0) ≡ false = ground arith in rw (e, at)

  pub set_prev-ok :
      (q : ℕ)
      → set_prev p q m
        ≡ ok tt (record m { header = update m.header p (some (record b { prev = q })) })
  unfolding set_prev
  set_prev-ok q = rw load-ok

-- A chain whose first block gets another `prev`, with nothing changed behind that block.
pub relink :
    {h g : ℕ → Option Block} (prev prev' a a' : ℕ) (t : Seg) (ss : List Seg) (e : ℕ)
    → a' ≡ a
    → g a ≡ some (block t (start (after a t) ss) prev')
    → ((y : ℕ) → a < y → g y ≡ h y)
    → Chain h prev a (t ∷ ss) e
    → Chain g prev' a' (t ∷ ss) e
relink {h} {g} prev prev' a a' t ss e same at rest c =
    rw same (at, frame a (after a t) ss e (λ y le. rest y (omega arith)) c.1)
