-- ===== src/Thread/Search.antt =====
-- The search of `thread_schedule`, and how far it is from a thread.
use mathlib.Core.Path.{subst}
use mathlib.Core.Bool.{false≢true}
use native.Mathlib.Nat.{mod-add-mod, mod-eq_of_lt}
use hatcher.Base.{
  ℕ, zero, suc, ◌+◌, ◌-◌, ◌%◌, ◌≤◌, ◌<◌, ◌≡◌, refl, sym, ap, ◌∙◌, Bool, true, false, Option, none,
  some, List, inl, inr, arith, Bool-cases, length, if◌then◌else◌, u64, ltb, dec_lt, ℕ_discrete,
  get_elem?_total,
}
use hatcher.Thread.{Thread, Scheduler, is_ready_at, thread_count, tid_at, find_ready, next_ready}
use hatcher.Thread.Invariant.{IsSched}

-- The test fails at each index below `d`.
abbrev pub NoneBefore : ℕ → (ℕ → Bool) → Type 0
NoneBefore zero p = Unit
NoneBefore (suc d) p = NoneBefore d p × (p d ≡ false)

pub not_before : (d k : ℕ) (p : ℕ → Bool) → NoneBefore d p → p k ≡ true → d ≤ k
not_before zero k p h e = omega arith
not_before (suc d) k p h e = elim (ℕ_discrete d k) [
  | yes same ↦ absurd (false≢true (sym (subst (λ x. p x ≡ false) same h.1) ∙ e))
  | no ne ↦ omega (arith, not_before d k p h.0 e)
]

-- Whether the thread that comes `d` places after the one at `c`, and one more, is ready.
abbrev pub ready_after : List Thread → ℕ → ℕ → Bool
ready_after ts c d = is_ready_at ts ((c + 1 + d) % length ts)

-- The outcome of a search that has `n` threads to look at.
abbrev pub Search : List Thread → ℕ → ℕ → Option ℕ → Type 0
Search ts c n none = NoneBefore n (ready_after ts c)
Search ts c n (some idx) =
    (d : ℕ) × (d < n)
    × (idx ≡ (c + 1 + d) % length ts)
    × (ready_after ts c d ≡ true)
    × NoneBefore d (ready_after ts c)

find_ready-Search :
    (rounds i n c : ℕ) (ts : List Thread)
    → i + rounds ≡ n
    → NoneBefore i (ready_after ts c)
    → Search ts c n (find_ready rounds ((c + 1) % length ts) i ts)
unfolding find_ready
find_ready-Search zero i n c ts e h = let e' : i ≡ n = omega arith in rw (← e') h
find_ready-Search (suc rounds) i n c ts e h =
    rw (mod-add-mod) (elim (Bool-cases (ready_after ts c i)) [
      | inl hit ↦ simp hit (i, omega arith, refl, hit, h)
      | inr miss ↦ simp miss (
          find_ready-Search rounds (i + 1) n c ts (omega arith)
            (let e' : i + 1 ≡ suc i = omega arith in rw e' (h, miss)))
    ])

-- How many threads the search looks at before it comes to thread `j`.
abbrev pub ahead : ℕ → ℕ → ℕ → ℕ
ahead n c j = if ltb c j then j - c - 1 else n + j - c - 1

pub ahead-lt : (n c j : ℕ) → c < n → j < n → ahead n c j < n
ahead-lt n c j hc hj = ground arith

wrap_add : {n k : ℕ} → k < n → (k + n) % n ≡ k
wrap_add {n} {k} h = grind arith

pub ahead-mod : (n c j : ℕ) → c < n → j < n → (c + 1 + ahead n c j) % n ≡ j
ahead-mod n c j hc hj = elim (dec_lt c j) [
  | yes lt ↦ let at : c + 1 + ahead n c j ≡ j = ground arith in rw at (mod-eq_of_lt hj)
  | no ge ↦ let at : c + 1 + ahead n c j ≡ j + n = ground arith in rw at (wrap_add hj)
]

-- The search comes nearer to `j` when it stops at an earlier thread.
pub ahead-step :
    (n c j d : ℕ) → c < n → j < n → d < ahead n c j → ahead n ((c + 1 + d) % n) j < ahead n c j
ahead-step n c j d hc hj lt = elim (dec_lt (c + 1 + d) n) [
  | yes inside ↦ rw (mod-eq_of_lt inside) (ground arith)
  | no out ↦
      let at : c + 1 + d ≡ (c + 1 + d - n) + n = omega arith in
      let small : c + 1 + d - n < n = ground arith in
      let back : (c + 1 + d) % n ≡ c + 1 + d - n = ap (λ x. x % n) at ∙ wrap_add small in
      rw back (ground arith)
]

pub next_ready-Search :
    {s : Scheduler} → IsSched s → Search s.threads s.current (thread_count s) (next_ready s)
unfolding next_ready
next_ready-Search {s} v =
    let (t, at) = get_elem?_total s.threads s.current v.on in
    let tid : tid_at s.threads s.current ≡ s.current = ground (arith, v.tids s.current t at) in
    let small : u64 (s.current + 1) ≡ s.current + 1 = omega (arith, v.on, v.few) in
    rw (tid, small)
      (find_ready-Search (thread_count s) 0 (thread_count s) s.current s.threads (omega arith) tt)
