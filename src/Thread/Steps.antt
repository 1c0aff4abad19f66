-- ===== src/Thread/Steps.antt =====
-- Every step of the scheduler keeps its invariant.
use hatcher.Base.{
  ℕ, zero, suc, ◌-◌, ◌<◌, ◌≡◌, refl, sym, ap, ◌∙◌, Option, some, List, [], ◌∷◌, ◌++◌, ◌==◌, leb,
  inl, inr, arith, Bool-cases, length, get_elem?, length-append, get_elem?-append,
}
use mathlib.Core.Path.{subst}
use hatcher.Effect.{Run, ok, fault, out_of_fuel, and_then}
use hatcher.Heap.{Heap, kmalloc}
use hatcher.Thread.{
  Thread, Scheduler, ready, running, new_thread, thread_count, thread_init, thread_create,
  thread_stop, thread_block, thread_unblock, thread_yield, thread_sleep, timer_interrupt,
  max_threads,
}
use hatcher.Thread.Invariant.{IsSched, Quiet-IsSched, update_first-Quiet, modify-Quiet}
use hatcher.Thread.Schedule.{thread_schedule-IsSched, timer_interrupt-IsSched}

-- The calls that change the scheduler, in any order.
pub data Step (s : Scheduler) : Scheduler → Type 0 where
  create :
      (entry : ℕ) (name : List ℕ) (m m' : Heap) (r : Option ℕ) (s' : Scheduler)
      → thread_create entry name s m ≡ ok (r, s') m'
      → Step s s'
  stop : (pid : ℕ) → Step s (thread_stop pid s)
  block : (pid : ℕ) → Step s (thread_block pid s)
  unblock : (pid : ℕ) → Step s (thread_unblock pid s)
  yield : Step s (thread_yield s)
  sleep : (ms : ℕ) → Step s (thread_sleep ms s)
  interrupt : Step s (timer_interrupt s)

pub data Reach : Scheduler → Type 0 where
  init : (s : Scheduler) → Reach (thread_init s)
  next : {s s' : Scheduler} → Reach s → Step s s' → Reach s'

only : (base : ℕ) (t u : Thread) (i : ℕ) → get_elem? (t ∷ []) i ≡ some u → (i ≡ 0) × (t ≡ u)
only base t u zero e = (refl, cc)
only base t u (suc i) e = cc

thread_init-IsSched : (s : Scheduler) → IsSched (thread_init s)
unfolding thread_init
thread_init-IsSched s = record {
  few = omega arith;
  on = omega arith;
  tids = λ i u e. let (at, same) = only 0 _ u i e in ap (λ x. x.tid) (sym same) ∙ sym at;
  single = λ i u e r. let (at, same) = only 0 _ u i e in at;
}

added-IsSched :
    {s : Scheduler} (entry : ℕ) (name : List ℕ) (stack : ℕ)
    → IsSched s
    → length s.threads < 32
    → IsSched
        (record s { threads = s.threads ++ (new_thread entry name stack (thread_count s) ∷ []) })
added-IsSched {s} entry name stack v room = record {
  few = omega (arith, length-append s.threads (new ∷ []));
  on = omega (arith, length-append s.threads (new ∷ []), v.on);
  tids = λ i u e. elim (get_elem?-append s.threads (new ∷ []) i e) [
    | inl old ↦ v.tids i u old
    | inr (le, here) ↦
        let (at, same) = only 0 new u (i - length s.threads) here in
        ap (λ x. x.tid) (sym same) ∙ omega arith
  ];
  single = λ i u e r. elim (get_elem?-append s.threads (new ∷ []) i e) [
    | inl old ↦ v.single i u old r
    | inr (le, here) ↦
        let (at, same) = only 0 new u (i - length s.threads) here in
        let x : ready ≡ running = ap (λ x. x.state) same ∙ r in cc
  ];
}
  where
    new : Thread
    new = new_thread entry name stack (thread_count s)

-- The scheduler in the result of a run.
abbrev Keeps : Run Heap (Option ℕ × Scheduler) → Type 0
Keeps (ok (r, s') m) = IsSched s'
Keeps fault = Unit
Keeps out_of_fuel = Unit

and_then-Keeps :
    (r : Run Heap ℕ) (k : ℕ → Heap → Run Heap (Option ℕ × Scheduler))
    → ((p : ℕ) (m : Heap) → Keeps (k p m))
    → Keeps (and_then r k)
and_then-Keeps (ok p m) k h = h p m
and_then-Keeps fault k h = tt
and_then-Keeps out_of_fuel k h = tt

thread_create-IsSched :
    (entry : ℕ) (name : List ℕ) (s : Scheduler) (m : Heap)
    → IsSched s
    → Keeps (thread_create entry name s m)
unfolding thread_create
thread_create-IsSched entry name s m v = elim (Bool-cases (leb max_threads (thread_count s))) [
  | inl full ↦ simp full v
  | inr room ↦ simp room (
      and_then-Keeps (kmalloc 224 m) _ λ t m₁. elim (Bool-cases (t == 0)) [
        | inl null ↦ simp null v
        | inr got ↦ simp got (
            and_then-Keeps (kmalloc 8208 m₁) _
              λ stack m₂. added-IsSched entry name stack v (ground arith))
      ])
]

Step-IsSched : {s s' : Scheduler} → IsSched s → Step s s' → IsSched s'
unfolding thread_stop thread_block thread_unblock thread_yield thread_sleep
Step-IsSched {s} v (create entry name m m' r s' e) =
    subst Keeps e (thread_create-IsSched entry name s m v)
Step-IsSched {s} v (stop pid) =
    Quiet-IsSched _ (update_first-Quiet _ _ s.threads (λ t. (refl, λ r. cc))) v
Step-IsSched {s} v (block pid) =
    Quiet-IsSched _ (update_first-Quiet _ _ s.threads (λ t. (refl, λ r. cc))) v
Step-IsSched {s} v (unblock pid) =
    Quiet-IsSched _ (update_first-Quiet _ _ s.threads (λ t. (refl, λ r. cc))) v
Step-IsSched v yield = thread_schedule-IsSched v
Step-IsSched {s} v (sleep ms) = elim (Bool-cases (ms == 0)) [
  | inl none_left ↦ simp none_left v
  | inr some_left ↦ simp some_left (
      thread_schedule-IsSched
        (Quiet-IsSched _ (modify-Quiet s.current _ s.threads (λ t. (refl, λ r. cc))) v))
]
Step-IsSched v interrupt = timer_interrupt-IsSched v

-- In every state that the kernel's calls lead to there are at most 32 threads, the current one among
-- them; the id of each is its index, and none but the current one is marked as running.
pub Reach-IsSched : {s : Scheduler} → Reach s → IsSched s
Reach-IsSched (init s) = thread_init-IsSched s
Reach-IsSched (next r st) = Step-IsSched (Reach-IsSched r) st
