-- ===== src/Thread/RoundRobin.antt =====
-- What a call of `thread_schedule` leaves: the states of the threads, and the current one.
use mathlib.Core.Path.{subst}
use hatcher.Base.{
  ℕ, zero, suc, ◌+◌, ◌%◌, ◌<◌, ◌≡◌, refl, sym, ap, ◌∙◌, Bool, true, false, Option, none, some, List,
  [], ◌∷◌, map, ◌⊎◌, inl, inr, ◌==◌, ◌&&◌, leb, Bool-cases, get_elem?, if◌then◌else◌, map_some,
}
use hatcher.Thread.{
  Thread, ThreadState, Scheduler, ready, running, is_ready, is_sleeping, wake, thread_count,
  wake_all, switch_to, put_back, with_state, thread_schedule,
}
use hatcher.Thread.Invariant.{IsSched, switched, current-switch_to}
use hatcher.Thread.Search.{NoneBefore, ready_after}
use hatcher.Thread.Schedule.{schedule_outcome, length-wake_all, current-wake_all}

-- The state of a thread after the sleepers that are due have become ready.
abbrev pub due_state : ℕ → Thread → ThreadState
due_state ticks t = if is_sleeping t.state && leb t.sleep_until ticks then ready else t.state

-- Whether the thread that comes `d` places after the current one, and one more, is then ready.
abbrev pub due_after : Scheduler → ℕ → Bool
due_after s d = elim (get_elem? s.threads ((s.current + 1 + d) % thread_count s)) [
  | none ↦ false
  | some t ↦ is_ready (due_state s.timer_ticks t)
]

-- The state of thread `i` after a switch to thread `j`: that one runs, and the current one is ready
-- again unless it sleeps.
abbrev pub switched_state : Scheduler → ℕ → ℕ → Thread → ThreadState
switched_state s j i t =
    let due = due_state s.timer_ticks t in
    if j == i
    then running
    else if s.current == i
    then (if is_sleeping due then due else ready)
    else due

-- Thread for thread, `s'` is `s` with these states.
abbrev pub HasStates : Scheduler → (ℕ → Thread → ThreadState) → Scheduler → Type 0
HasStates s state s' =
    (i : ℕ)
    → get_elem? s'.threads i ≡ map_some (λ t. with_state (state i t) t) (get_elem? s.threads i)

-- How the turn passes from `s` to `s'`: to no thread, or to the first that is ready.
abbrev pub TurnPasses : Scheduler → Scheduler → Type 0
TurnPasses s s' =
    (NoneBefore (thread_count s) (due_after s)
      × (s'.current ≡ s.current)
      × HasStates s (λ i t. due_state s.timer_ticks t) s')
    ⊎ ((d : ℕ) × (d < thread_count s)
        × (due_after s d ≡ true)
        × NoneBefore d (due_after s)
        × (s'.current ≡ (s.current + 1 + d) % thread_count s)
        × HasStates s (switched_state s ((s.current + 1 + d) % thread_count s)) s')

wake-due_state : (ticks : ℕ) (t : Thread) → wake ticks t ≡ with_state (due_state ticks t) t
unfolding wake
wake-due_state ticks t = elim (Bool-cases (is_sleeping t.state && leb t.sleep_until ticks)) [
  | inl due ↦ simp due refl
  | inr other ↦ simp other refl
]

map-wake :
    (ticks : ℕ) (ts : List Thread) (i : ℕ)
    → get_elem? (map (wake ticks) ts) i
      ≡ map_some (λ t. with_state (due_state ticks t) t) (get_elem? ts i)
map-wake ticks [] i = refl
map-wake ticks (t ∷ ts) zero = ap some (wake-due_state ticks t)
map-wake ticks (t ∷ ts) (suc i) = map-wake ticks ts i

wake_all-HasStates : (s : Scheduler) → HasStates s (λ i t. due_state s.timer_ticks t) (wake_all s)
unfolding wake_all
wake_all-HasStates s i = map-wake s.timer_ticks s.threads i

-- What the writes of a switch leave of one thread.
put_back-state :
    (t : Thread) → put_back t ≡ with_state (if is_sleeping t.state then t.state else ready) t
put_back-state t = elim (Bool-cases (is_sleeping t.state)) [
  | inl asleep ↦ simp asleep refl
  | inr awake ↦ simp awake refl
]

writes :
    (next_ current : Bool) (f : Thread → ThreadState) (o : Option Thread)
    → let w = map_some (λ t. with_state (f t) t) o in
      (if next_
        then map_some (with_state running) (
            if current
            then map_some put_back (map_some (with_state running) w)
            else map_some (with_state running) w)
        else (if current then map_some put_back w else w))
      ≡ map_some
          (λ t.
            with_state
              (if next_
                then running
                else if current
                then (if is_sleeping (f t) then f t else ready)
                else f t)
              t)
          o
writes true true f none = refl
writes true false f none = refl
writes false true f none = refl
writes false false f none = refl
writes true true f (some t) = refl
writes true false f (some t) = refl
writes false true f (some t) = ap some (put_back-state (with_state (f t) t))
writes false false f (some t) = refl

switch_to-HasStates :
    (s : Scheduler) (j : ℕ) → HasStates s (switched_state s j) (switch_to j (wake_all s))
switch_to-HasStates s j i =
    switched (wake_all s) j i
    ∙ rw (wake_all-HasStates s i, current-wake_all s)
        (writes (j == i) (s.current == i) (due_state s.timer_ticks) (get_elem? s.threads i))

ready_with :
    (f : Thread → ThreadState) (o : Option Thread)
    → elim (map_some (λ t. with_state (f t) t) o) as (λ x. Bool) [
      | none ↦ false
      | some t ↦ is_ready t.state
    ]
      ≡ elim o as (λ x. Bool) [ none ↦ false | some t ↦ is_ready (f t) ]
ready_with f none = refl
ready_with f (some t) = refl

ready-due_after :
    (s : Scheduler) (d : ℕ)
    → ready_after (wake_all s).threads (wake_all s).current d ≡ due_after s d
ready-due_after s d =
    let k = (s.current + 1 + d) % thread_count s in
    rw (length-wake_all s, current-wake_all s)
      (ap (λ o. elim o as (λ x. Bool) [ none ↦ false | some t ↦ is_ready t.state ])
          (wake_all-HasStates s k)
        ∙ ready_with (due_state s.timer_ticks) (get_elem? s.threads k))

NoneBefore-same : (n : ℕ) (p q : ℕ → Bool) → ((d : ℕ) → p d ≡ q d) → NoneBefore n p → NoneBefore n q
NoneBefore-same zero p q same h = tt
NoneBefore-same (suc n) p q same (h, last) = (NoneBefore-same n p q same h, sym (same n) ∙ last)

-- `thread_schedule` makes the sleepers ready that are due. If a thread is then ready, it switches to the
-- first one that comes after the current one in the cyclic order of the threads, the current one last:
-- that one is current and runs, and the one that was current is ready, unless it sleeps. If none is
-- ready, the current one stays current. Nothing else of the threads changes.
pub thread_schedule_round_robin : {s : Scheduler} → IsSched s → TurnPasses s (thread_schedule s)
thread_schedule_round_robin {s} v =
    let w = wake_all s in
    let size = length-wake_all s in
    let same = ready-due_after s in
    elim (schedule_outcome v) [
      | inl (to, nobody) ↦
          let nobody' = subst (λ n. NoneBefore n (ready_after w.threads w.current)) size nobody in
          subst (λ s'. TurnPasses s s') (sym to)
            (inl (
              NoneBefore-same (thread_count s) _ (due_after s) same nobody',
              current-wake_all s,
              wake_all-HasStates s,
            ))
      | inr (d, less, to, hit, before) ↦
          let k = (s.current + 1 + d) % thread_count s in
          let at : (w.current + 1 + d) % thread_count w ≡ k = rw (size, current-wake_all s) refl in
          subst (λ s'. TurnPasses s s') (sym (to ∙ ap (λ j. switch_to j w) at))
            (inr (
              d,
              subst (λ n. d < n) size less,
              sym (same d) ∙ hit,
              NoneBefore-same d _ (due_after s) same before,
              current-switch_to w k,
              switch_to-HasStates s k,
            ))
    ]
