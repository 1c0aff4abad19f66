-- ===== src/Thread/Schedule.antt =====
-- `thread_schedule`: which thread it picks, and that each ready thread gets its turn.
use mathlib.Core.Path.{subst}
use hatcher.Base.{
  ℕ, zero, suc, ◌+◌, ◌%◌, ◌<◌, ◌≡◌, refl, sym, ap, true, false, Option, none, some, List, map, ◌⊎◌,
  inl, inr, arith, ◌==◌, ==_iff, Bool-cases, length, get_elem?, length-map, u32, dec_lt,
  get_elem?-map, lt_of_get_elem?,
}
use hatcher.Thread.{
  Thread, Scheduler, is_ready, is_ready_at, wake, thread_count, wake_all, switch_to, put_back,
  next_ready, thread_schedule, timer_interrupt,
}
use hatcher.Thread.Invariant.{
  IsSched, wake_all-IsSched, switch_to-IsSched, switched, length-switch_to, current-switch_to,
}
use hatcher.Thread.Search.{
  NoneBefore, not_before, ready_after, Search, ahead, ahead-lt, ahead-mod, ahead-step,
  next_ready-Search,
}

pub length-wake_all : (s : Scheduler) → length (wake_all s).threads ≡ length s.threads
unfolding wake_all
length-wake_all s = length-map s.threads (wake s.timer_ticks)

pub current-wake_all : (s : Scheduler) → (wake_all s).current ≡ s.current
unfolding wake_all
current-wake_all s = refl

abbrev pub Outcome : Scheduler → Scheduler → Option ℕ → Type 0
Outcome w s' o =
    ((s' ≡ w) × NoneBefore (thread_count w) (ready_after w.threads w.current))
    ⊎ ((d : ℕ) × (d < thread_count w)
        × (s' ≡ switch_to ((w.current + 1 + d) % thread_count w) w)
        × (ready_after w.threads w.current d ≡ true)
        × NoneBefore d (ready_after w.threads w.current))

outcome :
    (w : Scheduler) (o : Option ℕ)
    → Search w.threads w.current (thread_count w) o
    → Outcome w (elim o [ none ↦ w | some idx ↦ switch_to idx w ]) o
outcome w none h = inl (refl, h)
outcome w (some idx) (d, lt, at, hit, before) = inr (d, lt, ap (λ i. switch_to i w) at, hit, before)

-- The choice of `thread_schedule`, in terms of its steps.
pub schedule_outcome :
    {s : Scheduler} → IsSched s → Outcome (wake_all s) (thread_schedule s) (next_ready (wake_all s))
unfolding thread_schedule
schedule_outcome {s} v =
    outcome (wake_all s) (next_ready (wake_all s)) (next_ready-Search (wake_all-IsSched v))

mod-lt' : (a n k : ℕ) → k < n → a % n < n
mod-lt' a n k h = omega arith

pub thread_schedule-IsSched : {s : Scheduler} → IsSched s → IsSched (thread_schedule s)
thread_schedule-IsSched {s} v =
    let w = wake_all-IsSched v in
    elim (schedule_outcome v) [
      | inl (same, _) ↦ rw same w
      | inr (d, lt, same, _, _) ↦
          rw same (switch_to-IsSched ((_ + 1 + d) % _) (mod-lt' _ _ _ w.on) w)
    ]

ready_some :
    (ts : List Thread) (j : ℕ) (o : Option Thread)
    → get_elem? ts j ≡ o
    → is_ready_at ts j ≡ true
    → (t : Thread) × (get_elem? ts j ≡ some t) × (is_ready t.state ≡ true)
ready_some ts j none e h = ground arith
ready_some ts j (some t) e h = (t, e, ground arith)

ready_at :
    (ts : List Thread) (j : ℕ) {t : Thread}
    → get_elem? ts j ≡ some t
    → is_ready t.state ≡ true
    → is_ready_at ts j ≡ true
ready_at ts j e h = rw (e, is_ready_at) h

wake_ready :
    (ticks : ℕ) (t : Thread) → is_ready t.state ≡ true → is_ready (wake ticks t).state ≡ true
unfolding wake
wake_ready ticks t h = ground arith

is_ready-wake_all :
    (s : Scheduler) (j : ℕ)
    → is_ready_at s.threads j ≡ true
    → is_ready_at (wake_all s).threads j ≡ true
unfolding wake_all
is_ready-wake_all s j h =
    let (t, at, r) = ready_some s.threads j (get_elem? s.threads j) refl h in
    ready_at (map (wake s.timer_ticks) s.threads) j
      (get_elem?-map (wake s.timer_ticks) s.threads j at) (wake_ready s.timer_ticks t r)

put_back_ready : (t : Thread) → is_ready t.state ≡ true → is_ready (put_back t).state ≡ true
put_back_ready t h = ground arith

is_ready-switch_to :
    (s : Scheduler) (idx j : ℕ)
    → (idx == j) ≡ false
    → is_ready_at s.threads j ≡ true
    → is_ready_at (switch_to idx s).threads j ≡ true
is_ready-switch_to s idx j ne h =
    let (t, at, r) = ready_some s.threads j (get_elem? s.threads j) refl h in
    let path = switched s idx j in
    elim (Bool-cases (s.current == j)) [
      | inl here ↦
          ready_at (switch_to idx s).threads j {t = put_back t} (simp (path, ne, here, at))
            (put_back_ready t r)
      | inr there ↦ ready_at (switch_to idx s).threads j {t = t} (simp (path, ne, there, at)) r
    ]

-- The place of a ready thread in the search, and that the search goes no further.
place_of :
    (w : Scheduler) (j : ℕ)
    → IsSched w
    → is_ready_at w.threads j ≡ true
    → (j < thread_count w)
      × (ready_after w.threads w.current (ahead (thread_count w) w.current j) ≡ true)
place_of w j v h =
    let (t, at, _) = ready_some w.threads j (get_elem? w.threads j) refl h in
    let lt = lt_of_get_elem? w.threads j at in
    (lt, rw (ahead-mod (thread_count w) w.current j v.on lt) h)

abbrev Nearer : Scheduler → ℕ → Scheduler → Type 0
Nearer w j s' =
    (s'.current ≡ j)
    ⊎ ((is_ready_at s'.threads j ≡ true)
        × (ahead (thread_count s') s'.current j < ahead (thread_count w) w.current j))

switch_progress :
    (w : Scheduler) (j d : ℕ)
    → IsSched w
    → is_ready_at w.threads j ≡ true
    → d < thread_count w
    → NoneBefore d (ready_after w.threads w.current)
    → Nearer w j (switch_to ((w.current + 1 + d) % thread_count w) w)
switch_progress w j d v h lt before =
    let (small, hit) = place_of w j v h in
    let le = not_before d (ahead (thread_count w) w.current j) _ before hit in
    let there = ahead-mod (thread_count w) w.current j v.on small in
    elim (dec_lt d (ahead (thread_count w) w.current j)) [
      | no ge ↦
          let same : d ≡ ahead (thread_count w) w.current j = omega arith in
          inl (rw (current-switch_to, same) there)
      | yes less ↦
          let nearer = ahead-step (thread_count w) w.current j d v.on small less in
          elim (Bool-cases ((w.current + 1 + d) % thread_count w == j)) [
            | inl here ↦ inl (rw current-switch_to ((==_iff _ _).0 here))
            | inr past ↦
                inr
                  (is_ready-switch_to w _ j past h, rw (length-switch_to, current-switch_to) nearer)
          ]
    ]

Nearer-wake_all :
    (s : Scheduler) (j : ℕ) (s' : Scheduler) → Nearer (wake_all s) j s' → Nearer s j s'
Nearer-wake_all s j s' (inl now) = inl now
Nearer-wake_all s j s' (inr (still, lt)) =
    let e : ahead (thread_count (wake_all s)) (wake_all s).current j
        ≡ ahead (thread_count s) s.current j =
      rw (length-wake_all, current-wake_all) in
    inr (still, subst (λ x. ahead (thread_count s') s'.current j < x) e lt)

-- A ready thread runs after a call of `thread_schedule`, or it is still ready and nearer to its turn.
pub thread_schedule_progress :
    {s : Scheduler} (j : ℕ)
    → IsSched s
    → is_ready_at s.threads j ≡ true
    → let s' = thread_schedule s in
      (s'.current ≡ j)
      ⊎ ((is_ready_at s'.threads j ≡ true)
          × (ahead (thread_count s') s'.current j < ahead (thread_count s) s.current j))
thread_schedule_progress {s} j v h =
    let w = wake_all s in
    let ready' = is_ready-wake_all s j h in
    let (small, hit) = place_of w j (wake_all-IsSched v) ready' in
    Nearer-wake_all s j (thread_schedule s) (elim (schedule_outcome v) [
      | inl (same, none_ready) ↦ absurd (
          omega (
            arith,
            not_before (thread_count w) (ahead (thread_count w) w.current j) _ none_ready hit,
            ahead-lt (thread_count w) w.current j (wake_all-IsSched v).on small,
          ))
      | inr (d, lt, same, _, before) ↦
          subst (Nearer w j) (sym same)
            (switch_progress w j d (wake_all-IsSched v) ready' lt before)
    ])

pub tick-IsSched : (n : ℕ) (s : Scheduler) → IsSched s → IsSched (record s { timer_ticks = n })
tick-IsSched n s v = record { few = v.few; on = v.on; tids = v.tids; single = v.single }

pub timer_interrupt-IsSched : {s : Scheduler} → IsSched s → IsSched (timer_interrupt s)
unfolding timer_interrupt
timer_interrupt-IsSched {s} v = thread_schedule-IsSched (tick-IsSched (u32 (s.timer_ticks + 1)) s v)

-- `k` timer interrupts, one after the other.
abbrev pub interrupts : ℕ → Scheduler → Scheduler
interrupts zero s = s
interrupts (suc k) s = interrupts k (timer_interrupt s)

turn_within :
    (fuel : ℕ) (s : Scheduler) (j : ℕ)
    → IsSched s
    → is_ready_at s.threads j ≡ true
    → ahead (thread_count s) s.current j < fuel
    → (k : ℕ) × (k < fuel) × ((interrupts (suc k) s).current ≡ j)
turn_within zero s j v h lt = elim lt [ ]
turn_within (suc fuel) s j v h lt =
    elim (thread_schedule_progress {s = record s { timer_ticks = u32 (s.timer_ticks + 1) }} j
      (tick-IsSched (u32 (s.timer_ticks + 1)) s v) h) [
        | inl now ↦ (0, omega arith, unfold timer_interrupt in now)
        | inr (still, nearer) ↦
            let (k, less, at) =
              turn_within fuel (timer_interrupt s) j (timer_interrupt-IsSched v)
                (unfold timer_interrupt in still) (unfold timer_interrupt in omega arith) in
            (suc k, omega arith, at)
      ]

-- No starvation: a ready thread is switched to within as many timer interrupts as there are threads.
pub ready_gets_turn :
    {s : Scheduler} (j : ℕ)
    → IsSched s
    → is_ready_at s.threads j ≡ true
    → (k : ℕ) × (k < thread_count s) × ((interrupts (suc k) s).current ≡ j)
ready_gets_turn {s} j v h =
    turn_within (thread_count s) s j v h
      (ahead-lt (thread_count s) s.current j v.on (place_of s j v h).0)
