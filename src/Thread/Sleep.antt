-- ===== src/Thread/Sleep.antt =====
-- Sleeping threads: when they wake, and two states that a switch takes no notice of.
use hatcher.Base.{
  ℕ, ◌+◌, ◌^◌, ◌≤◌, ◌<◌, ◌≡◌, ◌≢◌, refl, ap, ◌∙◌, true, false, some, List, ◌==◌, leb, inl, inr,
  arith, ==_iff, Bool-cases, get_elem?, get_elem?-map, u32,
}
use hatcher.Thread.{
  Thread, Scheduler, ready, sleeping, is_ready, is_ready_at, is_sleeping, wake, wake_all, switch_to,
  put_to_sleep, put_back, with_state, next_ready, thread_schedule,
}
use hatcher.Thread.Invariant.{IsSched, switched}
use hatcher.Thread.Schedule.{schedule_outcome}

-- A thread that goes to sleep for `ms` ticks at tick `now` is woken by the scan at tick `later` only
-- if `ms` ticks have gone by, as long as the counter does not wrap; where the sum wraps, it is woken
-- by the scan of the same call.
wake-put_to_sleep :
    (t : Thread) (now ms later big : ℕ)
    → now + ms < 2 ^ 32
    → now < 2 ^ 32
    → big < 2 ^ 32
    → 2 ^ 32 ≤ now + big
    → (leb (now + ms) later ≡ is_ready (wake later (put_to_sleep (u32 (now + ms)) t)).state)
      × (is_ready (wake now (put_to_sleep (u32 (now + big)) t)).state ≡ true)
unfolding wake
wake-put_to_sleep t now ms later big fits small large wraps =
    let exact : u32 (now + ms) ≡ now + ms = omega arith in
    let early : u32 (now + big) ≤ now = omega arith in (rw exact (ground arith), ground arith)

not_due : (ticks : ℕ) (t : Thread) → ticks < t.sleep_until → wake ticks t ≡ t
unfolding wake
not_due ticks t lt = ground arith

wake_other : (ticks : ℕ) (t : Thread) → is_sleeping t.state ≡ false → wake ticks t ≡ t
unfolding wake
wake_other ticks t h = ground arith

woken :
    (s : Scheduler) (i : ℕ) {t : Thread}
    → get_elem? s.threads i ≡ some t
    → get_elem? (wake_all s).threads i ≡ some (wake s.timer_ticks t)
unfolding wake_all
woken s i at = get_elem?-map (wake s.timer_ticks) s.threads i at

put_back_asleep : (t : Thread) → t.state ≡ sleeping → put_back t ≡ t
put_back_asleep t e = ground arith

not_ready :
    (ts : List Thread) (idx i : ℕ) (t : Thread)
    → idx ≡ i
    → get_elem? ts i ≡ some t
    → t.state ≡ sleeping
    → is_ready_at ts idx ≡ true
    → ⊥
not_ready ts idx i t same at asleep hit = ground arith

-- A sleeping thread that is not due is left as it is by `thread_schedule`: it is neither woken nor
-- run, nor put back among the ready ones, even if it is the current one.
pub thread_schedule_asleep :
    {s : Scheduler} (i : ℕ) {t : Thread}
    → IsSched s
    → get_elem? s.threads i ≡ some t
    → t.state ≡ sleeping
    → s.timer_ticks < t.sleep_until
    → get_elem? (thread_schedule s).threads i ≡ some t
thread_schedule_asleep {s} i {t} v at asleep early =
    let same : get_elem? (wake_all s).threads i ≡ some t =
      woken s i at ∙ ap some (not_due s.timer_ticks t early) in
    elim (schedule_outcome v) [
      | inl (stays, _) ↦ rw stays same
      | inr (d, _, moved, hit, _) ↦ rw moved (untouched i (wake_all s) t _ same asleep hit)
    ]
  where
    untouched :
        (i : ℕ) (w : Scheduler) (t : Thread) (idx : ℕ)
        → get_elem? w.threads i ≡ some t
        → t.state ≡ sleeping
        → is_ready_at w.threads idx ≡ true
        → get_elem? (switch_to idx w).threads i ≡ some t
    untouched i w t idx at asleep hit = elim (Bool-cases (idx == i)) [
      | inl here ↦ absurd (not_ready w.threads idx i t ((==_iff _ _).0 here) at asleep hit)
      | inr there ↦ elim (Bool-cases (w.current == i)) [
        | inl mine ↦ simp (switched w idx i, there, mine, at) (ap some (put_back_asleep t asleep))
        | inr other ↦ simp (switched w idx i, there, other, at)
      ]
    ]

schedule_found :
    (s : Scheduler) (idx : ℕ)
    → next_ready (wake_all s) ≡ some idx
    → thread_schedule s ≡ switch_to idx (wake_all s)
unfolding thread_schedule
schedule_found s idx found = rw (thread_schedule, found) refl

-- The thread that is switched away from becomes ready, whatever its state was but SLEEPING: not only
-- RUNNING, but also BLOCKED and TERMINATED.
thread_schedule_puts_back :
    (s : Scheduler) (idx : ℕ) {t : Thread}
    → get_elem? s.threads s.current ≡ some t
    → t.state ≢ sleeping
    → next_ready (wake_all s) ≡ some idx
    → idx ≢ s.current
    → get_elem? (thread_schedule s).threads s.current ≡ some (with_state ready t)
thread_schedule_puts_back s idx {t} at awake found other =
    let awake' : is_sleeping t.state ≡ false = ground arith in
    let same : get_elem? (wake_all s).threads s.current ≡ some t =
      woken s s.current at ∙ ap some (wake_other s.timer_ticks t awake') in
    let there : (idx == s.current) ≡ false = ground arith in
    let mine : ((wake_all s).current == s.current) ≡ true = unfold wake_all in ground arith in
    rw (schedule_found s idx found)
      (simp (switched (wake_all s) idx s.current, there, mine, same) (ground arith))
