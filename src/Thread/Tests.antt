-- ===== src/Thread/Tests.antt =====
-- The scheduler with three threads, and its theorems there.
use hatcher.Base.{ℕ, zero, suc, ◌<◌, ◌≡◌, refl, some, [], ◌∷◌, arith, get_elem?}
use hatcher.Thread.{
  Thread, ThreadState, Scheduler, ready, running, sleeping, thread_init, thread_schedule,
  thread_yield, thread_block, idle_name, timer_interrupt,
}
use hatcher.Thread.Invariant.{IsSched}
use hatcher.Thread.Schedule.{interrupts, ready_gets_turn}
use hatcher.Thread.RoundRobin.{TurnPasses, thread_schedule_round_robin}
use hatcher.Thread.Steps.{init, next, block, yield, Reach-IsSched}

abbrev thread : ℕ → ThreadState → ℕ → Thread
thread tid state until = record {
  kernel_stack = 0;
  rsp = 0;
  r12 = 0;
  rflags = 0;
  state = state;
  tid = tid;
  name = idle_name;
  sleep_until = until;
}

-- The idle thread runs, one is ready, one sleeps until tick 50; it is tick 10.
abbrev three : Scheduler
three = record {
  threads = thread 0 running 0 ∷ thread 1 ready 0 ∷ thread 2 sleeping 50 ∷ [];
  current = 0;
  timer_ticks = 10;
}

three-IsSched : IsSched three
three-IsSched = record { few = omega arith; on = omega arith; tids = tids; single = single }
  where
    tids : (i : ℕ) (t : Thread) → get_elem? three.threads i ≡ some t → t.tid ≡ i
    tids zero t e = ground arith
    tids (suc zero) t e = ground arith
    tids (suc (suc zero)) t e = ground arith
    tids (suc (suc (suc i))) t e = cc

    single : (i : ℕ) (t : Thread) → get_elem? three.threads i ≡ some t → t.state ≡ running → i ≡ 0
    single zero t e r = refl
    single (suc zero) t e r = ground arith
    single (suc (suc zero)) t e r = ground arith
    single (suc (suc (suc i))) t e r = cc

thread_schedule_round_robin_example : TurnPasses three (thread_schedule three)
thread_schedule_round_robin_example = thread_schedule_round_robin three-IsSched

ready_gets_turn_example : (k : ℕ) × (k < 3) × ((interrupts (suc k) three).current ≡ 1)
ready_gets_turn_example = ready_gets_turn 1 three-IsSched refl

abbrev start : Scheduler
start = record { threads = []; current = 0; timer_ticks = 0 }

Reach-IsSched_example : IsSched (thread_yield (thread_block 0 (thread_init start)))
Reach-IsSched_example = Reach-IsSched (next (next (init start) (block 0)) yield)

-- A tick wakes the sleeper when its time has come, and the next ready thread runs.
interrupt_run : (interrupts 2 three).current ≡ 0
unfolding timer_interrupt
interrupt_run = refl
