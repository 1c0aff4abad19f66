-- ===== src/Thread.antt =====
-- kernel/thread.c, the round-robin scheduler. The array `threads` up to `thread_count` is a list, and
-- `current` the index of a thread in it. Each function is one step: the timer interrupt, which may
-- come inside one, calls `thread_schedule` itself.
pub mod Invariant
pub mod Schedule
pub mod RoundRobin
pub mod Search
pub mod Lookup
pub mod Steps
pub mod Sleep
mod Tests
use hatcher.Base.{
  ℕ, zero, suc, ◌+◌, ◌-◌, ◌/◌, ◌%◌, ◌^◌, Bool, true, false, not, Option, none, some, List, [], ◌∷◌,
  ◌++◌, map, ◌&&◌, ◌==◌, leb, ltb, if◌then◌else◌, length, get_elem?, take, modify, u32, u64,
}
use hatcher.Base.Int.{ℤ, pos, negsuc}
use hatcher.Effect.{Cmd, pure, ◌>>=◌}
use hatcher.Heap.{Heap, kmalloc}
use hatcher.Text.{strcmp, until_zero}

-- `thread_state_t`
pub data ThreadState : Type 0 where
  ready running blocked terminated sleeping : ThreadState

-- `thread_t`, with the registers of its context that `thread_create` sets; the other fields are 0
-- until the first switch. `name` holds the bytes before the NUL, 32 of them if there is none.
pub record Thread : Type 0 where
  pub kernel_stack : ℕ
  pub rsp : ℕ
  pub r12 : ℕ
  pub rflags : ℕ
  pub state : ThreadState
  pub tid : ℕ
  pub name : List ℕ
  pub sleep_until : ℕ

-- `threads`, `current` and `timer_ticks`
pub record Scheduler : Type 0 where
  pub threads : List Thread
  pub current : ℕ
  pub timer_ticks : ℕ

abbrev pub max_threads : ℕ
max_threads = 32

abbrev pub thread_count : Scheduler → ℕ
thread_count s = length s.threads

abbrev pub is_ready : ThreadState → Bool
is_ready ready = true
is_ready _ = false

abbrev pub is_blocked : ThreadState → Bool
is_blocked blocked = true
is_blocked _ = false

abbrev pub is_terminated : ThreadState → Bool
is_terminated terminated = true
is_terminated _ = false

abbrev pub is_sleeping : ThreadState → Bool
is_sleeping sleeping = true
is_sleeping _ = false

abbrev pub with_state : ThreadState → Thread → Thread
with_state st t = record t { state = st }

-- "idle"
abbrev pub idle_name : List ℕ
idle_name = b'i' ∷ b'd' ∷ b'l' ∷ b'e' ∷ []

unfoldable pub thread_init : Scheduler → Scheduler
thread_init s = record s {
  threads =
      record {
        kernel_stack = 0;
        rsp = 0;
        r12 = 0;
        rflags = 0;
        state = running;
        tid = 0;
        name = idle_name;
        sleep_until = 0;
      }
      ∷ [];
  current = 0;
}

-- The thread that `thread_create` sets up on a stack of 8192 bytes at `stack`. The name is copied up
-- to its 32nd byte; the NUL behind that one falls on `sleep_until`, which is 0.
abbrev pub new_thread : ℕ → List ℕ → ℕ → ℕ → Thread
new_thread entry name stack count = record {
  kernel_stack = u64 (stack + 8192);
  rsp = u64 (u64 (stack + 8192) + 2 ^ 64 - 8);
  r12 = entry;
  rflags = 0x202;
  state = ready;
  tid = count;
  name = take 32 name;
  sleep_until = 0;
}

-- `sizeof(thread_t)` is 224. The new thread is returned by its tid. The second `kmalloc` is not
-- tested.
unfoldable pub thread_create : ℕ → List ℕ → Scheduler → Cmd Heap (Option ℕ × Scheduler)
unfolding kmalloc
thread_create entry name s = if leb max_threads (thread_count s) then pure (none, s) else do
  t ← kmalloc 224
  if t == 0 then pure (none, s) else do
    stack ← kmalloc 8208
    pure (
      some (thread_count s),
      record s { threads = s.threads ++ (new_thread entry name stack (thread_count s) ∷ []) },
    )

-- The loops that change the first thread that passes a test, and return.
unfoldable pub update_first : (Thread → Bool) → (Thread → Thread) → List Thread → List Thread
update_first test f [] = []
update_first test f (t ∷ ts) = if test t then f t ∷ ts else t ∷ update_first test f ts

unfoldable pub thread_stop : ℕ → Scheduler → Scheduler
unfolding update_first
thread_stop pid s = record s {
  threads =
      update_first (λ t. t.tid == pid && not (is_terminated t.state)) (with_state terminated)
        s.threads;
}

unfoldable pub thread_block : ℕ → Scheduler → Scheduler
unfolding update_first
thread_block pid s = record s {
  threads =
      update_first (λ t. t.tid == pid && not (is_blocked t.state)) (with_state blocked) s.threads;
}

unfoldable pub thread_unblock : ℕ → Scheduler → Scheduler
unfolding update_first
thread_unblock pid s = record s {
  threads = update_first (λ t. t.tid == pid && is_blocked t.state) (with_state ready) s.threads;
}

-- The first loop of `thread_schedule`.
unfoldable pub wake : ℕ → Thread → Thread
wake ticks t = if is_sleeping t.state && leb t.sleep_until ticks then with_state ready t else t

abbrev pub is_ready_at : List Thread → ℕ → Bool
is_ready_at ts i = elim (get_elem? ts i) [ none ↦ false | some t ↦ is_ready t.state ]

-- The second loop: `rounds` are left, the next index is `next + i`.
unfoldable pub find_ready : ℕ → ℕ → ℕ → List Thread → Option ℕ
find_ready zero next i ts = none
find_ready (suc rounds) next i ts =
    let rest = find_ready rounds next (i + 1) ts in
    if is_ready_at ts ((next + i) % length ts) then some ((next + i) % length ts) else rest

-- `prev->state = THREAD_READY`, unless the previous thread sleeps
abbrev pub put_back : Thread → Thread
put_back t = if is_sleeping t.state then t else with_state ready t

-- The body of the second loop. The last write is made by the thread that is switched to, when its
-- own call of `context_switch` returns.
unfoldable pub switch_to : ℕ → Scheduler → Scheduler
unfolding modify
switch_to idx s = record s {
  threads =
      modify idx (with_state running)
        (modify s.current put_back (modify idx (with_state running) s.threads));
  current = idx;
}

unfoldable pub wake_all : Scheduler → Scheduler
unfolding wake
wake_all s = record s { threads = map (wake s.timer_ticks) s.threads }

-- `current->tid`
abbrev pub tid_at : List Thread → ℕ → ℕ
tid_at ts i = elim (get_elem? ts i) [ none ↦ 0 | some t ↦ t.tid ]

unfoldable pub next_ready : Scheduler → Option ℕ
unfolding find_ready
next_ready s =
    find_ready (thread_count s) (u64 (tid_at s.threads s.current + 1) % thread_count s) 0 s.threads

unfoldable pub thread_schedule : Scheduler → Scheduler
unfolding wake_all next_ready switch_to
thread_schedule s = elim (next_ready (wake_all s)) [
  | none ↦ wake_all s
  | some idx ↦ switch_to idx (wake_all s)
]

unfoldable pub thread_yield : Scheduler → Scheduler
unfolding thread_schedule
thread_yield s = thread_schedule s

abbrev pub put_to_sleep : ℕ → Thread → Thread
put_to_sleep until t = record t { sleep_until = until; state = sleeping }

unfoldable pub thread_sleep : ℕ → Scheduler → Scheduler
unfolding thread_yield modify
thread_sleep ms s =
    if ms == 0
    then s
    else thread_yield (record s {
      threads = modify s.current (put_to_sleep (u32 (s.timer_ticks + ms))) s.threads;
    })

-- `timer_handler` of cpu/timer.c and the call that follows it in `timer_isr_wrapper`
unfoldable pub timer_interrupt : Scheduler → Scheduler
unfolding thread_yield
timer_interrupt s = thread_yield (record s { timer_ticks = u32 (s.timer_ticks + 1) })

-- The first thread that passes a test.
unfoldable pub find_first : (Thread → Bool) → List Thread → Option Thread
find_first test [] = none
find_first test (t ∷ ts) = if test t then some t else find_first test ts

unfoldable pub thread_get : ℕ → Scheduler → Option Thread
unfolding find_first
thread_get pid s = find_first (λ t. t.tid == pid) s.threads

-- The C string in `name`: 32 bytes with no NUL run on into `sleep_until`, little-endian.
unfoldable pub c_name : Thread → List ℕ
unfolding until_zero
c_name t =
    if ltb (length t.name) 32
    then t.name
    else t.name
      ++ until_zero (
          t.sleep_until % 2 ^ 8
          ∷ t.sleep_until / 2 ^ 8 % 2 ^ 8
          ∷ t.sleep_until / 2 ^ 16 % 2 ^ 8
          ∷ t.sleep_until / 2 ^ 24
          ∷ [])

abbrev pub is_zero : ℤ → Bool
is_zero (pos n) = n == 0
is_zero (negsuc n) = false

-- The result, -1 if there is none.
unfoldable pub thread_get_pid : List ℕ → Scheduler → ℤ
unfolding find_first c_name strcmp
thread_get_pid name s = elim (find_first (λ t. is_zero (strcmp (c_name t) name)) s.threads) [
  | none ↦ negsuc 0
  | some t ↦ pos t.tid
]

abbrev pub state_of : Option Thread → Option ThreadState
state_of none = none
state_of (some t) = some t.state

unfoldable pub thread_get_state : ℕ → Scheduler → Option ThreadState
unfolding find_first
thread_get_state pid s = state_of (find_first (λ t. t.tid == pid) s.threads)
