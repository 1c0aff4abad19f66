-- ===== src/Clock.antt =====
-- kernel/tasks/gui.c: the clock of `calc_time` and the figure of `calculate_cpu_usage`.
pub mod Time
mod Tests
use hatcher.Base.{
  ℕ, zero, suc, ◌+◌, ◌-◌, ◌*◌, ◌/◌, ◌^◌, Bool, true, false, Option, none, some, List, [], ◌∷◌, ◌==◌,
  ltb, if◌then◌else◌, u32, u64,
}
use hatcher.Base.Int.{ℤ, is_zero, signed32}
use hatcher.Text.{strcmp}

-- `sys_seconds`, `sys_minutes`, `sys_hours`
pub record Clock : Type 0 where
  pub sys_seconds : ℕ
  pub sys_minutes : ℕ
  pub sys_hours : ℕ

-- The three tests of a round, each on what the one before has left.
abbrev pub carry_seconds : Clock → Clock
carry_seconds c =
    if c.sys_seconds == 60
    then record c { sys_seconds = 0; sys_minutes = u64 (c.sys_minutes + 1) }
    else c

abbrev pub carry_minutes : Clock → Clock
carry_minutes c =
    if c.sys_minutes == 60
    then record c { sys_minutes = 0; sys_hours = u64 (c.sys_hours + 1) }
    else c

abbrev pub carry_hours : Clock → Clock
carry_hours c = if c.sys_hours == 24 then record c { sys_hours = 0 } else c

-- One round of the loop of `calc_time`.
unfoldable pub clock_tick : Clock → Clock
clock_tick c =
    carry_hours (carry_minutes (carry_seconds (record c { sys_seconds = u64 (c.sys_seconds + 1) })))

-- `n` rounds.
unfoldable pub calc_time : ℕ → Clock → Clock
unfolding clock_tick
calc_time zero c = c
calc_time (suc n) c = calc_time n (clock_tick c)

-- `user_time`, `system_time`, `irq_time`, `idle_time` and `last_cpu_update`
pub record Usage : Type 0 where
  pub user_time : ℕ
  pub system_time : ℕ
  pub irq_time : ℕ
  pub idle_time : ℕ
  pub last_cpu_update : ℕ

-- "idle" and "shell"
abbrev pub idle_name : List ℕ
idle_name = b'i' ∷ b'd' ∷ b'l' ∷ b'e' ∷ []

abbrev pub shell_name : List ℕ
shell_name = b's' ∷ b'h' ∷ b'e' ∷ b'l' ∷ b'l' ∷ []

-- Whether there is a current thread, with this name.
abbrev pub is_named : List ℕ → Option (List ℕ) → Bool
is_named name none = false
is_named name (some current) = is_zero (strcmp current name)

-- The ticks that have gone by are added to one of the figures.
unfoldable pub add_ticks : Option (List ℕ) → ℕ → Usage → Usage
unfolding strcmp
add_ticks current delta_ticks u =
    if is_named idle_name current
    then record u { idle_time = u32 (u.idle_time + delta_ticks) }
    else if is_named shell_name current
    then record u { user_time = u32 (u.user_time + delta_ticks) }
    else record u { system_time = u32 (u.system_time + delta_ticks) }

abbrev pub active_time : Usage → ℕ
active_time u = u32 (u.user_time + u.system_time + u.irq_time)

abbrev pub cpu_time : Usage → ℕ
cpu_time u = u32 (active_time u + u.idle_time)

-- `current` is the name of the current thread, none where there is none.
unfoldable pub calculate_cpu_usage : ℕ → Option (List ℕ) → Usage → ℤ × Usage
unfolding add_ticks
calculate_cpu_usage timer_ticks current u =
    let current_ticks = u32 timer_ticks in
    let delta_ticks = u32 (current_ticks + 2 ^ 32 - u.last_cpu_update) in
    let u' = add_ticks current delta_ticks u in
    let percent = if ltb 0 (cpu_time u') then u32 (active_time u' * 100) / cpu_time u' else 0 in
    if delta_ticks == 0 then (signed32 0, u) else (
      signed32 percent,
      if ltb 100 (cpu_time u')
          then record {
            user_time = 0;
            system_time = 0;
            irq_time = 0;
            idle_time = 0;
            last_cpu_update = current_ticks;
          }
          else record u' { last_cpu_update = current_ticks },
    )
