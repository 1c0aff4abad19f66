-- ===== src/Clock/Time.antt =====
-- The clock counts the seconds of a day.
use hatcher.Base.{ℕ, zero, suc, ◌+◌, ◌*◌, ◌%◌, ◌<◌, ◌≡◌, arith}
use hatcher.Clock.{Clock, clock_tick, calc_time}

-- A time of the day, and its number of seconds.
abbrev pub IsTime : Clock → Type 0
IsTime c = (c.sys_seconds < 60) × (c.sys_minutes < 60) × (c.sys_hours < 24)

abbrev pub seconds_of : Clock → ℕ
seconds_of c = c.sys_hours * 3600 + c.sys_minutes * 60 + c.sys_seconds

clock_tick-seconds_of :
    (c : Clock)
    → IsTime c
    → IsTime (clock_tick c) × (seconds_of (clock_tick c) ≡ (seconds_of c + 1) % 86400)
unfolding clock_tick
clock_tick-seconds_of c (s, m, h) = ground arith

-- After `n` rounds of `calc_time` the clock shows a time of the day, and it is `n` seconds later than
-- before, counted around midnight.
pub calc_time-seconds_of :
    (n : ℕ) (c : Clock)
    → IsTime c
    → IsTime (calc_time n c) × (seconds_of (calc_time n c) ≡ (seconds_of c + n) % 86400)
unfolding calc_time
calc_time-seconds_of zero c (s, m, h) = ((s, m, h), omega arith)
calc_time-seconds_of (suc n) c time =
    let (time', one) = clock_tick-seconds_of c time in
    let (all, more) = calc_time-seconds_of n (clock_tick c) time' in (all, omega arith)
