-- ===== src/Clock/Tests.antt =====
-- One second before midnight.
use hatcher.Base.{◌+◌, ◌%◌, ◌≡◌, arith}
use hatcher.Clock.{Clock, calc_time}
use hatcher.Clock.Time.{IsTime, seconds_of, calc_time-seconds_of}

abbrev late : Clock
late = record { sys_seconds = 59; sys_minutes = 59; sys_hours = 23 }

calc_time_example :
    IsTime (calc_time 2 late) × (seconds_of (calc_time 2 late) ≡ (seconds_of late + 2) % 86400)
calc_time_example = calc_time-seconds_of 2 late (omega arith, omega arith, omega arith)
