-- ===== src/Clock.antt =====
-- Go's `time` package as the code uses it. An instant is a number of nanoseconds since the zero
-- time, 0001-01-01 00:00:00, read in one zone of constant offset: the zone's own daylight saving
-- shifts are not modelled, so adding days is adding whole days.
use nestova.Base.{ℕ, ◌+◌, ◌*◌, ◌/◌, ◌%◌}

abbrev pub Time : Type 0
Time = ℕ

abbrev pub hour : ℕ
hour = 3600000000000

abbrev pub minute : ℕ
minute = 60000000000

abbrev pub second : ℕ
second = 1000000000

abbrev pub ns_per_day : ℕ
ns_per_day = 86400000000000

-- The calendar day of an instant, counted from 0001-01-01.
abbrev pub day_of : Time → ℕ
day_of t = t / ns_per_day

-- The time since the midnight that begins the day.
abbrev pub clock_of : Time → ℕ
clock_of t = t % ns_per_day

-- A day and a clock time as an instant.
abbrev pub at_day : ℕ → ℕ → Time
at_day day clock = day * ns_per_day + clock

-- 0001-01-01 was a Monday; Sunday is 0.
abbrev pub weekday : ℕ → ℕ
weekday day = (day + 1) % 7
