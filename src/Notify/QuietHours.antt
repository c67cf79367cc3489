-- ===== src/Notify/QuietHours.antt =====
-- A household's quiet hours: internal/notify/domain/quiet_hours.go. Durations are nanoseconds since
-- midnight, and a household without bounds has quiet hours disabled.
pub mod Least
use nestova.Base.{
  ℕ, suc, ◌+◌, ◌*◌, ◌/◌, ◌%◌, ◌≤◌, ◌<◌, ◌≡◌, ◌≢◌, Bool, true, false, ◌&&◌, ◌||◌, Option, none, some,
  leb, ltb, if◌then◌else◌, arith,
}
use nestova.Clock.{Time, hour, minute, second, ns_per_day, day_of, clock_of, at_day}

pub record QuietHours : Type 0 where
  pub start : Option ℕ
  pub end : Option ℕ

-- `t.Hour()` and the rest are the digits of the time since midnight in hours, minutes, seconds and
-- nanoseconds.
abbrev pub since_midnight : Time → ℕ
since_midnight t =
    clock_of t / hour * hour
    + clock_of t % hour / minute * minute
    + clock_of t % minute / second * second
    + clock_of t % second

-- `time.Date` of the day with the digits of the duration.
abbrev pub at_clock_time : Time → ℕ → Time
at_clock_time day d = at_day (day_of day) (
    d / hour * hour
    + d % hour / minute * minute
    + d % hour % minute / second * second
    + d % hour % minute % second)

abbrev pub in_window : ℕ → ℕ → ℕ → Bool
in_window start end since =
    if leb start end then leb start since && ltb since end else leb start since || ltb since end

abbrev pub within : Option ℕ → Option ℕ → Time → Bool
within (some start) (some end) t = in_window start end (since_midnight t)
within (some start) none t = false
within none end t = false

unfoldable pub in_quiet_hours : QuietHours → Time → Bool
in_quiet_hours q t = within q.start q.end t

-- Past the evening part of a window that crosses midnight, the boundary is on the next day.
abbrev pub boundary : Option ℕ → Option ℕ → Time → Time
boundary (some start) (some end) t =
    at_clock_time (if ltb end start && leb start (since_midnight t) then t + ns_per_day else t) end
boundary (some start) none t = t
boundary none end t = t

unfoldable pub end_after : QuietHours → Time → Time
end_after q t = boundary q.start q.end t
