-- ===== src/Cadence/Examples.antt =====
-- A chore on the last day of every month, and one on the Mondays and Thursdays of every second week.
use nestova.Base.{◌+◌, ◌*◌, ◌<◌, ◌≡◌, refl, [], ◌∷◌, arith, any}
use nestova.Clock.{ns_per_day, hour}
use nestova.Calendar.{month_start, month_length, month_of, search_up, add_months_clamped}
use nestova.Cadence.{
  Cadence, weekly, monthly, validate, next_after, next_after_by_index, next_weekly_by_weekday,
  scan_days, search_down, estimate_index, step_from_anchor, occurrences_between, occurrences_from,
}
use nestova.Cadence.Least.{
  IsPlain, IsNextOccurrence, next_after-IsNextOccurrence, next_after_anchor,
}
use nestova.Cadence.Windows.{ListsWindow, occurrences_between-ListsWindow}
use nestova.Cadence.Weekdays.{HasWeekday, IsNextWeekday, next_after-IsNextWeekday}
use nestova.Cadence.Validity.{next_after_later}

-- The 31st of January of year 1, 08:00.
abbrev month_ends : Cadence
month_ends = record {
  freq = monthly;
  interval = 1;
  by_weekday = [];
  anchor = 30 * ns_per_day + 8 * hour;
}

-- Monday, the first day of year 1, 08:00.
abbrev mondays : Cadence
mondays = record { freq = weekly; interval = 2; by_weekday = 1 ∷ 4 ∷ []; anchor = 8 * hour }

month_ends-IsPlain : IsPlain month_ends
month_ends-IsPlain = record {
  dated = λ e. absurd (ground (arith, e));
  positive = omega arith;
  no_weekdays = refl;
}

mondays-HasWeekday : HasWeekday mondays
unfolding any
mondays-HasWeekday = record {
  is_weekly = refl;
  positive = omega arith;
  weekday_listed = (4, omega arith, refl);
}

next_after-IsNextOccurrence_example :
    IsNextOccurrence month_ends (40 * ns_per_day) (next_after month_ends (40 * ns_per_day))
next_after-IsNextOccurrence_example =
    next_after-IsNextOccurrence month_ends (40 * ns_per_day) month_ends-IsPlain

before_month_ends : next_after month_ends 5 ≡ 30 * ns_per_day + 8 * hour
before_month_ends = next_after_anchor month_ends 5 month_ends-IsPlain (omega arith)

occurrences_between-ListsWindow_example :
    ListsWindow month_ends 0
      (100 * ns_per_day)
      (occurrences_between month_ends 0 (100 * ns_per_day))
occurrences_between-ListsWindow_example =
    occurrences_between-ListsWindow month_ends 0 (100 * ns_per_day) month_ends-IsPlain

next_after-IsNextWeekday_example :
    IsNextWeekday mondays (4 * ns_per_day) (next_after mondays (4 * ns_per_day))
next_after-IsNextWeekday_example =
    next_after-IsNextWeekday mondays (4 * ns_per_day) mondays-HasWeekday

next_after_later_example : 4 * ns_per_day < next_after mondays (4 * ns_per_day)
next_after_later_example =
    next_after_later mondays (4 * ns_per_day) (unfold validate any in refl)
      (λ e. absurd (ground (arith, e)))

-- The last days of January, February and March, and the Monday two weeks later.
month_window :
    occurrences_between month_ends 0 (100 * ns_per_day)
    ≡ (30 * ns_per_day + 8 * hour)
      ∷ (58 * ns_per_day + 8 * hour)
      ∷ (89 * ns_per_day + 8 * hour)
      ∷ []
unfolding occurrences_between occurrences_from next_after next_after_by_index search_down
    estimate_index step_from_anchor add_months_clamped month_of search_up month_start month_length
month_window = refl

monday_next : next_after mondays (4 * ns_per_day) ≡ 14 * ns_per_day + 8 * hour
unfolding next_after next_weekly_by_weekday scan_days any
monday_next = refl
