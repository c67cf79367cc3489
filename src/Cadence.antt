-- ===== src/Cadence.antt =====
-- Recurrence cadences: internal/household/domain/cadence.go. An interval is a number that Validate
-- bounds, and a weekday is 0 for Sunday to 6.
pub mod Increasing
pub mod Months
pub mod Least
pub mod Windows
pub mod Weekdays
pub mod Validity
mod Examples
use nestova.Base.{
  ℕ, zero, suc, ◌+◌, ◌-◌, ◌*◌, ◌/◌, ◌%◌, Bool, true, false, not, ◌&&◌, ◌||◌, List, [], ◌∷◌, Option,
  none, some, any, ltb, leb, ◌==◌, if◌then◌else◌,
}
use nestova.Clock.{Time, day_of, clock_of, at_day, weekday, ns_per_day}
use nestova.Calendar.{month_of, add_months_clamped, search_up}

pub data Freq : Type 0 where
  daily weekly monthly as_needed : Freq

pub record Cadence : Type 0 where
  pub freq : Freq
  pub interval : ℕ
  pub by_weekday : List ℕ
  pub anchor : Time

abbrev max_cadence_interval : ℕ
max_cadence_interval = 1000

abbrev pub is_weekly : Freq → Bool
is_weekly weekly = true
is_weekly _ = false

abbrev pub is_empty {ℓ} : {A : Type ℓ} → List A → Bool
is_empty [] = true
is_empty (x ∷ xs) = false

-- Whether Validate finds no error.
unfoldable pub validate : Cadence → Bool
validate c =
    leb 1 c.interval
    && leb c.interval max_cadence_interval
    && not (c.anchor == 0)
    && (is_empty c.by_weekday || is_weekly c.freq)
    && not (any (λ d. ltb 6 d) c.by_weekday)

-- The nth occurrence of a cadence without weekdays: the switch over its frequency.
abbrev pub step_by : Freq → ℕ → Time → ℕ → Time
step_by daily interval anchor n = anchor + n * interval * ns_per_day
step_by weekly interval anchor n = anchor + n * interval * 7 * ns_per_day
step_by monthly interval anchor n = add_months_clamped anchor (n * interval)
step_by as_needed interval anchor n = anchor

unfoldable pub step_from_anchor : Cadence → ℕ → Time
step_from_anchor c = step_by c.freq c.interval c.anchor

-- The time is not before the anchor, so no difference is negative.
unfoldable pub estimate_index : Cadence → Time → ℕ
estimate_index c t = elim c.freq [
  | daily ↦ (day_of t - day_of c.anchor) / c.interval
  | weekly ↦ (day_of t - day_of c.anchor) / (c.interval * 7)
  | monthly ↦ (month_of (day_of t) - month_of (day_of c.anchor)) / c.interval
  | as_needed ↦ 0
]

-- `for n > 0 && step(n-1).After(t) { n-- }`
unfoldable pub search_down : (ℕ → Time) → Time → ℕ → ℕ
search_down step t zero = 0
search_down step t (suc n) = elim (ltb t (step n)) [ true ↦ search_down step t n | false ↦ suc n ]

-- The days of the scan: `week` is the Sunday that begins a day's week, counted from 0000-12-31.
abbrev pub week_start : ℕ → ℕ
week_start day = day + 1 - weekday day

-- The clock time of the anchor on another day.
abbrev pub at_clock : Time → Time → Time
at_clock day ref = at_day (day_of day) (clock_of ref)

abbrev is_occurrence_day : Cadence → Time → Bool
is_occurrence_day c cand =
    any (λ d. d == weekday (day_of cand)) c.by_weekday
    && (week_start (day_of cand) - week_start (day_of c.anchor)) / 7 % c.interval == 0

-- What the scan returns at.
abbrev pub is_next : Cadence → Time → Time → Bool
is_next c t cand = ltb t cand && leb c.anchor cand && is_occurrence_day c cand

-- The loop over the days, `rounds` of them.
unfoldable pub scan_days : Cadence → Time → ℕ → Time → Option Time
scan_days c t zero cand = none
scan_days c t (suc rounds) cand = elim (is_next c t cand) [
  | true ↦ some cand
  | false ↦ scan_days c t rounds (cand + ns_per_day)
]

abbrev pub or_anchor : Time → Option Time → Time
or_anchor anchor none = anchor
or_anchor anchor (some t) = t

unfoldable pub next_weekly_by_weekday : Cadence → Time → Time
next_weekly_by_weekday c t =
    let day = at_clock (if ltb c.anchor t then t else c.anchor) c.anchor in
    or_anchor c.anchor (scan_days c t (c.interval * 7 + 8) day)

-- `t + 1` rounds are enough, since the occurrences increase.
unfoldable pub next_after_by_index : Cadence → Time → Time
next_after_by_index c t =
    let step = step_from_anchor c in
    if ltb t (step 0)
    then step 0
    else step (search_up step t (t + 1) (search_down step t (estimate_index c t)))

-- The zero time for a cadence without occurrences.
unfoldable pub next_after : Cadence → Time → Time
next_after c t = elim c.freq [
  | as_needed ↦ 0
  | weekly ↦ if is_empty c.by_weekday then next_after_by_index c t else next_weekly_by_weekday c t
  | _ ↦ next_after_by_index c t
]

-- The loop of OccurrencesBetween.
unfoldable pub occurrences_from : Cadence → Time → ℕ → Time → List Time
occurrences_from c end zero o = []
occurrences_from c end (suc fuel) o = elim (leb o end) [
  | true ↦ o ∷ occurrences_from c end fuel (next_after c o)
  | false ↦ []
]

-- Every occurrence is later than the one before, so `end + 1` rounds are enough.
unfoldable pub occurrences_between : Cadence → Time → Time → List Time
occurrences_between c start end = elim c.freq [
  | as_needed ↦ []
  | _ ↦ occurrences_from c end (end + 1) (next_after c start)
]
