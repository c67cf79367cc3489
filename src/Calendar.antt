-- ===== src/Calendar.antt =====
-- The Gregorian calendar, as Go's `time.Date` and `Date()` use it: months are counted from January
-- of year 1, days from 0001-01-01.
use nestova.Base.{
  ℕ, zero, suc, ◌+◌, ◌-◌, ◌/◌, ◌%◌, Bool, true, false, ◌&&◌, ◌||◌, not, ltb, ◌==◌, if◌then◌else◌,
  min,
}
use nestova.Clock.{Time, day_of, clock_of, at_day}

-- `year` is counted from 0, so year 1 is 0.
abbrev pub is_leap : ℕ → Bool
is_leap year = (year + 1) % 4 == 0 && (not ((year + 1) % 100 == 0) || (year + 1) % 400 == 0)

-- The months of a year, January at 0.
abbrev pub length_of_month : Bool → ℕ → ℕ
length_of_month leap month =
    if month == 1
    then (if leap then 29 else 28)
    else (if month == 3 || month == 5 || month == 8 || month == 10 then 30 else 31)

unfoldable pub month_length : ℕ → ℕ
month_length month = length_of_month (is_leap (month / 12)) (month % 12)

-- The day that begins a month.
unfoldable pub month_start : ℕ → ℕ
month_start zero = 0
month_start (suc month) = month_start month + month_length month

-- `for !step(n).After(t) { n++ }`, at most `fuel` rounds.
unfoldable pub search_up : (ℕ → ℕ) → ℕ → ℕ → ℕ → ℕ
search_up step t zero n = n
search_up step t (suc fuel) n = elim (ltb t (step n)) [
  | true ↦ n
  | false ↦ search_up step t fuel (suc n)
]

-- The month of a day: the first one that ends after it.
unfoldable pub month_of : ℕ → ℕ
month_of day = search_up (λ month. month_start (suc month)) day (day + 1) (day / 31)

-- The day of a month that is `day` days after its first, or its last.
abbrev clamped_day : ℕ → ℕ → ℕ
clamped_day month day = month_start month + min day (month_length month - 1)

unfoldable pub add_months_clamped : Time → ℕ → Time
add_months_clamped base months =
    let month = month_of (day_of base) in
    at_day (clamped_day (month + months) (day_of base - month_start month)) (clock_of base)
