-- ===== src/Cadence/Months.antt =====
-- The calendar's months and addMonthsClamped of internal/household/domain/cadence.go.
use nestova.Base.{
  ℕ, zero, suc, ◌+◌, ◌*◌, ◌/◌, ◌%◌, ◌≤◌, ◌<◌, ◌≡◌, inl, inr, refl, Bool, arith, Bool-cases, ◌==◌,
  eq_of_test,
}
use nestova.Clock.{Time, day_of}
use nestova.Calendar.{
  month_length, length_of_month, is_leap, month_start, month_of, add_months_clamped,
}
use nestova.Cadence.Increasing.{step_ge, search_up-lem, Passed}

length_bounds :
    (leap : Bool) (month : ℕ)
    → (28 ≤ length_of_month leap month) × (length_of_month leap month ≤ 31)
length_bounds leap month = ground arith

month_length_bounds : (month : ℕ) → (28 ≤ month_length month) × (month_length month ≤ 31)
unfolding month_length
month_length_bounds month = length_bounds (is_leap (month / 12)) (month % 12)

start_increases : (month : ℕ) → month_start (suc month) < month_start (suc (suc month))
unfolding month_start
start_increases month = ground (arith, month_length_bounds (suc month))

start_le : (month : ℕ) → month_start month ≤ 31 * month
unfolding month_start
start_le zero = omega arith
start_le (suc month) = omega (arith, start_le month, month_length_bounds month)

abbrev next_start : ℕ → ℕ
next_start month = month_start (suc month)

-- What the search has passed begins before the day.
begins : (day month : ℕ) → Passed next_start start_increases day month → month_start month ≤ day
begins day zero p = unfold month_start in omega arith
begins day (suc month) (inl e) = absurd (omega arith)
begins day (suc month) (inr p) = ground (arith, p)

guess-Passed :
    (day month : ℕ) → month_start month ≤ day → Passed next_start start_increases day month
guess-Passed day zero p = inl refl
guess-Passed day (suc month) p = inr (ground (arith, p))

-- A day lies in its month.
month_of_lem :
    (day : ℕ)
    → (month_start (month_of day) ≤ day)
      × (day < month_start (month_of day) + month_length (month_of day))
unfolding month_of
month_of_lem day =
    let (passed, found) =
      search_up-lem next_start start_increases day (day + 1) (day / 31)
        (guess-Passed day (day / 31) (omega (arith, start_le (day / 31))))
        (omega (arith, step_ge next_start start_increases (day / 31 + (day + 1)))) in
    (begins day (month_of day) passed, unfold month_start in found)

-- Later months have later days.
month_start_mono : (m k : ℕ) → m < k → month_start m + month_length m ≤ month_start k
unfolding month_start
month_start_mono m zero h = absurd (omega arith)
month_start_mono m (suc k) h = elim (Bool-cases (m == k)) [
  | inl here ↦ rw (eq_of_test m k here) (omega arith)
  | inr later ↦ omega (arith, month_start_mono m k (ground (arith, later)), month_length_bounds k)
]

-- Adding no month changes nothing.
pub add_months_clamped_zero : (base : Time) → add_months_clamped base 0 ≡ base
unfolding add_months_clamped
add_months_clamped_zero base =
    let same : month_of (day_of base) + 0 ≡ month_of (day_of base) = omega arith in
    rw same (omega (arith, month_of_lem (day_of base)))

-- Adding more months is later.
pub add_months_clamped_mono :
    (base : Time) (m n : ℕ) → m < n → add_months_clamped base m < add_months_clamped base n
unfolding add_months_clamped
add_months_clamped_mono base m n h =
    let month = month_of (day_of base) in
    omega (
      arith,
      month_start_mono (month + m) (month + n) (omega arith),
      month_length_bounds (month + m),
    )
