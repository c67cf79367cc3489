-- ===== src/Cadence/Validity.antt =====
-- Validate of internal/household/domain/cadence.go and the recurrence engine.
use nestova.Base.{ℕ, ◌<◌, ◌≡◌, ◌≢◌, ◌⊎◌, refl, inl, inr, true, List, [], ◌∷◌, any, arith}
use nestova.Clock.{Time}
use nestova.Cadence.{Cadence, Freq, weekly, as_needed, validate, next_after, is_weekly}
use nestova.Cadence.Least.{IsPlain, next_after-IsNextOccurrence}
use nestova.Cadence.Weekdays.{HasWeekday, next_after-IsNextWeekday}

of_weekly : (f : Freq) → is_weekly f ≡ true → f ≡ weekly
of_weekly f e = ground (arith, e)

valid_kinds :
    (c : Cadence) (days : List ℕ)
    → c.by_weekday ≡ days
    → validate c ≡ true
    → c.freq ≢ as_needed
    → IsPlain c ⊎ HasWeekday c
unfolding validate any
valid_kinds c [] e v dated =
    inl (record { dated = dated; positive = ground (arith, v); no_weekdays = e })
valid_kinds c (d ∷ days) e v dated = inr (record {
  is_weekly = of_weekly c.freq (ground (arith, v, e));
  positive = ground (arith, v);
  weekday_listed = (d, ground (arith, v, e), ground (arith, e));
})

-- A valid cadence that is not as-needed has an occurrence after every time: the next one is later
-- than the time, so the generation of a window ends.
pub next_after_later :
    (c : Cadence) (t : Time) → validate c ≡ true → c.freq ≢ as_needed → t < next_after c t
next_after_later c t v dated = elim (valid_kinds c c.by_weekday refl v dated) [
  | inl plain ↦ (next_after-IsNextOccurrence c t plain).later
  | inr listed ↦ ground (arith, (next_after-IsNextWeekday c t listed).fits)
]
