-- ===== src/Subscriptions/Renewals/First.antt =====
-- Where a renewal that is past due goes: internal/subscriptions/app/renewal.go (AdvancePastDue).
use nestova.Base.{
  ℕ, zero, suc, ◌+◌, ◌*◌, ◌≤◌, ◌<◌, ◌≡◌, ◌∙◌, refl, subst, true, false, ltb, Bool-cases, arith, inl,
  inr, ok,
}
use nestova.Clock.{Time, ns_per_day, clock_of, at_day}
use nestova.Calendar.{add_months_clamped}
use nestova.Cadence.Months.{add_months_clamped_zero, add_months_clamped_mono}
use nestova.Subscriptions.{Cycle, weekly, monthly, yearly, custom}
use nestova.Subscriptions.Renewals.{next_renewal, utc_date, advance_steps, advance_past_due}

-- The renewal that follows, for a cycle that has one.
abbrev pub following : Cycle → Time → Time
following weekly t = t + 7 * ns_per_day
following monthly t = add_months_clamped t 1
following yearly t = add_months_clamped t 12
following custom t = t

-- The renewal some cycles on.
abbrev pub after_cycles : ℕ → Cycle → Time → Time
after_cycles zero cycle t = t
after_cycles (suc k) cycle t = after_cycles k cycle (following cycle t)

abbrev pub Repeats : Cycle → Type 0
Repeats custom = ⊥
Repeats weekly = Unit
Repeats monthly = Unit
Repeats yearly = Unit

pub next_renewal-following :
    (cycle : Cycle) (t : Time) → Repeats cycle → next_renewal cycle t ≡ ok (following cycle t)
unfolding next_renewal
next_renewal-following weekly t h = refl
next_renewal-following monthly t h = refl
next_renewal-following yearly t h = refl
next_renewal-following custom t h = absurd h

clock_kept : (day clock : ℕ) → clock < ns_per_day → clock_of (at_day day clock) ≡ clock
clock_kept day clock h = omega (arith, h)

clock-add_months : (t : Time) (n : ℕ) → clock_of (add_months_clamped t n) ≡ clock_of t
unfolding add_months_clamped
clock-add_months t n = clock_kept _ (clock_of t) (omega arith)

-- A later midnight is a day later.
midnight_later : (t u : Time) → t < u → clock_of t ≡ 0 → clock_of u ≡ 0 → t + ns_per_day ≤ u
midnight_later t u h from to = omega (arith, h, from, to)

month_later :
    (t : Time) (n : ℕ)
    → 0 < n
    → clock_of t ≡ 0
    → (clock_of (add_months_clamped t n) ≡ 0) × (t + ns_per_day ≤ add_months_clamped t n)
month_later t n h midnight =
    let kept : clock_of (add_months_clamped t n) ≡ 0 = clock-add_months t n ∙ midnight in
    let later : t < add_months_clamped t n =
      subst (λ u. u < add_months_clamped t n) (add_months_clamped_zero t)
        (add_months_clamped_mono t 0 n h) in
    (kept, midnight_later t (add_months_clamped t n) later midnight kept)

following_later :
    (cycle : Cycle) (t : Time)
    → Repeats cycle
    → clock_of t ≡ 0
    → (clock_of (following cycle t) ≡ 0) × (t + ns_per_day ≤ following cycle t)
following_later weekly t h midnight = omega (arith, midnight)
following_later monthly t h midnight = month_later t 1 (omega arith) midnight
following_later yearly t h midnight = month_later t 12 (omega arith) midnight
following_later custom t h midnight = absurd h

-- The renewal that a past-due one is moved to: the first of its cycle that is not before the target.
abbrev pub IsFirstRenewal : Cycle → Time → Time → Time → Type 0
IsFirstRenewal cycle next target renewal =
    (target ≤ renewal)
    × ((k : ℕ) × (after_cycles k cycle next ≡ renewal)
        × ((j : ℕ) → j < k → after_cycles j cycle next < target))

here_already :
    (steps : ℕ) (cycle : Cycle) (target current : Time)
    → ltb current target ≡ false
    → (renewal : Time) × (advance_steps (suc steps) cycle target current ≡ ok renewal)
      × IsFirstRenewal cycle current target renewal
unfolding advance_steps
here_already steps cycle target current late =
    (current, rw late refl, (ground (arith, late), (0, refl, λ j h. absurd (omega (arith, h)))))

advance_steps-IsFirstRenewal :
    (steps : ℕ) (cycle : Cycle) (target current : Time)
    → Repeats cycle
    → clock_of current ≡ 0
    → target ≤ current + steps * ns_per_day
    → (renewal : Time) × (advance_steps (suc steps) cycle target current ≡ ok renewal)
      × IsFirstRenewal cycle current target renewal
unfolding advance_steps
advance_steps-IsFirstRenewal zero cycle target current r m enough =
    here_already zero cycle target current (ground (arith, enough))
advance_steps-IsFirstRenewal (suc steps) cycle target current r m enough =
    let next = following cycle current in
    let (midnight, later) = following_later cycle current r m in
    let (renewal, made, (reached, (k, after, before))) =
      advance_steps-IsFirstRenewal steps cycle target next r midnight
        (omega (arith, enough, later)) in
    elim (Bool-cases (ltb current target)) [
      | inl early ↦ (
        renewal,
        rw (early, next_renewal-following cycle current r) made,
        (reached, (suc k, after, λ j. before_of early k before j)),
      )
      | inr late ↦ here_already (suc steps) cycle target current late
    ]
  where
    before_of :
        ltb current target ≡ true
        → (k : ℕ) → ((j : ℕ) → j < k → after_cycles j cycle (following cycle current) < target)
        → (j : ℕ) → j < suc k
        → after_cycles j cycle current < target
    before_of early k before zero h = ground (arith, early)
    before_of early k before (suc j) h = before j (omega (arith, h))

-- A renewal that is past due is moved to the first renewal of its cycle that is not before the
-- day's date, and that is found within the bound of the loop. The cycle is weekly, monthly or yearly,
-- the renewal is a date, and it is less than ten thousand days past.
pub advance_past_due-IsFirstRenewal :
    (cycle : Cycle) (next as_of : Time)
    → Repeats cycle
    → clock_of next ≡ 0
    → utc_date as_of ≤ next + 9999 * ns_per_day
    → (renewal : Time) × (advance_past_due cycle next as_of ≡ ok renewal)
      × IsFirstRenewal cycle next (utc_date as_of) renewal
unfolding advance_past_due
advance_past_due-IsFirstRenewal cycle next as_of =
    advance_steps-IsFirstRenewal 9999 cycle (utc_date as_of) next
