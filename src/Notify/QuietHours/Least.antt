-- ===== src/Notify/QuietHours/Least.antt =====
-- What the end of quiet hours is: internal/notify/domain/quiet_hours.go.
use nestova.Base.{
  ℕ, ◌+◌, ◌≤◌, ◌<◌, ◌≡◌, true, false, ◌&&◌, Option, none, some, leb, ltb, if◌then◌else◌, arith,
  refl, sym, ◌∙◌,
}
use nestova.Clock.{Time, ns_per_day, day_of, clock_of, at_day}
use nestova.Notify.QuietHours.{
  QuietHours, since_midnight, at_clock_time, in_window, within, boundary, in_quiet_hours, end_after,
}

pub since_midnight_lem : (t : Time) → since_midnight t ≡ clock_of t
since_midnight_lem t = omega arith

at_clock_time_lem : (t : Time) (d : ℕ) → at_clock_time t d ≡ at_day (day_of t) d
at_clock_time_lem t d = omega arith

-- What it is to be the end of quiet hours that a time is in.
abbrev pub IsEndOfQuiet : QuietHours → Time → Time → Type 0
IsEndOfQuiet q t e =
    (t < e)
    × (in_quiet_hours q e ≡ false)
    × ((u : Time) → t ≤ u → u < e → in_quiet_hours q u ≡ true)

-- A bound is a clock time, which the settings form gives in hours and minutes.
abbrev pub IsClock : Option ℕ → Type 0
IsClock none = Unit {0}
IsClock (some d) = d < ns_per_day

-- The boundary with the clock times read off.
boundary_of : ℕ → ℕ → Time → Time
boundary_of s e t = at_day (day_of t + (if ltb e s && leb s (clock_of t) then 1 else 0)) e

boundary_lem : (s e : ℕ) (t : Time) → boundary (some s) (some e) t ≡ boundary_of s e t
unfolding boundary_of
boundary_lem s e t =
    rw (since_midnight_lem t)
      (ground (arith, at_clock_time_lem t e, at_clock_time_lem (t + ns_per_day) e))

quiet_lem : (s e : ℕ) (t : Time) → within (some s) (some e) t ≡ in_window s e (clock_of t)
quiet_lem s e t = rw (since_midnight_lem t) refl

boundary-later :
    (s e : ℕ) (t : Time)
    → s < ns_per_day
    → e < ns_per_day
    → in_window s e (clock_of t) ≡ true
    → t < boundary_of s e t
unfolding boundary_of
boundary-later s e t a b h = ground arith

boundary-loud :
    (s e : ℕ) (t : Time)
    → s < ns_per_day
    → e < ns_per_day
    → in_window s e (clock_of t) ≡ true
    → in_window s e (clock_of (boundary_of s e t)) ≡ false
unfolding boundary_of
boundary-loud s e t a b h = ground arith

boundary-quiet :
    (s e : ℕ) (t u : Time)
    → s < ns_per_day
    → e < ns_per_day
    → in_window s e (clock_of t) ≡ true
    → t ≤ u
    → u < boundary_of s e t
    → in_window s e (clock_of u) ≡ true
unfolding boundary_of
boundary-quiet s e t u a b h from to = ground arith

boundary-IsEndOfQuiet :
    (s e : Option ℕ) (t : Time)
    → IsClock s
    → IsClock e
    → within s e t ≡ true
    → (t < boundary s e t)
      × (within s e (boundary s e t) ≡ false)
      × ((u : Time) → t ≤ u → u < boundary s e t → within s e u ≡ true)
boundary-IsEndOfQuiet none e t a b h = cc
boundary-IsEndOfQuiet (some s) none t a b h = cc
boundary-IsEndOfQuiet (some s) (some e) t a b h =
    let quiet : in_window s e (clock_of t) ≡ true = sym (quiet_lem s e t) ∙ h in
    rw (boundary_lem s e t) (
      boundary-later s e t a b quiet,
      quiet_lem s e (boundary_of s e t) ∙ boundary-loud s e t a b quiet,
      λ u from to. quiet_lem s e u ∙ boundary-quiet s e t u a b quiet from to,
    )

-- The end of quiet hours that a time is in comes after it, is not in quiet hours, and every time
-- from the one to the other is in them. The bounds are clock times of less than a day.
pub end_after-IsEndOfQuiet :
    (q : QuietHours) (t : Time)
    → IsClock q.start
    → IsClock q.end
    → in_quiet_hours q t ≡ true
    → IsEndOfQuiet q t (end_after q t)
unfolding in_quiet_hours end_after
end_after-IsEndOfQuiet q t = boundary-IsEndOfQuiet q.start q.end t
