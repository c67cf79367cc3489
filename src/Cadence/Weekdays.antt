-- ===== src/Cadence/Weekdays.antt =====
-- The scan for the next weekday: nextWeeklyByWeekday of internal/household/domain/cadence.go.
use nestova.Base.{
  ℕ, zero, suc, ◌+◌, ◌-◌, ◌*◌, ◌/◌, ◌≤◌, ◌<◌, ◌≡◌, refl, sym, subst, ap, ◌∙◌, true, false, leb, ltb,
  ◌==◌, if◌then◌else◌, List, [], ◌∷◌, some, any, arith, Bool-cases, inl, inr,
}
use native.Mathlib.Nat.{lt-div-mul-add, div-mul-le_self, mul-mod_left}
use nestova.Clock.{Time, day_of, clock_of, at_day, weekday, ns_per_day}
use nestova.Cadence.{
  Cadence, weekly, is_next, scan_days, next_weekly_by_weekday, next_after, week_start, at_clock,
  or_anchor, is_empty,
}

module _ (c : Cadence) (t : Time) where
  scan_here :
      (rounds : ℕ) (cand : Time)
      → is_next c t cand ≡ true
      → scan_days c t (suc rounds) cand ≡ some cand
  unfolding scan_days
  scan_here rounds cand e = rw (scan_days, e) refl

  scan_on :
      (rounds : ℕ) (cand : Time)
      → is_next c t cand ≡ false
      → scan_days c t (suc rounds) cand ≡ scan_days c t rounds (cand + ns_per_day)
  unfolding scan_days
  scan_on rounds cand e = rw (scan_days, e) refl

  -- The result of the scan: the first day that will do.
  record Scanned (rounds : ℕ) (start : Time) : Type 0 where
    days : ℕ
    found : scan_days c t rounds start ≡ some (start + days * ns_per_day)
    fits : is_next c t (start + days * ns_per_day) ≡ true
    first : (i : ℕ) → i < days → is_next c t (start + i * ns_per_day) ≡ false

  no_days : (start : Time) → start + 0 * ns_per_day ≡ start
  no_days start = omega arith

  at_once : (rounds : ℕ) (start : Time) → is_next c t start ≡ true → Scanned (suc rounds) start
  at_once rounds start e =
      let here = sym (no_days start) in
      record {
        days = 0;
        found = scan_here rounds start e ∙ ap some here;
        fits = subst (λ x. is_next c t x ≡ true) here e;
        first = λ i b. absurd (omega arith);
      }

  next_day :
      (start : Time) (i : ℕ) → start + ns_per_day + i * ns_per_day ≡ start + suc i * ns_per_day
  next_day start i = omega arith

  one_later :
      (rounds : ℕ) (start : Time)
      → is_next c t start ≡ false
      → Scanned rounds (start + ns_per_day)
      → Scanned (suc rounds) start
  one_later rounds start e rest = record {
    days = suc rest.days;
    found = scan_on rounds start e ∙ rest.found ∙ ap some (next_day start rest.days);
    fits = subst (λ x. is_next c t x ≡ true) (next_day start rest.days) rest.fits;
    first = passed;
  }
    where
      passed : (i : ℕ) → i < suc rest.days → is_next c t (start + i * ns_per_day) ≡ false
      passed zero b = subst (λ x. is_next c t x ≡ false) (sym (no_days start)) e
      passed (suc i) b =
          subst (λ x. is_next c t x ≡ false) (next_day start i) (rest.first i (omega arith))

  -- A day within the bound that will do is enough.
  scan_lem :
      (rounds : ℕ) (start : Time) (k : ℕ)
      → k < rounds
      → is_next c t (start + k * ns_per_day) ≡ true
      → Scanned rounds start
  scan_lem zero start k h e = absurd (omega arith)
  scan_lem (suc rounds) start zero h e =
      at_once rounds start (subst (λ x. is_next c t x ≡ true) (no_days start) e)
  scan_lem (suc rounds) start (suc k) h e = elim (Bool-cases (is_next c t start)) [
    | inl now ↦ at_once rounds start now
    | inr later ↦ one_later rounds start later (
        scan_lem rounds (start + ns_per_day) k (omega arith)
          (subst (λ x. is_next c t x ≡ true) (sym (next_day start k)) e))
  ]

-- The day of the week that starts `weeks` intervals after the anchor's week.
abbrev day_in : Cadence → ℕ → ℕ → ℕ
day_in c weeks d = 7 * ((day_of c.anchor + 1) / 7 + weeks * c.interval) + d - 1

day_in_lem :
    (c : Cadence) (weeks d : ℕ)
    → d ≤ 6
    → 0 < weeks * c.interval
    → (weekday (day_in c weeks d) ≡ d)
      × ((week_start (day_in c weeks d) - week_start (day_of c.anchor)) / 7 ≡ weeks * c.interval)
day_in_lem c weeks d h p = (omega arith, omega arith)

-- The first week of the cadence after the week of a day.
abbrev weeks_after : Cadence → ℕ → ℕ
weeks_after c day = ((day + 1) / 7 - (day_of c.anchor + 1) / 7) / c.interval + 1

weeks_after_lem :
    (c : Cadence) (day : ℕ)
    → 0 < c.interval
    → ((day + 1) / 7 - (day_of c.anchor + 1) / 7 < weeks_after c day * c.interval)
      × (weeks_after c day * c.interval ≤ (day + 1) / 7 - (day_of c.anchor + 1) / 7 + c.interval)
weeks_after_lem c day p =
    let w = (day + 1) / 7 - (day_of c.anchor + 1) / 7 in
    let next : weeks_after c day * c.interval ≡ w / c.interval * c.interval + c.interval =
      suc_times (w / c.interval) c.interval in
    (
      omega (arith, next, lt-div-mul-add {a = w} p),
      omega (arith, next, div-mul-le_self w c.interval),
    )
  where
    suc_times : (n k : ℕ) → (n + 1) * k ≡ n * k + k
    suc_times n k = omega arith

-- A weekly cadence with a positive interval and a weekday of the seven.
pub record HasWeekday (c : Cadence) : Type 0 where
  pub is_weekly : c.freq ≡ weekly
  pub positive : 0 < c.interval
  pub weekday_listed : (d : ℕ) × (d ≤ 6) × (any (λ x. x == d) c.by_weekday ≡ true)

-- The later of the time and the anchor, where the scan starts.
abbrev base_of : Cadence → Time → Time
base_of c t = if ltb c.anchor t then t else c.anchor

-- A day of the next week of the cadence will do.
day_fits :
    (c : Cadence) (t : Time) (d : ℕ)
    → 0 < c.interval
    → d ≤ 6
    → any (λ x. x == d) c.by_weekday ≡ true
    → let day = day_in c (weeks_after c (day_of (base_of c t))) d in
      (day_of (base_of c t) < day)
      × (day ≤ day_of (base_of c t) + c.interval * 7 + 7)
      × (is_next c t (at_day day (clock_of c.anchor)) ≡ true)
day_fits c t d p h listed =
    let base = base_of c t in
    let weeks = weeks_after c (day_of base) in
    let day = day_in c weeks d in
    let (above, within) = weeks_after_lem c (day_of base) p in
    let (is_d, in_week) = day_in_lem c weeks d h (omega arith) in
    let late : (t ≤ base) × (c.anchor ≤ base) = ground arith in
    let after : day_of base < day = omega arith in
    let same_day : day_of (at_day day (clock_of c.anchor)) ≡ day = omega arith in
    let starts : (t < at_day day (clock_of c.anchor))
        × (c.anchor ≤ at_day day (clock_of c.anchor)) =
      omega (arith, late, after) in
    (
      after,
      omega arith,
      rw (same_day, in_week, mul-mod_left weeks c.interval, is_d, listed) (ground (arith, starts)),
    )

-- The least day after a time that is on a listed weekday of one of the cadence's weeks, at the
-- anchor's clock time and not before the anchor.
pub record IsNextWeekday (c : Cadence) (t o : Time) : Type 0 where
  pub fits : is_next c t o ≡ true
  pub same_clock : clock_of o ≡ clock_of c.anchor
  pub least :
      (other : Time) → is_next c t other ≡ true → clock_of other ≡ clock_of c.anchor → o ≤ other

least_of :
    (c : Cadence) (t : Time)
    → (scan : Scanned c t (c.interval * 7 + 8) (at_clock (base_of c t) c.anchor))
    → IsNextWeekday c t (at_clock (base_of c t) c.anchor + scan.days * ns_per_day)
least_of c t scan = record {
  fits = scan.fits;
  same_clock = omega arith;
  least = λ other e same. elim (Bool-cases (leb o other)) [
    | inl p ↦ ground (arith, p)
    | inr p ↦
        let i = day_of other - day_of (base_of c t) in
        let late : (t ≤ other) × (c.anchor ≤ other) = ground (arith, e) in
        let from : base_of c t ≤ other = ground (arith, late) in
        let at : start + i * ns_per_day ≡ other = omega (arith, same, from) in
        let missed = scan.first i (ground (arith, p, at)) in absurd (ground (arith, missed, at, e))
  ];
}
  where
    start : Time
    start = at_clock (base_of c t) c.anchor

    o : Time
    o = start + scan.days * ns_per_day

scanned :
    (c : Cadence) (t : Time)
    → HasWeekday c
    → Scanned c t (c.interval * 7 + 8) (at_clock (base_of c t) c.anchor)
scanned c t v =
    let (d, h, listed) = v.weekday_listed in
    let (after, within, fits) = day_fits c t d v.positive h listed in
    let day = day_in c (weeks_after c (day_of (base_of c t))) d in
    let base = base_of c t in
    let there : at_clock base c.anchor + (day - day_of base) * ns_per_day
        ≡ at_day day (clock_of c.anchor) =
      omega (arith, after) in
    scan_lem c t (c.interval * 7 + 8) (at_clock base c.anchor) (day - day_of base) (omega arith)
      (subst (λ x. is_next c t x ≡ true) (sym there) fits)

not_empty : (d : ℕ) (xs : List ℕ) → any (λ x. x == d) xs ≡ true → is_empty xs ≡ false
unfolding any
not_empty d [] e = absurd (ground (arith, e))
not_empty d (x ∷ xs) e = refl

listed_weekday : (c : Cadence) → HasWeekday c → is_empty c.by_weekday ≡ false
listed_weekday c v = let (d, h, listed) = v.weekday_listed in not_empty d c.by_weekday listed

scans : (c : Cadence) (t : Time) → HasWeekday c → next_after c t ≡ next_weekly_by_weekday c t
unfolding next_after
scans c t v = ground (arith, v.is_weekly, listed_weekday c v)

-- For a weekly cadence with a positive interval and a weekday of the seven, the scan ends within
-- its bound: the next occurrence after any time is later than it, not before the anchor, at the
-- anchor's clock time, on a listed weekday and a whole number of intervals of weeks after the
-- anchor's week, and it is the least such time.
pub next_after-IsNextWeekday :
    (c : Cadence) (t : Time) → HasWeekday c → IsNextWeekday c t (next_after c t)
unfolding next_weekly_by_weekday
next_after-IsNextWeekday c t v =
    let scan = scanned c t v in
    subst (IsNextWeekday c t) (sym (scans c t v ∙ ap (or_anchor c.anchor) scan.found))
      (least_of c t scan)
