-- ===== src/Cadence/Least.antt =====
-- NextAfter of internal/household/domain/cadence.go for a cadence without weekdays.
use nestova.Base.{
  ℕ, suc, ◌+◌, ◌*◌, ◌≤◌, ◌<◌, ◌≡◌, ◌≢◌, inl, inr, refl, sym, ltb, [], arith, Bool-cases,
  if◌then◌else◌,
}
use nestova.Clock.{Time}
use nestova.Calendar.{search_up}
use nestova.Cadence.{
  Cadence, Freq, daily, weekly, monthly, as_needed, step_by, step_from_anchor, estimate_index,
  search_down, next_after_by_index, next_after, next_weekly_by_weekday, is_empty,
}
use nestova.Cadence.Months.{add_months_clamped_zero, add_months_clamped_mono}
use nestova.Cadence.Increasing.{
  step_ge, search_down-Passed, search_up-lem, first_least, step_le, Passed,
}

suc_times : (n k : ℕ) → suc n * k ≡ n * k + k
suc_times n k = omega arith

step_by_increases :
    (f : Freq) (interval anchor n : ℕ)
    → f ≢ as_needed
    → 1 ≤ interval
    → step_by f interval anchor n < step_by f interval anchor (suc n)
step_by_increases daily interval anchor n d h = omega (arith, suc_times n interval)
step_by_increases weekly interval anchor n d h = omega (arith, suc_times n interval)
step_by_increases monthly interval anchor n d h =
    add_months_clamped_mono anchor (n * interval) (suc n * interval)
      (omega (arith, suc_times n interval))
step_by_increases as_needed interval anchor n d h = absurd (d refl)

step_by_zero : (f : Freq) (interval anchor : ℕ) → step_by f interval anchor 0 ≡ anchor
step_by_zero daily interval anchor = omega arith
step_by_zero weekly interval anchor = omega arith
step_by_zero monthly interval anchor =
    let zero_months : 0 * interval ≡ 0 = omega arith in
    rw zero_months (add_months_clamped_zero anchor)
step_by_zero as_needed interval anchor = refl

-- A cadence with dated occurrences that no weekday list picks.
pub record IsPlain (c : Cadence) : Type 0 where
  pub dated : c.freq ≢ as_needed
  pub positive : 1 ≤ c.interval
  pub no_weekdays : c.by_weekday ≡ []

module _ (c : Cadence) (plain : IsPlain c) where
  pub step-increases : (n : ℕ) → step_from_anchor c n < step_from_anchor c (suc n)
  unfolding step_from_anchor
  step-increases n = step_by_increases c.freq c.interval c.anchor n plain.dated plain.positive

  pub step_zero : step_from_anchor c 0 ≡ c.anchor
  unfolding step_from_anchor
  step_zero = step_by_zero c.freq c.interval c.anchor

  by_index_lem :
      (t : Time)
      → (n : ℕ) × (next_after_by_index c t ≡ step_from_anchor c n)
        × (t < step_from_anchor c n)
        × Passed (step_from_anchor c) step-increases t n
  unfolding next_after_by_index
  by_index_lem t = elim (Bool-cases (ltb t (step_from_anchor c 0))) [
    | inl p ↦ (0, rw p refl, ground arith, inl refl)
    | inr p ↦
        let step = step_from_anchor c in
        let down = search_down step t (estimate_index c t) in
        let (passed, found) =
          search_up-lem step step-increases t (t + 1) down
            (search_down-Passed step step-increases t (estimate_index c t))
            (omega (arith, step_ge step step-increases (down + (t + 1)))) in
        (search_up step t (t + 1) down, rw p refl, found, passed)
  ]

  plain_next : (t : Time) → next_after c t ≡ next_after_by_index c t
  unfolding next_after
  plain_next t = by_freq c.freq plain.dated
    where
      by_freq :
          (f : Freq)
          → f ≢ as_needed
          → (elim f [
            | as_needed ↦ 0
            | weekly ↦
                if is_empty c.by_weekday
                then next_after_by_index c t
                else next_weekly_by_weekday c t
            | _ ↦ next_after_by_index c t
          ])
            ≡ next_after_by_index c t
      by_freq daily d = refl
      by_freq weekly d = rw plain.no_weekdays refl
      by_freq monthly d = refl
      by_freq as_needed d = absurd (d refl)

-- The occurrences of a cadence without weekdays.
abbrev pub IsOccurrence : Cadence → Time → Type 0
IsOccurrence c o = (n : ℕ) × (o ≡ step_from_anchor c n)

-- The least occurrence after a time.
pub record IsNextOccurrence (c : Cadence) (t o : Time) : Type 0 where
  pub occurs : IsOccurrence c o
  pub later : t < o
  pub least : (other : Time) → IsOccurrence c other → t < other → o ≤ other

-- The next occurrence after any time is the least occurrence after it, for a daily, weekly or
-- monthly cadence with a positive interval and no weekdays.
pub next_after-IsNextOccurrence :
    (c : Cadence) (t : Time) → IsPlain c → IsNextOccurrence c t (next_after c t)
next_after-IsNextOccurrence c t plain =
    let (n, e, found, passed) = by_index_lem c plain t in
    rw (plain_next c plain t, e)
      (record {
        occurs = (n, refl);
        later = found;
        least = λ other (m, o) after. rw o (
            first_least (step_from_anchor c) (step-increases c plain) t n m passed (rw o at after));
      })

-- Before the anchor the next occurrence is the anchor itself.
pub next_after_anchor :
    (c : Cadence) (t : Time) → IsPlain c → t < c.anchor → next_after c t ≡ c.anchor
next_after_anchor c t plain before =
    let next = next_after-IsNextOccurrence c t plain in
    let (n, e) = next.occurs in
    let first = step_zero c plain in
    let up_to = next.least c.anchor (0, sym first) before in
    let from = step_le (step_from_anchor c) (step-increases c plain) 0 n (omega arith) in
    omega (arith, first, e, up_to, from)
