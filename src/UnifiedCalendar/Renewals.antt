-- ===== src/UnifiedCalendar/Renewals.antt =====
-- The renewals that a subscription contributes: internal/calendar/app/unified.go (projectRenewals).
use nestova.Base.{
  ℕ, zero, suc, ◌+◌, ◌-◌, ◌≤◌, ◌<◌, ◌≡◌, sym, refl, subst, true, false, ◌&&◌, List, [], ◌∷◌, length,
  any, ◌==◌, leb, ltb, Bool-cases, inl, inr, All, All-map, test_of_eq, arith,
}
use nestova.Clock.{Time}
use nestova.Calendar.{add_months_clamped}
use nestova.Cadence.Months.{add_months_clamped_zero, add_months_clamped_mono}
use nestova.Subscriptions.{Cycle, weekly, monthly, yearly, custom}
use nestova.Subscriptions.Renewals.First.{following, after_cycles, Repeats, next_renewal-following}
use nestova.UnifiedCalendar.{
  CalendarSubscription, max_renewal_occurrences, project_from, project_renewals,
}

following_rises : (cycle : Cycle) (t : Time) → Repeats cycle → t < following cycle t
following_rises weekly t r = omega arith
following_rises monthly t r =
    subst (λ u. u < add_months_clamped t 1) (add_months_clamped_zero t)
      (add_months_clamped_mono t 0 1 (omega arith))
following_rises yearly t r =
    subst (λ u. u < add_months_clamped t 12) (add_months_clamped_zero t)
      (add_months_clamped_mono t 0 12 (omega arith))
following_rises custom t r = absurd r

after_cycles_le : (k : ℕ) (cycle : Cycle) (t : Time) → Repeats cycle → t ≤ after_cycles k cycle t
after_cycles_le zero cycle t r = omega arith
after_cycles_le (suc k) cycle t r =
    omega (arith, following_rises cycle t r, after_cycles_le k cycle (following cycle t) r)

abbrev pub IsRising : List Time → Type 0
IsRising [] = Unit
IsRising (t ∷ times) = All (λ u. t < u) times × IsRising times

-- A renewal of the range, some cycles on.
abbrev pub IsRenewal : Cycle → Time → Time → Time → Time → Type 0
IsRenewal cycle next from to t = (from ≤ t) × (t ≤ to) × ((k : ℕ) × (t ≡ after_cycles k cycle next))

-- The renewals of the range in order, each once, up to the cap: all of them where the cap is not
-- reached.
pub record IsProjection (cycle : Cycle) (next from to : Time) (cap : ℕ) (found : List Time)
    : Type 0 where
  pub renewals : All (IsRenewal cycle next from to) found
  pub rising : IsRising found
  pub capped : length found ≤ cap
  pub complete :
      (k : ℕ)
      → from ≤ after_cycles k cycle next
      → after_cycles k cycle next ≤ to
      → length found < cap
      → any (λ t. t == after_cycles k cycle next) found ≡ true

module _ (cycle : Cycle) (from to : Time) (r : Repeats cycle) where
  none-Projects :
      (next : Time) (cap : ℕ)
      → (ltb 0 cap && leb next to) ≡ false
      → IsProjection cycle next from to cap []
  none-Projects next cap h = record {
    renewals = tt;
    rising = tt;
    capped = omega arith;
    complete =
        λ k low high room. absurd (ground (arith, h, high, room, after_cycles_le k cycle next r));
  }

  later_IsRenewal :
      (next t : Time)
      → IsRenewal cycle (following cycle next) from to t
      → IsRenewal cycle next from to t
  later_IsRenewal next t (low, high, (k, e)) = (low, high, (suc k, e))

  skipped-Projects :
      (next : Time) (cap : ℕ) (found : List Time)
      → ltb next from ≡ true
      → IsProjection cycle (following cycle next) from to cap found
      → IsProjection cycle next from to cap found
  skipped-Projects next cap found early p = record {
    renewals = All-map _ _ found (later_IsRenewal next) p.renewals;
    rising = p.rising;
    capped = p.capped;
    complete = completed;
  }
    where
      completed :
          (k : ℕ)
          → from ≤ after_cycles k cycle next
          → after_cycles k cycle next ≤ to
          → length found < cap
          → any (λ t. t == after_cycles k cycle next) found ≡ true
      completed zero low high room = absurd (ground (arith, early, low))
      completed (suc k) low high room = p.complete k low high room

  taken-Projects :
      (next : Time) (cap : ℕ) (found : List Time)
      → ltb 0 cap ≡ true
      → leb next to ≡ true
      → ltb next from ≡ false
      → IsProjection cycle (following cycle next) from to (cap - 1) found
      → IsProjection cycle next from to cap (next ∷ found)
  unfolding any
  taken-Projects next cap found wanted within late p = record {
    renewals = (
      (ground (arith, late), ground (arith, within), (0, refl)),
      All-map _ _ found (later_IsRenewal next) p.renewals,
    );
    rising = (All-map _ _ found above p.renewals, p.rising);
    capped = ground (arith, wanted, p.capped);
    complete = completed;
  }
    where
      above : (t : Time) → IsRenewal cycle (following cycle next) from to t → next < t
      above t (low, high, (k, e)) =
          let passed : after_cycles k cycle (following cycle next) ≡ t = sym e in
          omega (
            arith,
            passed,
            following_rises cycle next r,
            after_cycles_le k cycle (following cycle next) r,
          )

      completed :
          (k : ℕ)
          → from ≤ after_cycles k cycle next
          → after_cycles k cycle next ≤ to
          → length (next ∷ found) < cap
          → any (λ t. t == after_cycles k cycle next) (next ∷ found) ≡ true
      completed zero low high room = rw (test_of_eq next) refl
      completed (suc k) low high room =
          let there = p.complete k low high (omega (arith, room)) in ground (arith, there)

  project_from-IsProjection :
      (fuel cap : ℕ) (next : Time)
      → to < next + fuel
      → IsProjection cycle next from to cap (project_from fuel cycle from to cap next)
  unfolding project_from
  project_from-IsProjection zero cap next enough = none-Projects next cap (ground (arith, enough))
  project_from-IsProjection (suc fuel) cap next enough =
      let more : to < following cycle next + fuel =
        omega (arith, enough, following_rises cycle next r) in
      rw (next_renewal-following cycle next r) (elim (Bool-cases (ltb 0 cap)) [
        | inr t ↦ rw t (none-Projects next cap (rw t refl))
        | inl wanted ↦ rw wanted (elim (Bool-cases (leb next to)) [
          | inr u ↦ rw u (none-Projects next cap (rw (wanted, u) refl))
          | inl within ↦ rw within (elim (Bool-cases (ltb next from)) [
            | inl early ↦ rw early (
                skipped-Projects next cap _ early
                  (project_from-IsProjection fuel cap (following cycle next) more))
            | inr late ↦ rw late (
                taken-Projects next cap _ wanted within late
                  (project_from-IsProjection fuel (cap - 1) (following cycle next) more))
          ])
        ])
      ])

-- A subscription that renews weekly, monthly or yearly contributes its renewals in the range, in
-- order, each once and 366 at most: all of them where they are fewer.
pub project_renewals-IsProjection :
    (sub : CalendarSubscription) (from to : Time)
    → Repeats sub.cycle
    → IsProjection sub.cycle sub.next_renewal_on from to max_renewal_occurrences
        (project_renewals sub from to)
unfolding project_renewals
project_renewals-IsProjection sub from to r =
    rw (next_renewal-following sub.cycle sub.next_renewal_on r) (
      project_from-IsProjection sub.cycle from to r (to + 1) max_renewal_occurrences
        sub.next_renewal_on (omega arith))
