-- ===== src/Cadence/Windows.antt =====
-- The windows of OccurrencesBetween of internal/household/domain/cadence.go.
use nestova.Base.{
  zero, suc, ◌+◌, ◌≤◌, ◌<◌, ◌≡◌, ◌≢◌, refl, sym, subst, true, leb, ◌==◌, List, [], ◌∷◌, any, arith,
  Bool-cases, inl, inr, eq_of_test,
}
use nestova.Clock.{Time}
use nestova.Cadence.{
  Cadence, Freq, daily, weekly, monthly, as_needed, next_after, occurrences_from,
  occurrences_between,
}
use nestova.Cadence.Least.{IsPlain, IsOccurrence, IsNextOccurrence, next_after-IsNextOccurrence}

-- Later than `t`, and each later than the one before.
abbrev Ascends : Time → List Time → Type 0
Ascends t [] = Unit {0}
Ascends t (o ∷ os) = (t < o) × Ascends o os

-- The occurrences of the half-open window.
pub record ListsWindow (c : Cadence) (start end : Time) (os : List Time) : Type 0 where
  pub sound : (o : Time) → any (λ x. x == o) os ≡ true → IsOccurrence c o × (start < o) × (o ≤ end)
  pub complete : (o : Time) → IsOccurrence c o → start < o → o ≤ end → any (λ x. x == o) os ≡ true
  pub ascending : Ascends start os

no_occurrences :
    (c : Cadence) (start end o : Time)
    → IsNextOccurrence c start o
    → end < o
    → ListsWindow c start end []
unfolding any
no_occurrences c start end o next h = record {
  sound = λ x e. absurd (ground (arith, e));
  complete = λ x occurs after up_to. absurd (omega (arith, next.least x occurs after));
  ascending = tt;
}

-- The next occurrence in front of the ones after it.
one_more :
    (c : Cadence) (start end o : Time) (os : List Time)
    → IsNextOccurrence c start o
    → o ≤ end
    → ListsWindow c o end os
    → ListsWindow c start end (o ∷ os)
unfolding any
one_more c start end o os next h rest = record {
  sound = λ x e. elim (Bool-cases (o == x)) [
    | inl here ↦
        subst (λ y. IsOccurrence c y × (start < y) × (y ≤ end)) (eq_of_test o x here)
          (next.occurs, next.later, h)
    | inr there ↦
        let (occurs, after, up_to) = rest.sound x (ground (arith, e, there)) in
        (occurs, omega (arith, next.later), up_to)
  ];
  complete = λ x occurs after up_to. elim (Bool-cases (o == x)) [
    | inl here ↦ ground (arith, here)
    | inr there ↦
        let found =
          rest.complete x occurs (ground (arith, there, next.least x occurs after)) up_to in
        ground (arith, there, found)
  ];
  ascending = (next.later, rest.ascending);
}

from_lem :
    (c : Cadence) (start end fuel o : Time)
    → IsPlain c
    → IsNextOccurrence c start o
    → end < o + fuel
    → ListsWindow c start end (occurrences_from c end fuel o)
unfolding occurrences_from
from_lem c start end zero o plain next h = no_occurrences c start end o next (omega arith)
from_lem c start end (suc fuel) o plain next h = elim (Bool-cases (leb o end)) [
  | inr p ↦ rw (occurrences_from, p) (no_occurrences c start end o next (ground (arith, p)))
  | inl p ↦
      let following = next_after-IsNextOccurrence c o plain in
      let rest =
        from_lem c o end fuel (next_after c o) plain following (omega (arith, following.later)) in
      rw (occurrences_from, p) (one_more c start end o _ next (ground (arith, p)) rest)
]

from_next :
    (c : Cadence) (start end : Time) (f : Freq)
    → f ≢ as_needed
    → (elim f [ as_needed ↦ [] | _ ↦ occurrences_from c end (end + 1) (next_after c start) ])
      ≡ occurrences_from c end (end + 1) (next_after c start)
from_next c start end daily d = refl
from_next c start end weekly d = refl
from_next c start end monthly d = refl
from_next c start end as_needed d = absurd (d refl)

-- A window starts with the next occurrence after its start.
pub between_from :
    (c : Cadence) (start end : Time)
    → IsPlain c
    → occurrences_between c start end ≡ occurrences_from c end (end + 1) (next_after c start)
unfolding occurrences_between
between_from c start end plain = from_next c start end c.freq plain.dated

-- For a daily, weekly or monthly cadence with a positive interval and no weekdays, the list of a
-- window has exactly the occurrences later than its start and no later than its end, each later
-- than the one before.
pub occurrences_between-ListsWindow :
    (c : Cadence) (start end : Time)
    → IsPlain c
    → ListsWindow c start end (occurrences_between c start end)
occurrences_between-ListsWindow c start end plain =
    subst (ListsWindow c start end) (sym (between_from c start end plain)) (
      from_lem c start end (end + 1) (next_after c start) plain
        (next_after-IsNextOccurrence c start plain) (omega arith))
