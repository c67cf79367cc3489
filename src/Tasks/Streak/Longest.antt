-- ===== src/Tasks/Streak/Longest.antt =====
-- What the streak counts: internal/tasks/domain/streak.go.
use nestova.Base.{
  ℕ, zero, suc, ◌+◌, ◌≤◌, ◌<◌, ◌≡◌, ◌⊎◌, refl, Bool, true, false, List, [], ◌∷◌, if◌then◌else◌, any,
  Bool-cases, arith, inl, inr, subst, dec_lt,
}
use nestova.Clock.{Time, day_of}
use nestova.Tasks.Streak.{has_day, count_back, from_yesterday, current_streak}

-- The `n` days that end with `last` are all in the set, and the day before them is not.
abbrev pub IsLongestRun : List Time → ℕ → ℕ → Type 0
IsLongestRun days last n =
    ((day : ℕ) → day ≤ last → last < day + n → has_day days day ≡ true)
    × ((day : ℕ) → day + n ≡ last → has_day days day ≡ false)
    × (n ≤ last + 1)

same_day : (days : List Time) (a b : ℕ) {x : Bool} → a ≡ b → has_day days a ≡ x → has_day days b ≡ x
same_day days a b {x} e h = subst (λ d. has_day days d ≡ x) e h

count_back-IsLongestRun :
    (days : List Time) (last : ℕ) → IsLongestRun days last (count_back days last)
unfolding count_back
count_back-IsLongestRun days zero = elim (Bool-cases (has_day days zero)) [
  | inl e ↦ rw e (
    λ day le lt. same_day days zero day (omega (arith, le)) e,
    λ day h. absurd (omega (arith, h)),
    omega arith,
  )
  | inr e ↦ rw e (
    λ day le lt. absurd (omega (arith, le, lt)),
    λ day h. same_day days zero day (omega (arith, h)) e,
    omega arith,
  )
]
count_back-IsLongestRun days (suc last) =
    let (all, before, fits) = count_back-IsLongestRun days last in
    elim (Bool-cases (has_day days (suc last))) [
      | inl e ↦ rw e (
        λ day le lt. elim (dec_lt last day) [
          | yes new ↦ same_day days (suc last) day (omega (arith, le, new)) e
          | no old ↦ all day (omega (arith, old)) (omega (arith, lt))
        ],
        λ day h. before day (omega (arith, h)),
        omega (arith, fits),
      )
      | inr e ↦ rw e (
        λ day le lt. absurd (omega (arith, le, lt)),
        λ day h. same_day days (suc last) day (omega (arith, h)) e,
        omega arith,
      )
    ]

-- What the streak is: nothing, or a run that ends today or, with nothing done today, yesterday.
abbrev pub IsStreak : List Time → ℕ → ℕ → Type 0
IsStreak days today n =
    ((has_day days today ≡ true) × IsLongestRun days today n)
    ⊎ ((has_day days today ≡ false)
        × (((yesterday : ℕ) × (today ≡ suc yesterday)
              × (has_day days yesterday ≡ true)
              × IsLongestRun days yesterday n)
            ⊎ ((n ≡ 0) × ((day : ℕ) → today ≡ suc day → has_day days day ≡ false))))

rested :
    (days : List Time) (today : ℕ)
    → ((yesterday : ℕ) × (today ≡ suc yesterday)
        × (has_day days yesterday ≡ true)
        × IsLongestRun days yesterday (from_yesterday days today))
      ⊎ ((from_yesterday days today ≡ 0) × ((day : ℕ) → today ≡ suc day → has_day days day ≡ false))
rested days zero = inr (refl, λ day h. absurd (omega (arith, h)))
rested days (suc last) = elim (Bool-cases (has_day days last)) [
  | inl e ↦ rw e (inl (last, refl, e, count_back-IsLongestRun days last))
  | inr e ↦ rw e (inr (refl, λ day h. same_day days last day (omega (arith, h)) e))
]

counted :
    (days : List Time) (today : ℕ)
    → IsStreak days today
        (if has_day days today then count_back days today else from_yesterday days today)
counted days today = elim (Bool-cases (has_day days today)) [
  | inl e ↦ rw e (inl (refl, count_back-IsLongestRun days today))
  | inr e ↦ rw e (inr (refl, rested days today))
]

-- The streak is the longest run of days with a completed task that ends today, or that ends
-- yesterday when nothing is done yet today, and it is zero when neither day has one.
pub current_streak-IsStreak :
    (days : List Time) (today : Time) → IsStreak days (day_of today) (current_streak days today)
unfolding current_streak has_day any
current_streak-IsStreak [] today = inr (refl, inr (refl, λ day h. refl))
current_streak-IsStreak (t ∷ days) today = counted (t ∷ days) (day_of today)
