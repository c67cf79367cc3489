-- ===== src/Cadence/Increasing.antt =====
-- Searching an increasing sequence for its first member after a time.
use nestova.Base.{
  ℕ, zero, suc, ◌+◌, ◌-◌, ◌≤◌, ◌<◌, ◌≡◌, ◌⊎◌, refl, ltb, Bool-cases, inl, inr, arith, subst,
}
use nestova.Calendar.{search_up}
use nestova.Cadence.{search_down}

module _ (step : ℕ → ℕ) (increases : (n : ℕ) → step n < step (suc n)) where
  -- Behind index n everything has passed.
  abbrev pub Passed : ℕ → ℕ → Type 0
  Passed t n = (n ≡ 0) ⊎ (step (n - 1) ≤ t)

  pub step_ge : (n : ℕ) → n ≤ step n
  step_ge zero = omega arith
  step_ge (suc n) = omega (arith, step_ge n, increases n)

  pub step_mono : (m d : ℕ) → step m ≤ step (m + d)
  step_mono m zero = ground arith
  step_mono m (suc d) = ground (arith, step_mono m d, increases (m + d))

  pub search_down-Passed : (t n : ℕ) → Passed t (search_down step t n)
  unfolding search_down
  search_down-Passed t zero = inl refl
  search_down-Passed t (suc n) = elim (Bool-cases (ltb t (step n))) [
    | inl p ↦ rw (search_down, p) (search_down-Passed t n)
    | inr p ↦ rw (search_down, p) (inr (ground arith))
  ]

  -- Enough fuel finds the first index that has not passed.
  pub search_up-lem :
      (t fuel n : ℕ)
      → Passed t n
      → t < step (n + fuel)
      → Passed t (search_up step t fuel n) × (t < step (search_up step t fuel n))
  unfolding search_up
  search_up-lem t zero n p h = (p, ground (arith, h))
  search_up-lem t (suc fuel) n p h = elim (Bool-cases (ltb t (step n))) [
    | inl q ↦ rw (search_up, q) (p, ground arith)
    | inr q ↦
        rw (search_up, q) (search_up-lem t fuel (suc n) (inr (ground arith)) (ground (arith, h)))
  ]

  pub step_le : (m n : ℕ) → m ≤ n → step m ≤ step n
  step_le m n h = subst (λ k. step m ≤ step k) (omega arith) (step_mono m (n - m))

  -- It is the least member after the time.
  pub first_least : (t n m : ℕ) → Passed t n → t < step m → step n ≤ step m
  first_least t n m (inl z) h = rw z (step_le 0 m (omega arith))
  first_least t n m (inr p) h = elim (Bool-cases (ltb m n)) [
    | inl before ↦ absurd (omega (arith, step_le m (n - 1) (ground (arith, before)), p, h))
    | inr after ↦ step_le n m (ground (arith, after))
  ]
