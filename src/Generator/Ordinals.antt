-- ===== src/Generator/Ordinals.antt =====
-- The ordinals that materialiseTask of internal/tasks/app/generator.go computes.
use nestova.Base.{
  ℕ, zero, suc, ◌+◌, ◌-◌, ◌≤◌, ◌<◌, ◌≡◌, refl, sym, subst, ap, ◌∙◌, true, false, leb, ltb, ◌==◌,
  List, [], ◌∷◌, some, length, get_elem?, arith, Bool-cases, inl, inr,
}
use nestova.Clock.{Time}
use nestova.Cadence.{Cadence, step_from_anchor, next_after, occurrences_from, occurrences_between}
use nestova.Cadence.Increasing.{step_le}
use nestova.Cadence.Least.{
  IsPlain, step-increases, step_zero, next_after-IsNextOccurrence, IsNextOccurrence,
  next_after_anchor,
}
use nestova.Cadence.Windows.{between_from}

module _ (c : Cadence) (plain : IsPlain c) where
  -- The occurrence after one is the next member of the sequence.
  next_after-step : (n : ℕ) → next_after c (step_from_anchor c n) ≡ step_from_anchor c (suc n)
  next_after-step n =
      let next = next_after-IsNextOccurrence c (step_from_anchor c n) plain in
      let (m, e) = next.occurs in
      let above =
        next.least (step_from_anchor c (suc n)) (suc n, refl) (step-increases c plain n) in
      elim (Bool-cases (leb (suc n) m)) [
        | inl p ↦ omega (
          arith,
          e,
          above,
          step_le (step_from_anchor c) (step-increases c plain) (suc n) m (ground (arith, p)),
        )
        | inr p ↦ absurd (
            omega (
              arith,
              e,
              next.later,
              step_le (step_from_anchor c) (step-increases c plain) m n (ground (arith, p)),
            ))
      ]

  from_stop : (end fuel o : ℕ) → leb o end ≡ false → occurrences_from c end (suc fuel) o ≡ []
  unfolding occurrences_from
  from_stop end fuel o e = rw (occurrences_from, e) refl

  from_more :
      (end fuel n : ℕ)
      → leb (step_from_anchor c n) end ≡ true
      → occurrences_from c end (suc fuel) (step_from_anchor c n)
        ≡ step_from_anchor c n ∷ occurrences_from c end fuel (step_from_anchor c (suc n))
  unfolding occurrences_from
  from_more end fuel n e =
      rw (occurrences_from, e)
        (ap (λ o. step_from_anchor c n ∷ occurrences_from c end fuel o) (next_after-step n))

  head_or_later :
      (n i : ℕ) (o : Time) (os : List Time)
      → ((j : ℕ) → get_elem? os j ≡ some o → o ≡ step_from_anchor c (suc n + j))
      → get_elem? (step_from_anchor c n ∷ os) i ≡ some o
      → o ≡ step_from_anchor c (n + i)
  head_or_later n zero o os rest e =
      let here : n + 0 ≡ n = omega arith in rw here (ground (arith, e))
  head_or_later n (suc i) o os rest e =
      let there : n + suc i ≡ suc n + i = omega arith in rw there (rest i e)

  -- A window from the nth occurrence on.
  window_elem :
      (end fuel n i : ℕ) (o : Time)
      → get_elem? (occurrences_from c end fuel (step_from_anchor c n)) i ≡ some o
      → o ≡ step_from_anchor c (n + i)
  window_elem end zero n i o e = absurd (unfold occurrences_from in ground (arith, e))
  window_elem end (suc fuel) n i o e = elim (Bool-cases (leb (step_from_anchor c n) end)) [
    | inr p ↦ absurd (ground (arith, from_stop end fuel (step_from_anchor c n) p, e))
    | inl p ↦
        head_or_later n i o (occurrences_from c end fuel (step_from_anchor c (suc n)))
          (λ j h. window_elem end fuel (suc n) j o h)
          (subst (λ os. get_elem? os i ≡ some o) (from_more end fuel n p) e)
  ]

  empty_window :
      (end n k : ℕ) → n ≡ k → length (occurrences_from c end 0 (step_from_anchor c n)) ≡ k - n
  unfolding occurrences_from
  empty_window end n k e = omega (arith, e)

  reached :
      (end n k : ℕ)
      → n ≤ k
      → ((m : ℕ) → m < k → step_from_anchor c m ≤ end)
      → end < step_from_anchor c n
      → n ≡ k
  reached end n k h passed late = elim (Bool-cases (ltb n k)) [
    | inl p ↦ absurd (omega (arith, passed n (ground (arith, p)), late))
    | inr p ↦ ground (arith, p, h)
  ]

  before : (end n k : ℕ) → n ≤ k → end < step_from_anchor c k → step_from_anchor c n ≤ end → n < k
  before end n k h late at = elim (Bool-cases (n == k)) [
    | inl p ↦ absurd (ground (arith, p, late, at))
    | inr p ↦ ground (arith, p, h)
  ]

  -- The length of a window that ends before the kth occurrence.
  window_length :
      (end fuel n k : ℕ)
      → n ≤ k
      → end < step_from_anchor c k
      → ((m : ℕ) → m < k → step_from_anchor c m ≤ end)
      → end < step_from_anchor c n + fuel
      → length (occurrences_from c end fuel (step_from_anchor c n)) ≡ k - n
  window_length end zero n k h after passed enough =
      let at = reached end n k h passed (omega (arith, enough)) in empty_window end n k at
  window_length end (suc fuel) n k h after passed enough =
      elim (Bool-cases (leb (step_from_anchor c n) end)) [
        | inr p ↦
            let at = reached end n k h passed (ground (arith, p)) in
            rw (from_stop end fuel (step_from_anchor c n) p) (omega (arith, at))
        | inl p ↦
            let within = before end n k h after (ground (arith, p)) in
            rw (from_more end fuel n p) (
              omega (
                arith,
                window_length end fuel (suc n) k within after passed
                    (omega (arith, step-increases c plain n, enough)),
              ))
      ]

-- The occurrences before the next one have passed.
passed_before :
    (c : Cadence) (plain : IsPlain c) (start k : ℕ)
    → next_after c start ≡ step_from_anchor c k
    → IsNextOccurrence c start (next_after c start)
    → (m : ℕ) → m < k
    → step_from_anchor c m ≤ start
passed_before c plain start k at_k next m h = elim (Bool-cases (leb (step_from_anchor c m) start)) [
  | inl p ↦ ground (arith, p)
  | inr p ↦
      let below = step_le (step_from_anchor c) (step-increases c plain) (suc m) k h in
      let up = next.least (step_from_anchor c m) (m, refl) (ground (arith, p)) in
      absurd (omega (arith, at_k, up, below, step-increases c plain m))
]

-- The ordinal of an occurrence does not depend on the window in which it is generated: the number
-- of occurrences up to the window's start, plus the place in the window, is the occurrence's place
-- among all occurrences from the anchor on. The cadence is daily, weekly or monthly with a positive
-- interval and no weekdays, and its anchor is not the zero time.
pub ordinal_lem :
    (c : Cadence) (start end i : ℕ) (o : Time)
    → IsPlain c
    → 0 < c.anchor
    → get_elem? (occurrences_between c start end) i ≡ some o
    → o ≡ step_from_anchor c (length (occurrences_between c (c.anchor - 1) start) + i)
ordinal_lem c start end i o plain positive e =
    let next = next_after-IsNextOccurrence c start plain in
    let (k, at_k) = next.occurs in
    let first : next_after c (c.anchor - 1) ≡ step_from_anchor c 0 =
      next_after_anchor c (c.anchor - 1) plain (omega arith) ∙ sym (step_zero c plain) in
    let from_zero : k - 0 ≡ k = omega arith in
    let base : length (occurrences_between c (c.anchor - 1) start) ≡ k =
      rw (between_from c (c.anchor - 1) start plain, first)
        (window_length c plain start (start + 1) 0 k (omega arith) (omega (arith, next.later, at_k))
            (passed_before c plain start k at_k next) (omega arith)
          ∙ from_zero) in
    rw base (
      window_elem c plain end (end + 1) k i o (
        subst (λ x. get_elem? (occurrences_from c end (end + 1) x) i ≡ some o) at_k
          (subst (λ os. get_elem? os i ≡ some o) (between_from c start end plain) e)))
