-- ===== src/Subscriptions/Cost.antt =====
-- The figures of NormalizeMonthly and MonthlyCost as plain arithmetic.
use nestova.Base.{
  ℕ, ◌+◌, ◌*◌, ◌/◌, ◌≤◌, ◌<◌, ◌≡◌, ◌∙◌, refl, Bool, true, false, List, [], ◌∷◌, none, some,
  if◌then◌else◌, ok, err, arith, All, any, Bool-cases, inl, inr,
}
use nestova.Base.Int.{pos, pos_part, ◌+ℤ◌}
use nestova.Money.{max_int64, new_money, valid_currency}
use nestova.Money.Sums.{amount, amount_valid, wrap-InRange, add_same}
use nestova.Subscriptions.{
  Cycle, weekly, monthly, yearly, custom, unsupported_cycle, Subscription, times, quot,
  monthly_cents, normalize_monthly, include, roll_up, monthly_cost, default_rollup_currency,
}

-- How often a year an amount is paid; a custom cycle has no count.
abbrev pub payments_per_year : Cycle → ℕ
payments_per_year weekly = 52
payments_per_year monthly = 12
payments_per_year yearly = 1
payments_per_year custom = 0

-- The figure: a twelfth of what a year costs, to the nearest cent.
abbrev pub figure : ℕ → Cycle → ℕ
figure n cycle = (n * payments_per_year cycle + 6) / 12

-- The year's cost fits an int64 with room to round.
abbrev Fits : ℕ → Type 0
Fits n = n * 52 + 6 ≤ max_int64

abbrev is_custom : Cycle → Bool
is_custom custom = true
is_custom _ = false

monthly_cents_lem :
    (n : ℕ) (cycle : Cycle)
    → Fits n
    → monthly_cents (pos n) cycle
      ≡ (if is_custom cycle then err unsupported_cycle else ok (pos (figure n cycle)))
unfolding times quot
monthly_cents_lem n weekly h =
    let sum : pos (n * 52) +ℤ pos 6 ≡ pos (n * 52 + 6) = unfold ◌+ℤ◌ in ground arith in
    rw (wrap-InRange (n * 52) (omega arith), sum, wrap-InRange (n * 52 + 6) h) (ground arith)
monthly_cents_lem n monthly h = ground arith
monthly_cents_lem n yearly h =
    let sum : pos n +ℤ pos 6 ≡ pos (n + 6) = unfold ◌+ℤ◌ in ground arith in
    rw (sum, wrap-InRange (n + 6) (omega arith)) (ground arith)
monthly_cents_lem n custom h = refl

new_amount : (n : ℕ) (c : List ℕ) → valid_currency c ≡ true → new_money (pos n) c ≡ ok (amount n c)
unfolding new_money
new_amount n c v = rw (amount_valid n c, v)

normalize_lem :
    (n : ℕ) (c : List ℕ) (cycle : Cycle)
    → valid_currency c ≡ true
    → Fits n
    → normalize_monthly (amount n c) cycle
      ≡ (if is_custom cycle then err unsupported_cycle else ok (amount (figure n cycle) c))
unfolding normalize_monthly
normalize_lem n c cycle v h =
    rw (amount_valid n c, v, monthly_cents_lem n cycle h)
      (elim (Bool-cases (is_custom cycle)) [
        | inl p ↦ rw p
        | inr p ↦ rw (p, new_amount (figure n cycle) c v)
      ])

-- An amount that is paid weekly, monthly or yearly has a monthly figure in its currency, and twelve
-- of it are the year's cost to half a cent each, halves up. The currency is well-formed, and 52
-- payments fit an int64 with 6 cents to spare.
pub normalize_nearest :
    (n : ℕ) (c : List ℕ) (cycle : Cycle)
    → valid_currency c ≡ true
    → n * 52 + 6 ≤ max_int64
    → is_custom cycle ≡ false
    → (r : ℕ) × (normalize_monthly (amount n c) cycle ≡ ok (amount r c))
      × (12 * r ≤ n * payments_per_year cycle + 6)
      × (n * payments_per_year cycle + 6 < 12 * r + 12)
normalize_nearest n c cycle v h p =
    (figure n cycle, normalize_lem n c cycle v h ∙ rw p refl, omega arith, omega arith)

-- A subscription with an amount of the currency.
abbrev IsPriced : List ℕ → Subscription → Type 0
IsPriced c s = (n : ℕ) × (s.amount ≡ amount n c) × (n * 52 + 6 ≤ max_int64)

-- What a subscription adds to the cost of a month.
abbrev share_of : Subscription → ℕ
share_of s = if is_custom s.cycle then 0 else figure (pos_part s.amount.cents) s.cycle

unfoldable pub total_of : List Subscription → ℕ
total_of [] = 0
total_of (s ∷ subs) = share_of s + total_of subs

-- The figure of a priced subscription as the loop gets it.
priced_lem :
    (c : List ℕ) (s : Subscription)
    → valid_currency c ≡ true
    → IsPriced c s
    → normalize_monthly s.amount s.cycle
      ≡ (if is_custom s.cycle then err unsupported_cycle else ok (amount (share_of s) c))
priced_lem c s v (n, e, fits) =
    rw (e, normalize_lem n c s.cycle v fits)
      (elim (Bool-cases (is_custom s.cycle)) [ inl p ↦ rw p | inr p ↦ rw p ])

include_lem :
    (t : ℕ) (c : List ℕ) (s : Subscription)
    → valid_currency c ≡ true
    → IsPriced c s
    → t + share_of s ≤ max_int64
    → include (some (amount t c)) (normalize_monthly s.amount s.cycle)
      ≡ ok (some (amount (t + share_of s) c))
include_lem t c s v priced h = rw (priced_lem c s v priced) (elim (Bool-cases (is_custom s.cycle)) [
  | inl p ↦ ground (arith, p)
  | inr p ↦
      let sum = add_same t (share_of s) c v (omega arith) (omega arith) in ground (arith, p, sum, h)
])

roll_up_lem :
    (t : ℕ) (c : List ℕ) (subs : List Subscription)
    → valid_currency c ≡ true
    → All (IsPriced c) subs
    → t + total_of subs ≤ max_int64
    → roll_up (some (amount t c)) subs ≡ ok (some (amount (t + total_of subs) c))
unfolding roll_up total_of
roll_up_lem t c [] v a h = ground arith
roll_up_lem t c (s ∷ subs) v (priced, a) h =
    rw (include_lem t c s v priced (omega arith))
      (roll_up_lem (t + share_of s) c subs v a (omega arith) ∙ ground arith)

abbrev pub is_counted : Subscription → Bool
is_counted s = if is_custom s.cycle then false else true

roll_up_from_none :
    (c : List ℕ) (subs : List Subscription)
    → valid_currency c ≡ true
    → All (IsPriced c) subs
    → total_of subs ≤ max_int64
    → roll_up none subs ≡ ok (if any is_counted subs then some (amount (total_of subs) c) else none)
unfolding roll_up total_of any
roll_up_from_none c [] v a h = refl
roll_up_from_none c (s ∷ subs) v (priced, a) h =
    rw (priced_lem c s v priced) (elim (Bool-cases (is_custom s.cycle)) [
      | inl p ↦ rw p (roll_up_from_none c subs v a (omega arith) ∙ ground arith)
      | inr p ↦
          let rest = roll_up_lem (share_of s) c subs v a (omega arith) in rw p (simp p at rest)
    ])

none_counts : (subs : List Subscription) → any is_counted subs ≡ false → total_of subs ≡ 0
unfolding total_of any
none_counts [] h = refl
none_counts (s ∷ subs) h = ground (arith, none_counts subs)

-- The cost of a month is the sum of the monthly figures, of which a custom cycle has none, in the
-- currency of the subscriptions, or in US dollars when none counts. Every amount is of one
-- well-formed currency with 52 payments that fit an int64, and so does the sum.
pub monthly_cost_lem :
    (c : List ℕ) (subs : List Subscription)
    → valid_currency c ≡ true
    → All (IsPriced c) subs
    → total_of subs ≤ max_int64
    → monthly_cost subs
      ≡ ok (amount (total_of subs) (if any is_counted subs then c else default_rollup_currency))
unfolding monthly_cost
monthly_cost_lem c subs v a h =
    rw (roll_up_from_none c subs v a h) (elim (Bool-cases (any is_counted subs)) [
      | inl p ↦ rw p
      | inr p ↦ rw (p, none_counts subs p, new_amount 0 default_rollup_currency usd)
    ])
  where
    usd : valid_currency default_rollup_currency ≡ true
    usd = unfold valid_currency in refl
