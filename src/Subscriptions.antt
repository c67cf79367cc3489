-- ===== src/Subscriptions.antt =====
-- What a household's subscriptions cost in a month: internal/subscriptions/domain/cycle.go
-- (NormalizeMonthly) and internal/subscriptions/app/cost.go (MonthlyCost). The list of the active
-- subscriptions, which a query returns, is an argument.
pub mod Cost
pub mod Renewals
mod Examples
use nestova.Base.{
  ℕ, ◌+◌, ◌-◌, ◌*◌, ◌/◌, Bool, true, false, List, [], ◌∷◌, Option, none, some, if◌then◌else◌,
  Result, ok, err, ◌>>=◌, ◌>>◌, fail_if, suc,
}
use nestova.Base.Int.{ℤ, pos, negsuc, ◌+ℤ◌, neg, ltb_ℤ}
use nestova.Money.{
  Money, MoneyError, invalid_money, currency_mismatch, max_int64, wrap, is_valid, new_money, add,
}

pub data Cycle : Type 0 where
  weekly monthly yearly custom : Cycle

pub data CostError : Type 0 where
  money_error : MoneyError → CostError
  unsupported_cycle : CostError

-- What MonthlyCost reads of a subscription.
pub record Subscription : Type 0 where
  pub amount : Money
  pub cycle : Cycle

-- Go's `*` by a constant, before the wrap-around.
unfoldable pub times : ℤ → ℕ → ℤ
times (pos n) k = pos (n * k)
times (negsuc n) k = neg (pos (suc n * k))

-- Go's `/` by a constant, which drops the fraction.
unfoldable pub quot : ℤ → ℕ → ℤ
quot (pos n) k = pos (n / k)
quot (negsuc n) k = neg (pos (suc n / k))

abbrev of_money {ℓ} : {A : Type ℓ} → Result MoneyError A → Result CostError A
of_money (ok a) = ok a
of_money (err e) = err (money_error e)

-- The switch over the cycle.
abbrev pub monthly_cents : ℤ → Cycle → Result CostError ℤ
monthly_cents cents weekly = do
  fail_if (ltb_ℤ (pos ((max_int64 - 6) / 52)) cents) (money_error invalid_money)
  ok (quot (wrap (wrap (times cents 52) +ℤ pos 6)) 12)
monthly_cents cents monthly = ok cents
monthly_cents cents yearly = do
  fail_if (ltb_ℤ (pos (max_int64 - 6)) cents) (money_error invalid_money)
  ok (quot (wrap (cents +ℤ pos 6)) 12)
monthly_cents cents custom = err unsupported_cycle

unfoldable pub normalize_monthly : Money → Cycle → Result CostError Money
normalize_monthly m cycle = do
  fail_if (if is_valid m then false else true) (money_error invalid_money)
  cents ← monthly_cents m.cents cycle
  of_money (new_money cents m.currency)

-- The second half of the loop's body: a sum that does not fit leaves the row out.
abbrev pub added : Money → Result MoneyError Money → Result CostError (Option Money)
added total (ok sum) = ok (some sum)
added total (err invalid_money) = ok (some total)
added total (err currency_mismatch) = err (money_error currency_mismatch)

-- The loop's body; the total is none until a first row counts.
abbrev pub include : Option Money → Result CostError Money → Result CostError (Option Money)
include total (err unsupported_cycle) = ok total
include total (err (money_error invalid_money)) = ok total
include total (err (money_error currency_mismatch)) = err (money_error currency_mismatch)
include none (ok m) = ok (some m)
include (some total) (ok m) = added total (add total m)

unfoldable pub roll_up : Option Money → List Subscription → Result CostError (Option Money)
roll_up total [] = ok total
roll_up total (s ∷ subs) = do
  next ← include total (normalize_monthly s.amount s.cycle)
  roll_up next subs

-- "USD"
abbrev pub default_rollup_currency : List ℕ
default_rollup_currency = 85 ∷ 83 ∷ 68 ∷ []

abbrev or_zero : Option Money → Result CostError Money
or_zero none = of_money (new_money (pos 0) default_rollup_currency)
or_zero (some total) = ok total

unfoldable pub monthly_cost : List Subscription → Result CostError Money
monthly_cost subs = do total ← roll_up none subs; or_zero total
