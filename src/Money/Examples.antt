-- ===== src/Money/Examples.antt =====
-- Sums of a few amounts in US dollars.
use nestova.Base.{ℕ, ◌≡◌, List, [], ◌∷◌, ok, true, arith, refl}
use nestova.Money.{valid_currency}
use nestova.Base.Int.{pos}
use nestova.Money.Decimals.{
  parse_money_cents, amount_string, money_string, digits, split_plain_decimal, cut, value,
}
use nestova.Money.Decimals.RoundTrip.{parse_money_cents-amount_string}
use nestova.Money.Sums.{amount}

abbrev usd : List ℕ
usd = 85 ∷ 83 ∷ 68 ∷ []

usd_valid : valid_currency usd ≡ true
unfolding valid_currency
usd_valid = refl

-- "12.50 USD"
printed : money_string (amount 1250 usd) ≡ 49 ∷ 50 ∷ 46 ∷ 53 ∷ 48 ∷ 32 ∷ 85 ∷ 83 ∷ 68 ∷ []
unfolding money_string digits
printed = refl

parse_money_cents-amount_string_example : parse_money_cents (amount_string (pos 1250)) ≡ ok 1250
parse_money_cents-amount_string_example = parse_money_cents-amount_string 1250 (omega arith)

-- "9.5"
half_read : parse_money_cents (57 ∷ 46 ∷ 53 ∷ []) ≡ ok 950
unfolding parse_money_cents split_plain_decimal cut value
half_read = refl

-- "-0" reads as zero.
negative_zero : parse_money_cents (45 ∷ 48 ∷ []) ≡ ok 0
unfolding parse_money_cents split_plain_decimal cut value
negative_zero = refl
