-- ===== src/Money.antt =====
-- Money amounts: internal/household/domain/money.go. An amount is an int64, kept as an integer with
-- the wrap-around of its sums written out; a currency is its bytes. Amounts as text
-- are in Decimals.
pub mod Sums
pub mod Decimals
mod Examples
use nestova.Base.{
  ℕ, ◌≤◌, ◌-◌, ◌%◌, ◌≡◌, Bool, true, false, ◌&&◌, List, [], ◌∷◌, ltb, leb, ◌==◌, if◌then◌else◌,
  Result, ok, ◌>>=◌, ◌>>◌, fail_if,
}
use nestova.Base.Int.{ℤ, pos, negsuc, ◌+ℤ◌, neg, ltb_ℤ}

abbrev pub max_int64 : ℕ
max_int64 = 9223372036854775807

-- The int64 of 64 bits.
abbrev of_bits : ℕ → ℤ
of_bits b = if leb b max_int64 then pos b else negsuc (18446744073709551615 - b)

-- The 64 low bits of an integer, as an int64.
unfoldable pub wrap : ℤ → ℤ
wrap (pos n) = of_bits (n % 18446744073709551616)
wrap (negsuc n) = of_bits (18446744073709551615 - n % 18446744073709551616)

pub record Money : Type 0 where
  pub cents : ℤ
  pub currency : List ℕ

pub data MoneyError : Type 0 where
  invalid_money currency_mismatch : MoneyError

abbrev is_upper : ℕ → Bool
is_upper c = leb 65 c && leb c 90

-- Three capital letters.
unfoldable pub valid_currency : List ℕ → Bool
valid_currency (a ∷ b ∷ c ∷ []) = is_upper a && is_upper b && is_upper c
valid_currency _ = false

unfoldable pub same_currency : List ℕ → List ℕ → Bool
same_currency [] [] = true
same_currency (a ∷ xs) (b ∷ ys) = a == b && same_currency xs ys
same_currency _ _ = false

unfoldable pub is_valid : Money → Bool
is_valid m = if ltb_ℤ m.cents (pos 0) then false else valid_currency m.currency

unfoldable pub new_money : ℤ → List ℕ → Result MoneyError Money
new_money cents currency = do
  fail_if (if is_valid (record { cents = cents; currency = currency }) then false else true)
      invalid_money
  ok (record { cents = cents; currency = currency })

unfoldable pub add : Money → Money → Result MoneyError Money
add m other = do
  fail_if (if is_valid m then false else true) invalid_money
  fail_if (if is_valid other then false else true) invalid_money
  fail_if (if same_currency m.currency other.currency then false else true) currency_mismatch
  fail_if (ltb_ℤ (wrap (pos max_int64 +ℤ neg other.cents)) m.cents) invalid_money
  new_money (wrap (m.cents +ℤ other.cents)) m.currency
