-- ===== src/Money/Decimals.antt =====
-- Money as text: ParseMoneyCents and String of internal/household/domain/money.go, and
-- internal/household/domain/decimal.go. A text is the list of its bytes.
pub mod RoundTrip
use nestova.Base.{
  ℕ, zero, suc, ◌+◌, ◌-◌, ◌*◌, ◌/◌, ◌%◌, ◌<◌, Bool, true, false, not, ◌&&◌, ◌||◌, List, [], ◌∷◌,
  ◌++◌, length, Option, none, some, leb, ltb, ◌==◌, if◌then◌else◌, Result, ok, err, ◌>>=◌, ◌>>◌,
  fail_if, or_fail,
}
use nestova.Base.Int.{ℤ, pos, negsuc}
use nestova.Money.{Money, max_int64}

pub data ParseError : Type 0 where
  not_plain_decimal money_too_large : ParseError

abbrev pub dot : ℕ
dot = 46

abbrev pub is_digit : ℕ → Bool
is_digit c = leb 48 c && leb c 57

abbrev pub all_digits : List ℕ → Bool
all_digits [] = true
all_digits (c ∷ text) = is_digit c && all_digits text

abbrev pub is_digits : List ℕ → Bool
is_digits [] = false
is_digits (c ∷ text) = all_digits (c ∷ text)

-- `strings.Cut` at the first dot: the parts before and behind it, if there is one.
unfoldable pub cut : List ℕ → List ℕ × Option (List ℕ)
cut [] = ([], none)
cut (c ∷ text) =
    let (whole, fraction) = cut text in if c == dot then ([], some text) else (c ∷ whole, fraction)

-- No byte but `0` and `.`, which is what trimming those from both ends leaves empty.
abbrev only_zeros : List ℕ → Bool
only_zeros [] = true
only_zeros (c ∷ text) = (c == 48 || c == dot) && only_zeros text

abbrev pub is_fraction : Option (List ℕ) → Bool
is_fraction none = true
is_fraction (some fraction) = is_digits fraction

abbrev pub is_zero : List ℕ → Bool
is_zero text = is_digits (cut text).0 && is_fraction (cut text).1 && only_zeros text

-- The text without the sign of a negative zero.
abbrev pub unsigned : List ℕ → List ℕ
unsigned [] = []
unsigned (c ∷ text) = if c == 45 && is_zero text then text else c ∷ text

abbrev pub or_empty : Option (List ℕ) → List ℕ
or_empty none = []
or_empty (some text) = text

abbrev pub split_at : ℕ → List ℕ × Option (List ℕ) → Option (List ℕ × List ℕ)
split_at most (whole, fraction) =
    if is_digits whole && is_fraction fraction && leb (length (or_empty fraction)) most
    then some (whole, or_empty fraction)
    else none

unfoldable pub split_plain_decimal : List ℕ → ℕ → Option (List ℕ × List ℕ)
split_plain_decimal text most = split_at most (cut (unsigned text))

-- `strconv.ParseInt` of digits: the number, or none when it does not fit an int64.
unfoldable pub value : ℕ → List ℕ → ℕ
value n [] = n
value n (c ∷ text) = value (n * 10 + (c - 48)) text

abbrev pub parse_int : List ℕ → Option ℕ
parse_int text = if leb (value 0 text) max_int64 then some (value 0 text) else none

abbrev pub money_fraction_digits : ℕ
money_fraction_digits = 2

abbrev pub cents_per_major_unit : ℕ
cents_per_major_unit = 100

abbrev pub max_money_major_units : ℕ
max_money_major_units = 999999999999

-- A fraction of one digit is padded with a zero.
abbrev pub cents_of : List ℕ → ℕ
cents_of [] = 0
cents_of (a ∷ []) = value 0 (a ∷ 48 ∷ [])
cents_of (a ∷ b ∷ rest) = value 0 (a ∷ b ∷ [])

abbrev pub parse_parts : List ℕ × List ℕ → Result ParseError ℕ
parse_parts (whole, fraction) = do
  units ← or_fail (parse_int whole) money_too_large
  fail_if (ltb max_money_major_units units) money_too_large
  ok (units * cents_per_major_unit + cents_of fraction)

unfoldable pub parse_money_cents : List ℕ → Result ParseError ℕ
parse_money_cents text = do
  parts ← or_fail (split_plain_decimal text money_fraction_digits) not_plain_decimal
  parse_parts parts

-- The decimal digits of a number before `out`: no int64 has more than twenty.
unfoldable pub digits : ℕ → ℕ → List ℕ → List ℕ
digits zero n out = out
digits (suc k) n out =
    let rest = digits k (n / 10) ((48 + n % 10) ∷ out) in if ltb n 10 then (48 + n) ∷ out else rest

-- `%d` and `%02d`, of a number and of a negative one.
abbrev pub plain : ℕ → List ℕ
plain n = digits 20 n []

abbrev pub two_digits : ℕ → List ℕ
two_digits n = (48 + n / 10) ∷ (48 + n % 10) ∷ []

abbrev negative : ℕ → List ℕ
negative n = if n == 0 then 48 ∷ [] else 45 ∷ plain n

abbrev two_negative : ℕ → List ℕ
two_negative n = if n == 0 then 48 ∷ 48 ∷ [] else 45 ∷ plain n

abbrev pub amount_string : ℤ → List ℕ
amount_string (pos c) = plain (c / 100) ++ dot ∷ two_digits (c % 100)
amount_string (negsuc n) = negative (suc n / 100) ++ dot ∷ two_negative (suc n % 100)

unfoldable pub money_string : Money → List ℕ
money_string m = amount_string m.cents ++ 32 ∷ m.currency
