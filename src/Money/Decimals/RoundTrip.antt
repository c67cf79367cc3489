-- ===== src/Money/Decimals/RoundTrip.antt =====
-- What the parser of amounts accepts, and that it reads what is printed:
-- internal/household/domain/money.go and decimal.go.
use nestova.Base.{
  ℕ, zero, suc, ◌+◌, ◌*◌, ◌/◌, ◌%◌, ◌<◌, ◌≤◌, ◌≡◌, ◌∙◌, refl, ap, subst, Bool, true, false, ◌&&◌,
  List, [], ◌∷◌, ◌++◌, length, Option, none, some, leb, ltb, ◌==◌, if◌then◌else◌, Bool-cases, arith,
  inl, inr, ok, or_fail, or_fail-ok, guard-ok, bind-ok, ok_inj,
}
use nestova.Base.Int.{pos}
use nestova.Money.{max_int64}
use nestova.Money.Decimals.{
  not_plain_decimal, money_too_large, dot, all_digits, is_digits, cut, is_fraction, unsigned,
  or_empty, split_at, split_plain_decimal, value, parse_int, money_fraction_digits,
  max_money_major_units, cents_of, parse_money_cents, digits, plain, two_digits, amount_string,
}

abbrev pub ten_to : ℕ → ℕ
ten_to zero = 1
ten_to (suc k) = 10 * ten_to k

pub value-digits :
    (k n : ℕ) (out : List ℕ) → n < ten_to (suc k) → value 0 (digits (suc k) n out) ≡ value n out
unfolding value digits
value-digits zero n out h = ground (arith, h)
value-digits (suc k) n out h = elim (Bool-cases (ltb n 10)) [
  | inl small ↦ rw small (ap (λ m. value m out) (omega arith))
  | inr large ↦
      let rest : value 0 (digits (suc k) (n / 10) ((48 + n % 10) ∷ out))
          ≡ value (n / 10) ((48 + n % 10) ∷ out) =
        value-digits k (n / 10) ((48 + n % 10) ∷ out) (omega (arith, h)) in
      rw large (rest ∙ ap (λ m. value m out) (omega arith))
]

pub all-digits :
    (k n : ℕ) (out : List ℕ) → all_digits out ≡ true → all_digits (digits k n out) ≡ true
unfolding digits
all-digits zero n out h = h
all-digits (suc k) n out h = ground (arith, h, all-digits k (n / 10) ((48 + n % 10) ∷ out))

cut-digits :
    (text rest : List ℕ) → all_digits text ≡ true → cut (text ++ dot ∷ rest) ≡ (text, some rest)
unfolding cut
cut-digits [] rest h = refl
cut-digits (c ∷ text) rest h =
    let later = cut-digits text rest (ground (arith, h)) in
    let digit : (c == dot) ≡ false = ground (arith, h) in rw (later, digit) refl

is_digits-digits :
    (k n : ℕ) (out : List ℕ) → all_digits out ≡ true → is_digits (digits (suc k) n out) ≡ true
unfolding digits
is_digits-digits zero n out h = ground (arith, h)
is_digits-digits (suc k) n out h = elim (Bool-cases (ltb n 10)) [
  | inl small ↦ rw small (ground (arith, h, small))
  | inr large ↦ rw large (is_digits-digits k (n / 10) ((48 + n % 10) ∷ out) (ground (arith, h)))
]

-- A text that begins with a digit has no sign.
unsigned-digits :
    (text rest : List ℕ) → is_digits text ≡ true → unsigned (text ++ rest) ≡ text ++ rest
unsigned-digits [] rest h = cc
unsigned-digits (c ∷ text) rest h =
    let digit : (c == 45) ≡ false = ground (arith, h) in rw digit refl

all_of_digits : (text : List ℕ) → is_digits text ≡ true → all_digits text ≡ true
all_of_digits [] h = cc
all_of_digits (c ∷ text) h = h

split-printed :
    (text : List ℕ) (r : ℕ)
    → is_digits text ≡ true
    → r < 100
    → split_plain_decimal (text ++ dot ∷ two_digits r) money_fraction_digits
      ≡ some (text, two_digits r)
unfolding split_plain_decimal
split-printed text r h small =
    let cents : is_digits (two_digits r) ≡ true = ground (arith, small) in
    rw
      (
        unsigned-digits text (dot ∷ two_digits r) h,
        cut-digits text (two_digits r) (all_of_digits text h),
        h,
        cents,
      )
      refl

-- Every amount up to the largest that is accepted is read back from its print, to the cent.
pub parse_money_cents-amount_string :
    (c : ℕ) → c ≤ 99999999999999 → parse_money_cents (amount_string (pos c)) ≡ ok c
unfolding parse_money_cents
parse_money_cents-amount_string c h =
    let digital = is_digits-digits 19 (c / 100) [] refl in
    let units : value 0 (plain (c / 100)) ≡ c / 100 =
      value-digits 19 (c / 100) [] (omega (arith, h)) ∙ unfold value in refl in
    let cents : cents_of (two_digits (c % 100)) ≡ c % 100 = unfold value in omega arith in
    let fits : leb (c / 100) max_int64 ≡ true = ground (arith, h) in
    let small : ltb max_money_major_units (c / 100) ≡ false = ground (arith, h) in
    rw (split-printed (plain (c / 100)) (c % 100) digital (omega arith), units, fits, small, cents)
      (ap ok (omega arith))

cents_of_le : (o : Option (List ℕ)) → is_fraction o ≡ true → cents_of (or_empty o) ≤ 99
unfolding value
cents_of_le none h = omega arith
cents_of_le (some []) h = cc
cents_of_le (some (a ∷ [])) h = ground (arith, h)
cents_of_le (some (a ∷ b ∷ rest)) h = ground (arith, h)

if-some {ℓ} :
    {A : Type ℓ} (b : Bool) (x : A) {y : A}
    → (if b then some x else none) ≡ some y
    → (b ≡ true) × (x ≡ y)
if-some true x h = (refl, cc)
if-some false x h = cc

split_at-cents :
    (most : ℕ) (parts : List ℕ × Option (List ℕ)) {found : List ℕ × List ℕ}
    → split_at most parts ≡ some found
    → cents_of found.1 ≤ 99
split_at-cents most (w, o) h =
    let (good, same) =
      if-some (is_digits w && is_fraction o && leb (length (or_empty o)) most) _ h in
    subst (λ p. cents_of p.1 ≤ 99) same (cents_of_le o (ground (arith, good)))

-- An amount that is accepted is at most a cent below a trillion units, far from the bound of an int64.
pub parse_money_cents-bounded :
    (text : List ℕ) (c : ℕ) → parse_money_cents text ≡ ok c → c ≤ 99999999999999
unfolding parse_money_cents split_plain_decimal
parse_money_cents-bounded text c h =
    let ((whole, fraction), found, h1) =
      bind-ok (or_fail (split_plain_decimal text money_fraction_digits) not_plain_decimal) _ h in
    let (units, read, h2) = bind-ok (or_fail (parse_int whole) money_too_large) _ h1 in
    let (small, made) = guard-ok (ltb max_money_major_units units) money_too_large _ h2 in
    let cents =
      split_at-cents money_fraction_digits (cut (unsigned text))
        (or_fail-ok (split_plain_decimal text money_fraction_digits) not_plain_decimal found) in
    let least : units ≤ max_money_major_units = ground (arith, small) in
    let exact : units * 100 + cents_of fraction ≡ c = ok_inj made in
    omega (arith, cents, least, exact)
