-- ===== src/Money/Sums.antt =====
-- Sums of money: Add of internal/household/domain/money.go.
use nestova.Base.{
  ℕ, ◌≤◌, ◌+◌, ◌-◌, ◌≡◌, ◌∙◌, refl, true, List, [], ◌∷◌, leb, if◌then◌else◌, ok, err, ◌>>=◌, arith,
  test_of_eq, Bool-cases, inl, inr,
}
use nestova.Base.Int.{pos, ◌+ℤ◌, neg}
use nestova.Money.{
  Money, invalid_money, currency_mismatch, wrap, max_int64, is_valid, new_money, add, same_currency,
  valid_currency,
}

-- An amount that fits is what it is.
pub wrap-InRange : (n : ℕ) → n ≤ max_int64 → wrap (pos n) ≡ pos n
unfolding wrap
wrap-InRange n h = ground arith

same_currency_refl : (a : List ℕ) → same_currency a a ≡ true
unfolding same_currency
same_currency_refl [] = refl
same_currency_refl (a ∷ xs) = rw (test_of_eq a, same_currency_refl xs)

abbrev pub amount : ℕ → List ℕ → Money
amount n c = record { cents = pos n; currency = c }

pub amount_valid : (n : ℕ) (c : List ℕ) → is_valid (amount n c) ≡ valid_currency c
unfolding is_valid
amount_valid n c = ground arith

-- What a sum is: in one currency the exact sum, an error when it does not fit an int64, and an
-- error for two currencies. Nothing wraps around. Both currencies are well-formed and both amounts
-- are int64 values of at least zero.
pub add_lem :
    (a b : ℕ) (c d : List ℕ)
    → valid_currency c ≡ true
    → valid_currency d ≡ true
    → a ≤ max_int64
    → b ≤ max_int64
    → add (amount a c) (amount b d) ≡ (
        if same_currency c d
        then (if leb (a + b) max_int64 then ok (amount (a + b) c) else err invalid_money)
        else err currency_mismatch)
unfolding add new_money
add_lem a b c d vc vd ha hb =
    let rest : pos max_int64 +ℤ neg (pos b) ≡ pos (max_int64 - b) =
      unfold ◌+ℤ◌ neg in ground arith in
    let sum : pos a +ℤ pos b ≡ pos (a + b) = unfold ◌+ℤ◌ in ground arith in
    elim (Bool-cases (leb (a + b) max_int64)) [
      | inl fits ↦
          rw
            (
              amount_valid a c,
              amount_valid b d,
              vc,
              vd,
              rest,
              sum,
              fits,
              wrap-InRange (max_int64 - b) (omega arith),
              wrap-InRange (a + b) (ground arith),
              amount_valid (a + b) c,
              vc,
            )
            (ground arith)
      | inr over ↦
          rw
            (
              amount_valid a c,
              amount_valid b d,
              vc,
              vd,
              rest,
              sum,
              over,
              wrap-InRange (max_int64 - b) (omega arith),
            )
            (ground arith)
    ]

-- In one currency.
pub add_same :
    (a b : ℕ) (c : List ℕ)
    → valid_currency c ≡ true
    → a ≤ max_int64
    → b ≤ max_int64
    → add (amount a c) (amount b c)
      ≡ (if leb (a + b) max_int64 then ok (amount (a + b) c) else err invalid_money)
add_same a b c v ha hb = add_lem a b c c v v ha hb ∙ rw (same_currency_refl c) refl

-- Sums of three amounts of one currency do not depend on the grouping, the overflows included. The
-- currency is well-formed and the amounts are int64 values of at least zero.
pub add_assoc :
    (a b c : ℕ) (currency : List ℕ)
    → valid_currency currency ≡ true
    → a ≤ max_int64
    → b ≤ max_int64
    → c ≤ max_int64
    → (add (amount a currency) (amount b currency) >>= λ s. add s (amount c currency))
      ≡ (add (amount b currency) (amount c currency) >>= λ s. add (amount a currency) s)
add_assoc a b c currency v ha hb hc =
    rw (add_same a b currency v ha hb, add_same b c currency v hb hc)
      (elim (Bool-cases (leb (a + b) max_int64)) [
        | inl p ↦ elim (Bool-cases (leb (b + c) max_int64)) [
          | inl q ↦
              rw
                (
                  p,
                  q,
                  add_same (a + b) c currency v (ground arith) hc,
                  add_same a (b + c) currency v ha (ground arith),
                )
                (ground arith)
          | inr q ↦ rw (p, q, add_same (a + b) c currency v (ground arith) hc) (ground arith)
        ]
        | inr p ↦ elim (Bool-cases (leb (b + c) max_int64)) [
          | inl q ↦ rw (p, q, add_same a (b + c) currency v ha (ground arith)) (ground arith)
          | inr q ↦ rw (p, q)
        ]
      ])
