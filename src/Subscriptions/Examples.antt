-- ===== src/Subscriptions/Examples.antt =====
-- A weekly, a yearly and a custom subscription in euros.
use nestova.Base.{ℕ, ◌≡◌, List, [], ◌∷◌, true, refl}
use nestova.Money.{valid_currency}
use nestova.Money.Sums.{amount}
use nestova.Subscriptions.{Subscription, weekly, yearly, custom}
use nestova.Subscriptions.Cost.{total_of}

abbrev eur : List ℕ
eur = 69 ∷ 85 ∷ 82 ∷ []

eur_valid : valid_currency eur ≡ true
unfolding valid_currency
eur_valid = refl

abbrev subs : List Subscription
subs =
    record { amount = amount 999 eur; cycle = weekly }
    ∷ record { amount = amount 500 eur; cycle = custom }
    ∷ record { amount = amount 12000 eur; cycle = yearly }
    ∷ []

-- 43.29 a month for the weekly one and 10.00 for the yearly one.
subs_total : total_of subs ≡ 5329
unfolding total_of
subs_total = refl
