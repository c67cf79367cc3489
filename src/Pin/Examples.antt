-- ===== src/Pin/Examples.antt =====
-- A member with the PIN 1234 behind a hasher that keeps the password as its hash.
use nestova.Base.{
  ℕ, ◌≡◌, Bool, true, false, ◌&&◌, List, [], ◌∷◌, none, some, ok, ◌==◌, if◌then◌else◌, arith, refl,
  any,
}
use nestova.Clock.{Time}
use nestova.Pin.{PinState, PinRow, Hasher, set_pin, set_row, pin_format}

abbrev same : List ℕ → List ℕ → Bool
same [] [] = true
same (x ∷ xs) (y ∷ ys) = x == y && same xs ys
same _ _ = false

abbrev plain : Hasher
plain = record { hash = λ password. some password; verify = same }

abbrev right_pin : List ℕ
right_pin = 49 ∷ 50 ∷ 51 ∷ 52 ∷ []

abbrev wrong_pin : List ℕ
wrong_pin = 48 ∷ 48 ∷ 48 ∷ 48 ∷ []

abbrev stored_row : PinRow
stored_row = record { household = 1; pin_hash = right_pin }

abbrev enrolled : PinState
enrolled = record {
  strikes = λ member. none;
  pins = λ member. if member == 7 then some stored_row else none;
  household_of = λ member. some 1;
}

abbrev calls : List (Time × List ℕ)
calls = (10, wrong_pin) ∷ (20, wrong_pin) ∷ []

same_refl : (xs : List ℕ) → same xs xs ≡ true
same_refl [] = refl
same_refl (x ∷ xs) = ground (arith, same_refl xs)

plain_sound :
    (password hashed : List ℕ)
    → plain.hash password ≡ some hashed
    → plain.verify password hashed ≡ true
plain_sound password hashed h = ground (arith, same_refl password)

abbrev renewed : PinState
renewed = record {
  strikes = λ member. if member == 7 then none else none;
  pins = λ member.
      if member == 7
      then some (record { household = 1; pin_hash = wrong_pin })
      else (if member == 7 then some stored_row else none);
  household_of = λ member. some 1;
}

set_lem : set_pin plain 7 1 wrong_pin enrolled ≡ ok renewed
unfolding set_pin set_row pin_format any
set_lem = refl
