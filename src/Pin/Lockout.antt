-- ===== src/Pin/Lockout.antt =====
-- The lockout of internal/auth/app/pin.go and pin_attempt_limiter.go over several calls.
use nestova.Base.{
  ℕ, ◌+◌, ◌-◌, ◌≤◌, ◌<◌, ◌≡◌, refl, test_of_eq, OnSuccess, OnSuccess-ok, OnSuccess-guard,
  OnSuccess-or_fail, Bool, true, false, not, ◌&&◌, List, [], ◌∷◌, Option, none, some, Result, ok,
  err, if◌then◌else◌, arith, Bool-cases, inl, inr, leb, ◌==◌,
}
use nestova.Clock.{Time}
use nestova.Pin.{
  AttemptState, PinState, PinRow, Hasher, locked, verify_pin, PinError, pin_locked, set_pin,
  set_row, pin_format, pin_backoff_window,
}

abbrev pub is_lockout : Result PinError (Unit {0}) → Bool
is_lockout (err pin_locked) = true
is_lockout _ = false

-- Whether a well-formed PIN is answered by anything but the lockout: the answer then tells whether
-- the PIN is right.
abbrev pub is_answered : Hasher → Time → ℕ → List ℕ → PinState → Bool
is_answered hasher now member pin s =
    pin_format pin && not (is_lockout (verify_pin hasher now member pin s).0)

-- A history of calls for one member, and how many of them were answered.
unfoldable pub guess : Hasher → ℕ → List (Time × List ℕ) → PinState → PinState × ℕ
guess hasher member [] s = (s, 0)
guess hasher member ((now, pin) ∷ rest) s =
    let (s', n) = guess hasher member rest (verify_pin hasher now member pin s).1 in
    (s', if is_answered hasher now member pin s then n + 1 else n)

-- The states that the limiter makes: a lockout, or at most five failures.
abbrev IsStrike : Option AttemptState → Type 0
IsStrike none = Unit {0}
IsStrike (some st) = st.locked_until ≡ 0 → st.failures ≤ 5

-- How many more wrong PINs are answered before `end`.
abbrev guesses_left : Time → Option AttemptState → ℕ
guesses_left end none = 6
guesses_left end (some st) =
    if st.locked_until == 0 then 6 - st.failures else (if leb end st.locked_until then 0 else 6)

-- A wrong PIN given between `start` and the end of a window of it.
abbrev IsWrong : Hasher → PinRow → Time → Time × List ℕ → Type 0
IsWrong hasher row start (now, pin) =
    (start ≤ now) × (now < start + pin_backoff_window) × (hasher.verify pin row.pin_hash ≡ false)

-- What a set leaves.
record IsPinSet (hasher : Hasher) (member household : ℕ) (pin : List ℕ) (s : PinState)
    : Type 0 where
  pin_hash : List ℕ
  hashed : hasher.hash pin ≡ some pin_hash
  stored : s.pins member ≡ some (record { household = household; pin_hash = pin_hash })
  no_strikes : s.strikes member ≡ none
  well_formed : pin_format pin ≡ true

set_pin-IsPinSet :
    (hasher : Hasher) (member household : ℕ) (pin : List ℕ) (s : PinState)
    → OnSuccess (IsPinSet hasher member household pin) (set_pin hasher member household pin s)
unfolding set_pin set_row
set_pin-IsPinSet hasher member household pin s =
    OnSuccess-guard _ (not (pin_format pin)) _ _ λ formed.
      OnSuccess-or_fail _ (hasher.hash pin) _ _ λ hashed e.
        elim (Bool-cases (elim (s.pins member) [
          | some row ↦ not (row.household == household)
          | none ↦ elim (s.household_of member) [ none ↦ true | some h ↦ not (h == household) ]
        ])) [
          | inl stranger ↦ rw stranger tt
          | inr known ↦ rw known (record {
            pin_hash = hashed;
            hashed = e;
            stored = rw (test_of_eq member) refl;
            no_strikes = rw (test_of_eq member) refl;
            well_formed = ground arith;
          })
        ]

-- A new PIN works at once and lifts a lockout: after a set that succeeds, that PIN is accepted for
-- the member at every time. The hasher accepts a password against its own hash.
pub set_pin-verify_pin :
    (hasher : Hasher) (member household : ℕ) (pin : List ℕ) (s s' : PinState)
    → ((password hashed : List ℕ)
        → hasher.hash password ≡ some hashed
        → hasher.verify password hashed ≡ true)
    → set_pin hasher member household pin s ≡ ok s'
    → (now : Time) → (verify_pin hasher now member pin s').0 ≡ ok tt
unfolding verify_pin
set_pin-verify_pin hasher member household pin s s' sound h now =
    let v =
      OnSuccess-ok (IsPinSet hasher member household pin) s' h
        (set_pin-IsPinSet hasher member household pin s) in
    let unlocked : locked member now s'.strikes ≡ false =
      unfold locked in ground (arith, v.no_strikes) in
    rw (unlocked, v.stored, v.well_formed, sound pin v.pin_hash v.hashed) refl
