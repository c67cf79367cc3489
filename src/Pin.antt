-- ===== src/Pin.antt =====
-- Members' PINs: the strike limiter of internal/auth/app/pin_attempt_limiter.go, the service of
-- internal/auth/app/pin.go, and the table behind it (internal/auth/adapter/pin_postgres.go). The
-- password hasher is another package's and an argument; the clock is the `now` of each call.
pub mod Lockout
mod Examples
use nestova.Base.{
  ℕ, ◌+◌, ◌*◌, Bool, true, false, not, ◌&&◌, List, Option, none, some, Result, ok, err, ◌>>=◌, ◌>>◌,
  fail_if, or_fail, ltb, leb, ◌==◌, if◌then◌else◌, length, any,
}
use nestova.Clock.{Time, minute}

abbrev pin_attempt_threshold : ℕ
pin_attempt_threshold = 5

abbrev pub pin_backoff_window : Time
pin_backoff_window = 5 * minute

-- `locked_until` is 0, the zero time, while there is no lockout.
pub record AttemptState : Type 0 where
  pub failures : ℕ
  pub locked_until : Time

-- The limiter's map.
abbrev pub Limiter : Type 0
Limiter = ℕ → Option AttemptState

abbrev put {ℓ} : {A : Type ℓ} → ℕ → Option A → (ℕ → Option A) → ℕ → Option A
put key value m k = if k == key then value else m k

unfoldable pub locked : ℕ → Time → Limiter → Bool
locked key now l = elim (l key) [ none ↦ false | some st ↦ ltb now st.locked_until ]

unfoldable pub locked_until : ℕ → Time → Limiter → Option Time
locked_until key now l = elim (l key) [
  | none ↦ none
  | some st ↦ if ltb now st.locked_until then some st.locked_until else none
]

-- The state that the new failure is counted on: a new one, one whose lockout is over, or as it is.
abbrev fresh_state : Time → Option AttemptState → AttemptState
fresh_state now none = record { failures = 0; locked_until = 0 }
fresh_state now (some st) =
    if not (st.locked_until == 0) && leb st.locked_until now
    then record { failures = 0; locked_until = 0 }
    else st

-- The new state, and whether this failure locks the member out.
unfoldable pub after_failure : Time → Option AttemptState → AttemptState × Bool
after_failure now before =
    let st = fresh_state now before in
    if st.failures + 1 == pin_attempt_threshold + 1
    then (record { failures = st.failures + 1; locked_until = now + pin_backoff_window }, true)
    else (record st { failures = st.failures + 1 }, false)

unfoldable pub record_failure : ℕ → Time → Limiter → Limiter × Bool
record_failure key now l =
    let (st, locks) = after_failure now (l key) in (put key (some st) l, locks)

abbrev record_success : ℕ → Limiter → Limiter
record_success key l = put key none l

abbrev reset_lockout : ℕ → Limiter → Limiter
reset_lockout key l = put key none l

pub data PinError : Type 0 where
  pin_locked pin_not_enrolled pin_mismatch invalid_pin_format member_not_found hash_error : PinError

-- A row of identity.member_pin.
pub record PinRow : Type 0 where
  pub household : ℕ
  pub pin_hash : List ℕ

-- The limiter's memory, the PIN table by member, and each member's household, which the table's
-- foreign key refers to.
pub record PinState : Type 0 where
  pub strikes : Limiter
  pub pins : ℕ → Option PinRow
  pub household_of : ℕ → Option ℕ

-- The password hasher; an error is `none`, and a failed comparison counts as a wrong password.
pub record Hasher : Type 0 where
  pub hash : List ℕ → Option (List ℕ)
  pub verify : List ℕ → List ℕ → Bool

-- `^[0-9]{4,8}$`
unfoldable pub pin_format : List ℕ → Bool
pin_format pin =
    leb 4 (length pin) && leb (length pin) 8 && not (any (λ c. not (leb 48 c && leb c 57)) pin)

-- The answer and the state after it.
unfoldable pub verify_pin :
    Hasher → Time → ℕ → List ℕ → PinState → Result PinError (Unit {0}) × PinState
verify_pin hasher now member pin s =
    if locked member now s.strikes then (err pin_locked, s) else elim (s.pins member) [
      | none ↦ (err pin_not_enrolled, s)
      | some row ↦
          if not (pin_format pin)
          then (err pin_mismatch, s)
          else (if hasher.verify pin row.pin_hash
              then (ok tt, record s { strikes = record_success member s.strikes })
              else (
                err pin_mismatch,
                record s { strikes = (record_failure member now s.strikes).0 },
              ))
    ]

-- The member to credit: none for an assignee without a PIN.
unfoldable authorize_task_action :
    Hasher → Time → ℕ → List ℕ → PinState → Result PinError (Option ℕ) × PinState
authorize_task_action hasher now assignee pin s =
    let (answer, s') = verify_pin hasher now assignee pin s in
    (elim answer [ ok u ↦ ok (some assignee) | err pin_not_enrolled ↦ ok none | err e ↦ err e ], s')

-- The upsert of SetPIN: a row of another household stays, and a new row needs the foreign key.
unfoldable pub set_row : ℕ → ℕ → List ℕ → PinState → Result PinError PinState
set_row member household pin_hash s = do
  fail_if
      (elim (s.pins member) [
        | some row ↦ not (row.household == household)
        | none ↦ elim (s.household_of member) [ none ↦ true | some h ↦ not (h == household) ]
      ])
      member_not_found
  ok (record s {
    pins = put member (some (record { household = household; pin_hash = pin_hash })) s.pins;
  })

-- Set and SetForMember.
unfoldable pub set_pin : Hasher → ℕ → ℕ → List ℕ → PinState → Result PinError PinState
set_pin hasher member household pin s = do
  fail_if (not (pin_format pin)) invalid_pin_format
  pin_hash ← or_fail (hasher.hash pin) hash_error
  s' ← set_row member household pin_hash s
  ok (record s' { strikes = reset_lockout member s'.strikes })

-- Clear and ResetForMember.
unfoldable clear_pin : ℕ → ℕ → PinState → Result PinError PinState
clear_pin member household s = do
  row ← or_fail (s.pins member) pin_not_enrolled
  fail_if (not (row.household == household)) pin_not_enrolled
  ok (record s { pins = put member none s.pins; strikes = reset_lockout member s.strikes })
