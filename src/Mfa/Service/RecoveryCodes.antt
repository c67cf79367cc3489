-- ===== src/Mfa/Service/RecoveryCodes.antt =====
-- Logins that race for the same recovery code: internal/auth/app/mfa.go (matchRecoveryCode)
-- and internal/auth/adapter/mfa_postgres.go.
use nestova.Base.{
  ℕ, ◌+◌, ◌≤◌, ◌<◌, ◌≡◌, refl, subst, not, List, [], ◌∷◌, Option, none, some, ◌==◌, if◌then◌else◌,
  any, count, update, Bool-cases, arith, inl, inr, count-any, count-update, Result, ok, err,
  or_fail, guard-ok, bind-ok, ok_inj, or_fail-ok, not-false, ◌++◌, count-none, count-append,
  any-update, eq_of_test,
}
use nestova.Clock.{Time}
use nestova.Mfa.{MfaError, recovery_code_invalid, RecoveryCode, MfaDb}
use nestova.Mfa.Store.{is_usable, mark_recovery_code_used}
use nestova.Mfa.Service.{MfaService, match_recovery_code, spend_recovery_code}
use nestova.Mfa.Service.Replay.{or_same, is_accepted}

-- A recovery code that is given, and the codes that were read some time before.
pub record RecoveryAttempt : Type 0 where
  pub now : Time
  pub raw : List ℕ
  pub codes : List RecoveryCode

abbrev as_list : Option ℕ → List ℕ
as_list none = []
as_list (some id) = id ∷ []

abbrev pub occurrences : ℕ → List ℕ → ℕ
occurrences i ids = count (λ j. j == i) ids

-- The identifiers of the codes that are accepted, one after the other.
unfoldable pub spent_codes : MfaService → List RecoveryAttempt → MfaDb → List ℕ
spent_codes s [] db = []
spent_codes s (a ∷ attempts) db =
    let result = spend_recovery_code s a.now a.raw a.codes db in
    let later = spent_codes s attempts (or_same db result) in
    if is_accepted result then as_list (match_recovery_code s a.raw a.codes) ++ later else later

abbrev pub usable_count : ℕ → MfaDb → ℕ
usable_count i db = count (is_usable i) db.recovery_codes

-- An accepted code is one that matches, and is marked.
spent_lem :
    (s : MfaService) (a : RecoveryAttempt) (db db' : MfaDb)
    → spend_recovery_code s a.now a.raw a.codes db ≡ ok db'
    → (id : ℕ) × (match_recovery_code s a.raw a.codes ≡ some id)
      × (mark_recovery_code_used a.now id db ≡ ok db')
unfolding spend_recovery_code
spent_lem s a db db' h =
    let (id, found, marked) =
      bind-ok (or_fail (match_recovery_code s a.raw a.codes) recovery_code_invalid) _ h in
    (id, or_fail-ok (match_recovery_code s a.raw a.codes) recovery_code_invalid found, marked)

-- Marking a code takes it out of the usable ones.
mark_lem :
    (now : Time) (id i : ℕ) (db db' : MfaDb)
    → mark_recovery_code_used now id db ≡ ok db'
    → occurrences i (id ∷ []) + usable_count i db' ≤ usable_count i db
unfolding mark_recovery_code_used count
mark_lem now id i db db' h =
    let (usable, made) =
      guard-ok (not (any (is_usable id) db.recovery_codes)) recovery_code_invalid _ h in
    let some_code = count-any (is_usable id) db.recovery_codes (not-false _ usable) in
    subst (λ d. occurrences i (id ∷ []) + usable_count i d ≤ usable_count i db) (ok_inj made)
      (elim (Bool-cases (id == i)) [
        | inl same ↦
            let there =
              subst (λ k. 0 < count (is_usable k) db.recovery_codes) (eq_of_test id i same)
                some_code in
            let gone =
              count-none (is_usable i)
                (update (is_usable id) (λ c. record c { used_at = some now }) db.recovery_codes)
                (any-update (is_usable i) (is_usable id) (λ c. record c { used_at = some now })
                  db.recovery_codes (λ c. ground (arith, same, Bool-cases (is_usable id c)))) in
            rw same (omega (arith, there, gone))
        | inr other ↦
            let kept =
              count-update (is_usable i) (is_usable id) (λ c. record c { used_at = some now })
                db.recovery_codes (λ c e. ground (arith, e, other)) in
            rw other (omega (arith, kept))
      ])

-- However the same recovery codes are given, at once or one after the other, and however old the
-- lists are that they are matched against, a code is accepted at most once, and only one that is in
-- the table and not used before.
pub spent_codes-once :
    (s : MfaService) (attempts : List RecoveryAttempt) (db : MfaDb) (i : ℕ)
    → occurrences i (spent_codes s attempts db) ≤ usable_count i db
unfolding spent_codes count
spent_codes-once s [] db i = omega arith
spent_codes-once s (a ∷ attempts) db i =
    outcome (λ d. spent_codes-once s attempts d i) (spend_recovery_code s a.now a.raw a.codes db)
      refl
  where
    outcome :
        ((d : MfaDb) → occurrences i (spent_codes s attempts d) ≤ usable_count i d)
        → (r : Result MfaError MfaDb) → spend_recovery_code s a.now a.raw a.codes db ≡ r
        → occurrences i (
            let later = spent_codes s attempts (or_same db r) in
            if is_accepted r then as_list (match_recovery_code s a.raw a.codes) ++ later else later)
          ≤ usable_count i db
    outcome ih (err e) p = ih db
    outcome ih (ok db') p =
        let (id, matched, marked) = spent_lem s a db db' p in
        rw matched (
          omega (
            arith,
            mark_lem a.now id i db db' marked,
            ih db',
            count-append (λ j. j == i) (id ∷ []) (spent_codes s attempts db'),
          ))
