-- ===== src/Mfa/Service/Reset.antt =====
-- An owner's reset of a member's two-factor login: internal/auth/app/mfa.go (ResetMemberMFA).
use nestova.Base.{
  ℕ, ◌≤◌, ◌≡◌, refl, subst, true, false, not, ◌&&◌, List, none, some, ◌==◌, any, find, count,
  select, arith, count-any, count-le, count-select, count-split, any_of_count, unselected,
  find-select, find_of_any, Result, ok, err, or_fail, guard-ok, bind-ok, ok_inj, or_fail-ok,
  not-false,
}
use nestova.Mfa.{
  MfaError, not_enrolled, member_not_found, not_household_owner, owner_reauth_required, MfaDb,
}
use nestova.Mfa.Store.{
  is_enrolled, is_code_of, is_deleted, get_enrollment, delete_enrollment, revoke_all, or_stay,
}
use nestova.Mfa.Service.{
  MfaService, MemberView, is_match, authorize_reset, reset_authorized, reset_member_mfa,
}

-- The acting member owns the target's household and gave the right password.
abbrev pub MayReset : MfaService → ℕ → List ℕ → ℕ → ℕ → Type 0
MayReset s acting password target household =
    (owner : MemberView) × (other : MemberView) × (stored : List ℕ) × (s.members acting
      ≡ some owner)
    × (owner.is_owner ≡ true)
    × (s.members target ≡ some other)
    × ((other.household == owner.household) ≡ true)
    × (owner.password_hash ≡ some stored)
    × (is_match s (s.verify password stored) ≡ true)
    × (owner.household ≡ household)

authorize_reset-MayReset :
    (s : MfaService) (acting : ℕ) (password : List ℕ) (target : ℕ) {household : ℕ}
    → authorize_reset s acting password target ≡ ok household
    → MayReset s acting password target household
unfolding authorize_reset
authorize_reset-MayReset s acting password target h =
    let (owner, found, h1) = bind-ok (or_fail (s.members acting) member_not_found) _ h in
    let (owns, h2) = guard-ok _ not_household_owner _ h1 in
    let (other, found2, h3) = bind-ok (or_fail (s.members target) not_enrolled) _ h2 in
    let (same, h4) = guard-ok _ not_enrolled _ h3 in
    let (stored, found3, h5) = bind-ok (or_fail owner.password_hash owner_reauth_required) _ h4 in
    let (matched, h6) = guard-ok _ owner_reauth_required _ h5 in
    (
      owner,
      other,
      stored,
      or_fail-ok (s.members acting) member_not_found found,
      not-false _ owns,
      or_fail-ok (s.members target) not_enrolled found2,
      not-false _ same,
      or_fail-ok owner.password_hash owner_reauth_required found3,
      not-false _ matched,
      ok_inj h6,
    )

-- The member has no second factor any more: no enrollment, no recovery codes, no remembered device.
abbrev pub IsCleared : ℕ → MfaDb → Type 0
IsCleared member db =
    (get_enrollment member db ≡ err not_enrolled)
    × (any (is_code_of member) db.recovery_codes ≡ false)
    × (any (λ d. d.member == member) db.remembered_devices ≡ false)

-- Nobody else's enrollment changes.
abbrev pub OthersStay : ℕ → MfaDb → MfaDb → Type 0
OthersStay target db db' =
    (m : ℕ) → (m == target) ≡ false → get_enrollment m db' ≡ get_enrollment m db

delete_enrollment-IsCleared :
    (household target : ℕ) (db db' : MfaDb)
    → count (is_enrolled target) db.enrollments ≤ 1
    → delete_enrollment household target db ≡ ok db'
    → IsCleared target db' × OthersStay target db db'
unfolding delete_enrollment get_enrollment
delete_enrollment-IsCleared household target db db' one h =
    let (there, made) =
      guard-ok (not (any (is_deleted household target) db.enrollments)) not_enrolled _ h in
    let rows = select (λ e. not (is_deleted household target e)) db.enrollments in
    let gone : count (is_enrolled target) rows ≡ 0 = omega (
      arith,
      one,
      count-any (is_deleted household target) db.enrollments (not-false _ there),
      count-split (is_enrolled target) (is_deleted household target) db.enrollments,
      count-le (is_deleted household target)
          (λ e. is_deleted household target e && is_enrolled target e) db.enrollments
          (λ e d. ground (arith, d)),
      count-select (is_enrolled target) (λ e. not (is_deleted household target e)) db.enrollments,
    ) in
    let none_left : find (is_enrolled target) rows ≡ none =
      find_of_any (is_enrolled target) rows (any_of_count (is_enrolled target) rows gone) in
    subst (λ d. IsCleared target d × OthersStay target db d) (ok_inj made)
      (
        (
          rw none_left refl,
          unselected (is_code_of target) db.recovery_codes,
          unselected (λ d. d.member == target) db.remembered_devices,
        ),
        λ m other.
            rw
              (find-select (is_enrolled m) (λ e. not (is_deleted household target e)) db.enrollments
                (λ e own. ground (arith, own, other)))
              refl,
      )

-- An owner's reset that succeeds was the household owner's, with the right password, of a member of
-- the same household, who is left without a second factor, recovery codes and remembered devices;
-- no other member's enrollment changes. The target has at most one enrollment.
pub reset_member_mfa-IsCleared :
    (s : MfaService) (acting : ℕ) (password : List ℕ) (target : ℕ) (db : MfaDb)
    → count (is_enrolled target) db.enrollments ≤ 1
    → (reset_member_mfa s acting password target db).1 ≡ ok tt
    → let db' = (reset_member_mfa s acting password target db).0 in
      ((household : ℕ) × MayReset s acting password target household)
      × IsCleared target db'
      × OthersStay target db db'
unfolding reset_member_mfa revoke_all get_enrollment
reset_member_mfa-IsCleared s acting password target db one =
    authorized (authorize_reset s acting password target) refl
  where
    Outcome : MfaDb × Result MfaError (Unit {0}) → Type 0
    Outcome r =
        r.1 ≡ ok tt
        → ((household : ℕ) × MayReset s acting password target household)
          × IsCleared target r.0
          × OthersStay target db r.0

    deleted :
        (household : ℕ)
        → MayReset s acting password target household
        → (r : Result MfaError MfaDb)
        → delete_enrollment household target (revoke_all target db) ≡ r
        → Outcome (or_stay (revoke_all target db) r)
    deleted household may (ok db') p h =
        let (cleared, others) =
          delete_enrollment-IsCleared household target (revoke_all target db) db' one p in
        ((household, may), cleared, others)
    deleted household may (err e) p h = absurd (cc)

    authorized :
        (r : Result MfaError ℕ)
        → authorize_reset s acting password target ≡ r
        → Outcome (reset_authorized s target db r)
    authorized (ok household) p =
        deleted household (authorize_reset-MayReset s acting password target p)
          (delete_enrollment household target (revoke_all target db)) refl
    authorized (err e) p = λ h. absurd (cc)
