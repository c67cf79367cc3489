-- ===== src/Mfa/Login/Devices.antt =====
-- Remembered devices and the second factor: internal/auth/app/remember.go and
-- internal/auth/adapter/remembered_device_postgres.go.
use nestova.Base.{
  ℕ, ◌+◌, ◌≡◌, refl, ap, Bool, true, false, not, ◌&&◌, List, [], ◌∷◌, Option, none, some, or_fail,
  leb, ◌==◌, any, find, arith, Bool-cases, inl, inr, length,
}
use nestova.Clock.{Time}
use nestova.Mfa.{not_enrolled, MfaEnrollment, RememberedDevice, MfaDb, is_empty}
use nestova.Mfa.Store.{
  get_enrollment, swept_devices, create_device, is_live_device, is_enrolled, mark_device_used,
  is_confirmed_member, clashes,
}
use nestova.Mfa.Login.{
  LoginPorts, issue, issue_if, marked_token, is_remembered, is_confirmed_result,
  needs_login_step_up, has_remembered_device, remember_device_ttl, remember_token_bytes,
}
use nestova.Mfa.Login.Factors.{any-select_none, any-update_none, has_device}

module _ (p : LoginPorts) (m : ℕ) where
  pub keeps_needs :
      (db db' : MfaDb)
      → is_confirmed_result (get_enrollment m db') ≡ is_confirmed_result (get_enrollment m db)
      → needs_login_step_up p m db ≡ true
      → needs_login_step_up p m db' ≡ true
  keeps_needs db db' e h = rw e h

  -- Another member's device.
  create_other :
      (d : RememberedDevice) (db : MfaDb)
      → (d.member == m) ≡ false
      → has_device m db ≡ false
      → (has_device m (create_device d db).0 ≡ false)
        × ((create_device d db).0.enrollments ≡ db.enrollments)
  unfolding create_device
  create_other d db other free =
      let swept = swept_devices d db in
      let still =
        any-select_none (λ x. x.member == m)
          (λ x. not (x.member == d.member && leb x.expires_at d.created_at)) db.remembered_devices
          free in
      elim (Bool-cases (any (is_confirmed_member d.created_at d.member) db.enrollments)) [
        | inr no' ↦ rw no' (still, refl)
        | inl yes' ↦ elim (Bool-cases (leb d.expires_at d.created_at)) [
          | inl dead ↦ rw (yes', dead) (still, refl)
          | inr live ↦ elim (Bool-cases (any (clashes d) swept.remembered_devices)) [
            | inl clash ↦ rw (yes', live, clash) (still, refl)
            | inr fresh ↦ rw (yes', live, fresh) (unfold any in rw other still, refl)
          ]
        ]
      ]

  pub issue_kept :
      (remember : Option (ℕ × List ℕ)) (member now : ℕ) (db : MfaDb)
      → (member == m) ≡ false
      → (needs_login_step_up p m db ≡ true) × (has_device m db ≡ false)
      → let db' = issue_if p remember member now db in
        (needs_login_step_up p m db' ≡ true) × (has_device m db' ≡ false)
  unfolding issue get_enrollment
  issue_kept none member now db other h = h
  issue_kept (some (id, raw)) member now db other (needs, free) =
      let d : RememberedDevice = record {
        id = id;
        member = member;
        token_hash = p.hash_token raw;
        created_at = now;
        expires_at = now + remember_device_ttl;
        last_used_at = now;
      } in
      let (free', same) = create_other d db other free in
      (
        keeps_needs db (create_device d db).0
            (ap
              (λ (es : List MfaEnrollment).
                is_confirmed_result (or_fail (find (is_enrolled m) es) not_enrolled))
              same)
            needs,
        free',
      )

  -- Looking a device up changes nothing that matters, and finds none of the member's.
  mark_lem :
      (member : ℕ) (hash : List ℕ) (now : Time) (db : MfaDb)
      → has_device m db ≡ false
      → (has_device m (mark_device_used member hash now db).0 ≡ false)
        × ((member == m) ≡ true → (mark_device_used member hash now db).1 ≡ false)
  unfolding mark_device_used any
  mark_lem member hash now db free = (
    any-update_none (λ x. x.member == m) (is_live_device member hash now) _ db.remembered_devices
        (λ x. refl) free,
    λ own. none_live db.remembered_devices free own,
  )
    where
      none_live :
          (ds : List RememberedDevice)
          → any (λ x. x.member == m) ds ≡ false
          → (member == m) ≡ true
          → any (is_live_device member hash now) ds ≡ false
      none_live [] h own = refl
      none_live (d ∷ ds) h own =
          ground (arith, own, h, Bool-cases (d.member == member), none_live ds)

  -- What a look at the cookie leaves, and what it answers for the member.
  abbrev pub IsLooked : ℕ → MfaDb × Bool → Type 0
  IsLooked member r =
      (needs_login_step_up p m r.0 ≡ true)
      × (has_device m r.0 ≡ false)
      × ((member == m) ≡ true → r.1 ≡ false)

  marked_token-IsLooked :
      (member now : ℕ) (db : MfaDb) (raw : Option (List ℕ))
      → needs_login_step_up p m db ≡ true
      → has_device m db ≡ false
      → IsLooked member (marked_token p member now db raw)
  unfolding mark_device_used get_enrollment
  marked_token-IsLooked member now db none needs free = (needs, free, λ own. refl)
  marked_token-IsLooked member now db (some raw) needs free =
      elim (Bool-cases (length raw == remember_token_bytes)) [
        | inl t ↦
            let (free', none_found) = mark_lem member (p.hash_token raw) now db free in
            rw t (needs, free', none_found)
        | inr t ↦ rw t (needs, free, λ own. refl)
      ]

  pub cookie-IsLooked :
      (member : ℕ) (cookie : Option (List ℕ)) (now : ℕ) (db : MfaDb)
      → needs_login_step_up p m db ≡ true
      → has_device m db ≡ false
      → IsLooked member (has_remembered_device p member cookie now db)
  unfolding is_remembered
  cookie-IsLooked member none now db needs free = (needs, free, λ own. refl)
  cookie-IsLooked member (some token) now db needs free = elim (Bool-cases (is_empty token)) [
    | inl t ↦ rw t (needs, free, λ own. refl)
    | inr t ↦ rw t (marked_token-IsLooked member now db (p.decode_token token) needs free)
  ]
