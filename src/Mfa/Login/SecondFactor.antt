-- ===== src/Mfa/Login/SecondFactor.antt =====
-- Whether a login can go round the second factor: internal/auth/adapter/http.go and login_mfa.go,
-- with internal/auth/app/mfa.go and remember.go.
use nestova.Base.{
  ℕ, ◌≡◌, refl, sym, subst, Bool, true, false, ◌&&◌, ◌||◌, List, [], ◌∷◌, Option, none, some,
  Result, ok, err, OnSuccess-ok, ◌==◌, is_key, any, arith, Bool-cases, inl, inr, eq_of_test,
}
use nestova.Clock.{Time}
use nestova.Mfa.{MfaError, RememberedDevice, MfaDb}
use nestova.Mfa.Service.{verify_login_code}
use nestova.Mfa.Service.Replay.{is_accepted}
use nestova.Mfa.Login.{
  LoginPorts, LoginState, LoginEvent, login_locked, needs_login_step_up, has_remembered_device,
  after_cookie, login, after_code, is_expected_mfa_error, verify_code, finish_passkey, login_step,
  login_steps,
}
use nestova.Mfa.Login.Devices.{keeps_needs, issue_kept, IsLooked, cookie-IsLooked}
use nestova.Mfa.Login.Factors.{has_device, KeepsFactors, verify-KeepsFactors}

module _ (p : LoginPorts) (m : ℕ) where
  -- Whether an event gives the member's second factor: a code or a passkey that is accepted.
  unfoldable pub gives_factor : LoginEvent → LoginState → Bool
  gives_factor (LoginEvent.password who cookie now) st = false
  gives_factor (LoginEvent.code totp recovery remember now) st =
      is_key st.session.pending_member m
      && is_accepted (verify_login_code p.mfa now m totp recovery st.db)
  gives_factor (LoginEvent.passkey assertion now) st =
      is_key st.session.pending_member m && p.verify_passkey m assertion
  gives_factor LoginEvent.logout st = false

  unfoldable pub gave_factor : List LoginEvent → LoginState → Bool
  gave_factor [] st = false
  gave_factor (e ∷ events) st = gives_factor e st || gave_factor events (login_step p e st)

  -- The member needs a second factor, and no device and no session has passed it.
  pub record IsLockedOut (st : LoginState) : Type 0 where
    pub needs : needs_login_step_up p m st.db ≡ true
    pub no_device : has_device m st.db ≡ false
    pub no_session : is_key st.session.member m ≡ false

  after_cookie-IsLockedOut :
      (member now : ℕ) (st : LoginState) (r : MfaDb × Bool)
      → IsLockedOut st
      → IsLooked p m member r
      → IsLockedOut (after_cookie p member now st r)
  after_cookie-IsLockedOut member now st (db, true) locked (needs, free, found) = record {
    needs = needs;
    no_device = free;
    no_session = elim (Bool-cases (member == m)) [
      | inl t ↦ absurd (ground (arith, found t))
      | inr t ↦ t
    ];
  }
  after_cookie-IsLockedOut member now st (db, false) locked (needs, free, found) = record {
    needs = needs;
    no_device = free;
    no_session = locked.no_session;
  }

  login-IsLockedOut :
      (who : Option ℕ) (cookie : Option (List ℕ)) (now : Time) (st : LoginState)
      → IsLockedOut st
      → IsLockedOut (login p who cookie now st)
  unfolding login
  login-IsLockedOut none cookie now st locked = locked
  login-IsLockedOut (some member) cookie now st locked =
      elim (Bool-cases (needs_login_step_up p member st.db)) [
        | inl t ↦ rw t (
            after_cookie-IsLockedOut member now st (has_remembered_device p member cookie now st.db)
              locked (cookie-IsLooked p m member cookie now st.db locked.needs locked.no_device))
        | inr t ↦ rw t (record {
          needs = locked.needs;
          no_device = locked.no_device;
          no_session = elim (Bool-cases (member == m)) [
            | inr other ↦ other
            | inl own ↦
                let e : member ≡ m = eq_of_test member m own in
                absurd (
                  ground
                    (arith, locked.needs, subst (λ k. needs_login_step_up p k st.db ≡ false) e t))
          ];
        })
      ]

  after_code-IsLockedOut :
      (member : ℕ) (totp recovery : List ℕ) (remember : Option (ℕ × List ℕ)) (now : Time)
      (st : LoginState) (r : Result MfaError MfaDb)
      → verify_login_code p.mfa now member totp recovery st.db ≡ r
      → IsLockedOut st
      → ((member == m) && is_accepted r) ≡ false
      → IsLockedOut (after_code p member remember now st r)
  after_code-IsLockedOut member totp recovery remember now st (err e) made locked h =
      elim (Bool-cases (is_expected_mfa_error e)) [
        | inl t ↦ rw t (record {
          needs = locked.needs;
          no_device = locked.no_device;
          no_session = locked.no_session;
        })
        | inr t ↦ rw t locked
      ]
  after_code-IsLockedOut member totp recovery remember now st (ok db) made locked h =
      let other : (member == m) ≡ false = ground (arith, h, Bool-cases (member == m)) in
      let kept =
        OnSuccess-ok (KeepsFactors st.db) db made
          (verify-KeepsFactors p.mfa now member totp recovery st.db) in
      let free : has_device m db ≡ false =
        subst (λ (ds : List RememberedDevice). any (λ d. d.member == m) ds ≡ false)
          (sym kept.devices) locked.no_device in
      let (needs', free') =
        issue_kept p m remember member now db other
          (keeps_needs p m st.db db (kept.factors m) locked.needs, free) in
      record { needs = needs'; no_device = free'; no_session = other }

  -- What holds of the member, for another number that is the member's.
  own_false :
      (f : ℕ → Bool) (member : ℕ)
      → ((member == m) && f m) ≡ false
      → ((member == m) && f member) ≡ false
  own_false f member h = elim (Bool-cases (member == m)) [
    | inr other ↦ rw other refl
    | inl own ↦ subst (λ k. ((member == m) && f k) ≡ false) (sym (eq_of_test member m own)) h
  ]

  code-IsLockedOut :
      (who : Option ℕ) (totp recovery : List ℕ) (remember : Option (ℕ × List ℕ)) (now : Time)
      (st : LoginState)
      → IsLockedOut st
      → (is_key who m && is_accepted (verify_login_code p.mfa now m totp recovery st.db)) ≡ false
      → IsLockedOut (verify_code p who totp recovery remember now st)
  unfolding verify_code
  code-IsLockedOut none totp recovery remember now st locked h = locked
  code-IsLockedOut (some member) totp recovery remember now st locked h =
      elim (Bool-cases (login_locked member now st.attempts)) [
        | inl t ↦ rw t locked
        | inr t ↦ rw t (
            after_code-IsLockedOut member totp recovery remember now st
              (verify_login_code p.mfa now member totp recovery st.db) refl locked
              (own_false (λ k. is_accepted (verify_login_code p.mfa now k totp recovery st.db))
                member h))
      ]

  passkey-IsLockedOut :
      (who : Option ℕ) (assertion : List ℕ) (now : Time) (st : LoginState)
      → IsLockedOut st
      → (is_key who m && p.verify_passkey m assertion) ≡ false
      → IsLockedOut (finish_passkey p who assertion now st)
  unfolding finish_passkey
  passkey-IsLockedOut none assertion now st locked h = locked
  passkey-IsLockedOut (some member) assertion now st locked h =
      let own = own_false (λ k. p.verify_passkey k assertion) member h in
      elim (Bool-cases (p.verify_passkey member assertion)) [
        | inr t ↦ rw t locked
        | inl t ↦ rw t (record {
          needs = locked.needs;
          no_device = locked.no_device;
          no_session = ground (arith, own, t, Bool-cases (member == m));
        })
      ]

  step-IsLockedOut :
      (e : LoginEvent) (st : LoginState)
      → IsLockedOut st
      → gives_factor e st ≡ false
      → IsLockedOut (login_step p e st)
  unfolding login_step gives_factor
  step-IsLockedOut (LoginEvent.password who cookie now) st locked h =
      login-IsLockedOut who cookie now st locked
  step-IsLockedOut LoginEvent.logout st locked h = record {
    needs = locked.needs;
    no_device = locked.no_device;
    no_session = refl;
  }
  step-IsLockedOut (LoginEvent.code totp recovery remember now) st locked h =
      code-IsLockedOut st.session.pending_member totp recovery remember now st locked h
  step-IsLockedOut (LoginEvent.passkey assertion now) st locked h =
      passkey-IsLockedOut st.session.pending_member assertion now st locked h

  -- There is no way around the second factor: a member who has confirmed two-factor login or has a
  -- passkey, and who has no remembered device and no session at first, has the session after some
  -- passwords, cookies, codes, passkeys and logouts only if one of these was a code or a passkey
  -- of the member that was accepted, whoever else logs in between.
  pub login_steps-gave_factor :
      (events : List LoginEvent) (st : LoginState)
      → IsLockedOut st
      → is_key (login_steps p events st).session.member m ≡ true
      → gave_factor events st ≡ true
  unfolding login_steps gave_factor
  login_steps-gave_factor [] st locked h = absurd (ground (arith, h, locked.no_session))
  login_steps-gave_factor (e ∷ events) st locked h = elim (Bool-cases (gives_factor e st)) [
    | inl t ↦ rw t refl
    | inr t ↦
        rw t (login_steps-gave_factor events (login_step p e st) (step-IsLockedOut e st locked t) h)
  ]
