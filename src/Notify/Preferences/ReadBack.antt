-- ===== src/Notify/Preferences/ReadBack.antt =====
-- What is read after the settings are saved: internal/notify/app/settings.go (SetPreferences) with
-- internal/notify/adapter/preference_postgres.go.
use nestova.Base.{
  ℕ, ◌≡◌, ◌∙◌, sym, refl, ap, Bool, true, false, List, [], ◌∷◌, if◌then◌else◌, any, find, update,
  Bool-cases, arith, inl, inr, find-update-other, Result, ok, ◌>>◌, guard-ok, bind-ok, then-ok,
  not-false, ok_inj, test_of_eq,
}
use nestova.Notify.Schema.{
  Channel, EventType, NotifyError, storage_error, channel_not_deliverable, not_sms_ready,
}
use nestova.Notify.Contacts.{ContactDirectory, MemberContact, ready_for_sms, get_contact}
use nestova.Notify.Preferences.{
  MemberPreference, same_event, is_preference, channel_of, get_preference, with_preference,
  upserted, set_preference, set_each, is_undeliverable, wants_sms, check_sms, set_preferences,
}

module _ (member : ℕ) (event : EventType) where
  read-updated :
      (p : MemberPreference) (prefs : List MemberPreference)
      → is_preference member event p ≡ true
      → any (is_preference p.member p.event_type) prefs ≡ true
      → channel_of (
          find
            (is_preference member event)
            (update (is_preference p.member p.event_type) (with_preference p.channel) prefs))
        ≡ ok p.channel
  unfolding any find update same_event
  read-updated p [] own h = cc
  read-updated p (q ∷ prefs) own h =
      ground (
        arith,
        own,
        h,
        read-updated p prefs own,
        Bool-cases (is_preference p.member p.event_type q),
      )

  -- A preference that is stored is read back, and every other one is as it was.
  read-upserted :
      (p : MemberPreference) (prefs : List MemberPreference)
      → get_preference member event (upserted p prefs)
        ≡ (if is_preference member event p then ok p.channel else get_preference member event prefs)
  unfolding get_preference find same_event
  read-upserted p prefs = elim (Bool-cases (any (is_preference p.member p.event_type) prefs)) [
    | inl old ↦ elim (Bool-cases (is_preference member event p)) [
      | inl own ↦ rw (old, own) (read-updated p prefs own old)
      | inr other ↦
          let apart =
            find-update-other (is_preference member event) (is_preference p.member p.event_type)
              (with_preference p.channel) prefs (λ q same. ground (arith, same, other))
              (λ q. refl) in
          rw (old, other, apart) refl
    ]
    | inr new ↦ ground (arith, new, Bool-cases (is_preference member event p))
  ]

  -- The last of the updates for the event, or what was there before.
  abbrev pub latest :
      List (EventType × Channel) → Result NotifyError Channel → Result NotifyError Channel
  latest [] before = before
  latest ((changed, channel) ∷ updates) before =
      latest updates (if same_event changed event then ok channel else before)

module _ (in_household : ℕ → ℕ → Bool) (household member : ℕ) where
  set_each-read :
      (deliverable : Channel → Bool) (event : EventType) (updates : List (EventType × Channel))
      (prefs : List MemberPreference) {prefs' : List MemberPreference}
      → set_each deliverable in_household household member updates prefs ≡ ok prefs'
      → get_preference member event prefs'
        ≡ latest member event updates (get_preference member event prefs)
  unfolding set_each set_preference
  set_each-read deliverable event [] prefs h = ap (get_preference member event) (ok_inj (sym h))
  set_each-read deliverable event ((changed, channel) ∷ updates) prefs h =
      let p : MemberPreference = record {
        member = member;
        household = household;
        event_type = changed;
        channel = channel;
      } in
      let (rows, set, rest) = bind-ok (set_preference in_household p prefs) _ h in
      let (known, stored) = guard-ok _ storage_error (ok (upserted p prefs)) set in
      let here : get_preference member event rows
          ≡ (if same_event changed event then ok channel else get_preference member event prefs) =
        ap (get_preference member event) (ok_inj (sym stored))
        ∙ read-upserted member event p prefs
        ∙ rw (test_of_eq member) refl in
      set_each-read deliverable event updates rows rest ∙ ap (latest member event updates) here

  -- What saved settings are.
  abbrev pub IsSaved :
      (Channel → Bool)
      → ContactDirectory
      → List (EventType × Channel)
      → List MemberPreference
      → List MemberPreference
      → Type 0
  IsSaved deliverable db updates prefs prefs' =
      (any (is_undeliverable deliverable) updates ≡ false)
      × (any wants_sms updates ≡ true
          → (c : MemberContact) × (get_contact member db ≡ ok c) × (ready_for_sms c ≡ true))
      × ((event : EventType)
          → get_preference member event prefs'
            ≡ latest member event updates (get_preference member event prefs))

  -- When a member's settings are saved, each event is read back with the channel that was chosen for
  -- it, and every event that was not among them as before; each chosen channel can be delivered to,
  -- and SMS is chosen only by a member with a number who has opted in.
  pub set_preferences-IsSaved :
      (deliverable : Channel → Bool) (db : ContactDirectory) (updates : List (EventType × Channel))
      (prefs prefs' : List MemberPreference)
      → set_preferences deliverable in_household household member db updates prefs ≡ ok prefs'
      → IsSaved deliverable db updates prefs prefs'
  unfolding set_preferences
  set_preferences-IsSaved deliverable db updates prefs prefs' h =
      let (can, checked) = guard-ok _ channel_not_deliverable _ h in
      let (ready, saved) = split (any wants_sms updates) checked in
      (can, ready, λ event. set_each-read deliverable event updates prefs saved)
    where
      split :
          (b : Bool)
          → (check_sms member b db
              >> set_each deliverable in_household household member updates prefs)
            ≡ ok prefs'
          → (b ≡ true
              → (c : MemberContact) × (get_contact member db ≡ ok c) × (ready_for_sms c ≡ true))
            × (set_each deliverable in_household household member updates prefs ≡ ok prefs')
      split false e = (λ h. absurd (cc), e)
      split true e =
          let (checked, saved) = then-ok (check_sms member true db) _ e in
          let (c, found, ready) = bind-ok (get_contact member db) _ checked in
          let (unready, _) = guard-ok _ not_sms_ready _ ready in
          (λ h. (c, found, not-false (ready_for_sms c) unready), saved)
