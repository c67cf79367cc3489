-- ===== src/Notify/Routing/Safety.antt =====
-- When a text message goes out: internal/notify/app/routing.go with the contact directory of
-- internal/notify/adapter/contact_postgres.go and its sender.
use nestova.Base.{
  ℕ, ◌≤◌, ◌≡◌, refl, Bool, true, false, Option, none, some, if◌then◌else◌, Bool-cases, arith, inl,
  inr, Result, ok, err, bind-ok,
}
use nestova.Clock.{Time}
use nestova.Notify.Schema.{
  Notification, Channel, push, email, in_app, sms, EventType, NotifyError, is_sms,
}
use nestova.Notify.QuietHours.{QuietHours, in_quiet_hours}
use nestova.Notify.QuietHours.Least.{IsClock, end_after-IsEndOfQuiet}
use nestova.Notify.Contacts.{MemberContact, ready_for_sms}
use nestova.Notify.Routing.{
  RoutingEnqueuer, by_preference, resolve_channel, defer, with_channel, route, routed,
  enqueue_routed, is_preference_not_found,
}

-- Only the channel and the schedule of a notification change.
abbrev pub IsRerouted : Notification → Notification → Type 0
IsRerouted n n' = n' ≡ record n { channel = n'.channel; scheduled_for = n'.scheduled_for }

ready_of :
    (b : Bool)
    → Path (Result NotifyError Channel) (ok (if b then sms else in_app)) (ok sms)
    → b ≡ true
ready_of true h = refl
ready_of false h = cc

module _ {ℓ} {A : Type ℓ} (e : RoutingEnqueuer A) where
  -- The member's preference is SMS and the member is ready for it.
  abbrev pub WantsSms : ℕ → EventType → Type 0
  WantsSms member event =
      (e.preferences member event ≡ ok sms)
      × ((c : MemberContact) × (e.contacts member ≡ ok c) × (ready_for_sms c ≡ true))

  -- The household's quiet hours are known and do not have the time, which is not before another.
  abbrev pub IsDeferred : ℕ → Time → Time → Type 0
  IsDeferred household before t =
      ((q : QuietHours) × (e.quiet_hours household ≡ ok q) × (in_quiet_hours q t ≡ false))
      × (before ≤ t)

  pub resolve-WantsSms :
      (member : ℕ) (event : EventType)
      → resolve_channel e member event ≡ ok sms
      → WantsSms member event
  unfolding resolve_channel
  resolve-WantsSms member event = preferred (e.preferences member event) refl
    where
      preferred :
          (r : Result NotifyError Channel)
          → e.preferences member event ≡ r
          → by_preference e member r ≡ ok sms
          → WantsSms member event
      preferred (ok sms) p h =
          let (c, found, ready) =
            bind-ok (e.contacts member) (λ c. ok (if ready_for_sms c then sms else in_app)) h in
          (p, (c, found, ready_of (ready_for_sms c) ready))
      preferred (ok push) p h = cc
      preferred (ok email) p h = cc
      preferred (ok in_app) p h = cc
      preferred (err failed) p h = ground (arith, h, Bool-cases (is_preference_not_found failed))

  -- A notification that goes out as a text message, though it did not come as one: its member wants
  -- text messages, and it is not scheduled in the quiet hours, nor earlier than it was.
  abbrev pub IsSafe : Notification → Notification → Type 0
  IsSafe n n' =
      (is_sms n'.channel ≡ true
        → ((member : ℕ) × (event : EventType) × (n.member ≡ some member)
            × (n.event_type ≡ some event)
            × WantsSms member event)
          × IsDeferred n.household n.scheduled_for n'.scheduled_for)
      × (is_sms n'.channel ≡ false → n'.scheduled_for ≡ n.scheduled_for)
      × IsRerouted n n'

  unchanged : (n : Notification) → is_sms n.channel ≡ false → IsSafe n n
  unchanged n default = (λ h. absurd (ground (arith, h, default)), λ h. refl, refl)

  module _
      (clocks : (household : ℕ) (q : QuietHours)
        → e.quiet_hours household ≡ ok q
        → IsClock q.start × IsClock q.end) where
    defer-IsDeferred :
        (n : Notification) (q : QuietHours)
        → e.quiet_hours n.household ≡ ok q
        → let n' = defer e (record n { channel = sms }) (ok q) in
          IsDeferred n.household n.scheduled_for n'.scheduled_for
          × (n'.channel ≡ sms)
          × IsRerouted n n'
    defer-IsDeferred n q known = elim (Bool-cases (in_quiet_hours q n.scheduled_for)) [
      | inl quiet ↦
          let (from, to) = clocks n.household q known in
          let (later, loud, between) = end_after-IsEndOfQuiet q n.scheduled_for from to quiet in
          rw quiet (((q, known, loud), omega (arith, later)), refl, refl)
      | inr loud ↦ rw loud (((q, known, loud), omega arith), refl, refl)
    ]

    route-IsSafe :
        (member : ℕ) (event : EventType) (n : Notification)
        → n.member ≡ some member
        → n.event_type ≡ some event
        → is_sms n.channel ≡ false
        → IsSafe n (route e member event n)
    unfolding route
    route-IsSafe member event n m v default = chosen (resolve_channel e member event) refl
      where
        timed :
            resolve_channel e member event ≡ ok sms
            → (r : Result NotifyError QuietHours) → e.quiet_hours n.household ≡ r
            → IsSafe n (defer e (record n { channel = sms }) r)
        timed p (ok q) known =
            let (when, texted, same) = defer-IsDeferred n q known in
            (
              λ h. ((member, event, m, v, resolve-WantsSms member event p), when),
              λ h. absurd (ground (arith, h, texted)),
              same,
            )
        timed p (err failed) known = (λ h. cc, λ h. refl, refl)

        chosen :
            (r : Result NotifyError Channel)
            → resolve_channel e member event ≡ r
            → IsSafe n (with_channel e n r)
        chosen (err failed) p = unchanged n default
        chosen (ok sms) p = timed p (e.quiet_hours n.household) refl
        chosen (ok push) p = (λ h. cc, λ h. refl, refl)
        chosen (ok email) p = (λ h. cc, λ h. refl, refl)
        chosen (ok in_app) p = (λ h. cc, λ h. refl, refl)

    -- A notification that does not come as a text message goes out as one only if its member's
    -- preference for the event is SMS and the member has a number and has opted in, and the
    -- household's quiet hours are known and it is scheduled outside them, no earlier than before.
    -- Whatever is looked up and fails, the notification is passed on, and apart from its channel
    -- and its schedule it is unchanged. The bounds of quiet hours are clock times of a day.
    pub enqueue_routed-IsSafe :
        (n : Notification)
        → is_sms n.channel ≡ false
        → (n' : Notification) × (enqueue_routed e n ≡ e.forward n') × IsSafe n n'
    unfolding enqueue_routed
    enqueue_routed-IsSafe n default =
        (routed e n.member n.event_type n, refl, safe n.member n.event_type refl refl)
      where
        safe :
            (m : Option ℕ) (v : Option EventType)
            → n.member ≡ m
            → n.event_type ≡ v
            → IsSafe n (routed e m v n)
        safe (some member) (some event) m v = route-IsSafe member event n m v default
        safe (some member) none m v = unchanged n default
        safe none v m w = unchanged n default
