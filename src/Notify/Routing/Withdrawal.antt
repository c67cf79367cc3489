-- ===== src/Notify/Routing/Withdrawal.antt =====
-- What happens to text messages once a member takes consent back, or changes the number it was
-- given for: internal/notify/app/routing.go, internal/notify/adapter/contact_postgres.go and
-- internal/notify/adapter/sms_notification_sender.go.
use Prim.Native.String.{String}
use nestova.Base.{
  ℕ, ◌≡◌, ◌∙◌, sym, refl, subst, ap, Bool, true, false, not, ◌&&◌, Option, none, some, is_none,
  Bool-cases, arith, inl, inr, Result, ok, err, ok_inj,
}
use nestova.Clock.{Time}
use nestova.Notify.Schema.{
  Notification, Channel, push, email, in_app, sms, EventType, NotifyError, not_sms_ready, is_sms,
}
use nestova.Notify.Contacts.{
  E164Phone, ContactDirectory, MemberContact, ready_for_sms, same_phone, phone_of, get_contact,
  set_phone, set_opted_in,
}
use nestova.Notify.Contacts.Consent.{set_phone-IsRephoned}
use nestova.Notify.Contacts.OptIn.{opted_out, opt_out_lem}
use nestova.Notify.Routing.{RoutingEnqueuer, resolve_channel, with_channel, route, routed, sms_send}
use nestova.Notify.Routing.Safety.{WantsSms, resolve-WantsSms}

-- The member opts out, or another number or none is set.
pub data Withdraws (now : Time) (member : ℕ) (c : MemberContact) (db db' : ContactDirectory)
    : Type 0 where
  opts_out : set_opted_in now member false db ≡ ok db' → Withdraws now member c db db'
  renumbers :
      (phone : Option E164Phone)
      → phone_of phone ≡ ok phone
      → same_phone c.phone phone ≡ false
      → set_phone member phone db ≡ ok db'
      → Withdraws now member c db db'

-- The member's contact can be read and is not ready for SMS.
abbrev IsUnready : ℕ → ContactDirectory → Type 0
IsUnready member db =
    (c : MemberContact) × (get_contact member db ≡ ok c) × (ready_for_sms c ≡ false)

Withdraws-IsUnready :
    (now : Time) (member : ℕ) (c : MemberContact) (db db' : ContactDirectory)
    → get_contact member db ≡ ok c
    → Withdraws now member c db db'
    → IsUnready member db'
Withdraws-IsUnready now member c db db' h (opts_out out) =
    let (made, done, contact) = opt_out_lem member db c now h in
    subst (IsUnready member) (ok_inj (sym done ∙ out)) (opted_out c, contact, ground arith)
Withdraws-IsUnready now member c db db' h (renumbers phone valid other set) =
    let (made, done, (contact, rest)) = set_phone-IsRephoned member phone db c h valid in
    subst (IsUnready member) (ok_inj (sym done ∙ set)) (
      record {
        member_id = member;
        phone = phone;
        sms_opted_in = c.sms_opted_in && same_phone c.phone phone;
      },
      contact,
      rw other (unready (not (is_none phone)) c.sms_opted_in),
    )
  where
    unready : (a b : Bool) → (a && (b && false)) ≡ false
    unready a b = ground arith

route-WantsSms :
    {A : Type 0} (e : RoutingEnqueuer A) (member : ℕ) (event : EventType) (n : Notification)
    → is_sms n.channel ≡ false
    → is_sms (route e member event n).channel ≡ true
    → WantsSms e member event
unfolding route
route-WantsSms e member event n default = chosen (resolve_channel e member event) refl
  where
    chosen :
        (r : Result NotifyError Channel)
        → resolve_channel e member event ≡ r
        → is_sms (with_channel e n r).channel ≡ true
        → WantsSms e member event
    chosen (ok sms) p h = resolve-WantsSms e member event p
    chosen (ok push) p h = cc
    chosen (ok email) p h = cc
    chosen (ok in_app) p h = cc
    chosen (err failed) p h = absurd (ground (arith, h, default))

unready_send :
    (provider : E164Phone → String → Result NotifyError (Unit {0})) (member : ℕ)
    (db : ContactDirectory) (n : Notification)
    → IsUnready member db
    → n.member ≡ some member
    → sms_send provider (λ m. get_contact m db) n ≡ err not_sms_ready
unfolding sms_send
unready_send provider member db n (c, contact, unready) m = rw (m, contact, unready) refl

-- Opting out, or setting another number or none, stops text messages at once: a message to the
-- member that was routed as SMS before is refused when it is sent, and none that comes in by another
-- channel is routed as SMS any more. The member's contact could be read before.
pub Withdraws-stops :
    {A : Type 0} (e : RoutingEnqueuer A)
    (provider : E164Phone → String → Result NotifyError (Unit {0})) (now : Time) (member : ℕ)
    (c : MemberContact) (db db' : ContactDirectory)
    → get_contact member db ≡ ok c
    → Withdraws now member c db db'
    → ((m : ℕ) → e.contacts m ≡ get_contact m db')
    → (n : Notification) → n.member ≡ some member
    → (sms_send provider (λ m. get_contact m db') n ≡ err not_sms_ready)
      × (is_sms n.channel ≡ false → is_sms (routed e n.member n.event_type n).channel ≡ false)
Withdraws-stops e provider now member c db db' h withdraws reads n m =
    let unready = Withdraws-IsUnready now member c db db' h withdraws in
    (
      unready_send provider member db' n unready m,
      λ default.
          subst (λ o. is_sms (routed e o n.event_type n).channel ≡ false) (sym m)
            (by_event default unready n.event_type),
    )
  where
    by_event :
        is_sms n.channel ≡ false
        → IsUnready member db'
        → (v : Option EventType) → is_sms (routed e (some member) v n).channel ≡ false
    by_event default unready none = default
    by_event default (c', contact, unready) (some event) =
        elim (Bool-cases (is_sms (route e member event n).channel)) [
          | inl texted ↦
              let (preferred, (c2, found, ready)) =
                route-WantsSms e member event n default texted in
              let same = ok_inj (sym found ∙ reads member ∙ contact) in
              absurd (ground (arith, unready, ap ready_for_sms same, ready))
          | inr other ↦ other
        ]
