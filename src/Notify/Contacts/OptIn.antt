-- ===== src/Notify/Contacts/OptIn.antt =====
-- Opting in to SMS and out of it: internal/notify/adapter/contact_postgres.go (SetOptedIn).
use nestova.Base.{
  ℕ, ◌≡◌, refl, subst, ap, false, Option, none, some, find, update, Option-cases, inl, inr,
  find-update, find-test, any-find, unmatched, Result, ok, ok_inj, bind-ok,
}
use nestova.Clock.{Time}
use nestova.Notify.Schema.{NotifyError}
use nestova.Notify.Contacts.{
  ContactRow, ContactDirectory, MemberContact, phone_of, is_contact, contact_of, get_contact,
  stamped, set_opted_in,
}
use nestova.Notify.Contacts.Consent.{known_contact}

-- The contact without consent.
abbrev pub opted_out : MemberContact → MemberContact
opted_out c = record c { sms_opted_in = false }

refused : MemberContact → Result NotifyError MemberContact
refused c = ok (opted_out c)

module _ (member : ℕ) (db : ContactDirectory) (c : MemberContact) where
  out_of_row :
      (row : ContactRow)
      → contact_of member (some row) ≡ ok c
      → contact_of member (some (stamped none row)) ≡ ok (opted_out c)
  unfolding refused
  out_of_row row h =
      let (p, read, e) = bind-ok (phone_of row.phone_e164) _ h in rw read (ap refused (ok_inj e))

  -- Opting out succeeds for every known member, and takes consent away and nothing else.
  pub opt_out_lem :
      (now : Time)
      → get_contact member db ≡ ok c
      → (db' : ContactDirectory) × (set_opted_in now member false db ≡ ok db')
        × (get_contact member db' ≡ ok (opted_out c))
  unfolding set_opted_in get_contact refused
  opt_out_lem now h =
      let (known, read) = known_contact member db h in
      elim (Option-cases (find (is_contact member) db.contacts)) [
        | inl none' ↦ (
          db,
          rw (unmatched (is_contact member) db.contacts none', known) refl,
          rw (known, none') (ap refused (ok_inj (at none' read))),
        )
        | inr (row, found) ↦ (
          record db { contacts = update (is_contact member) (stamped none) db.contacts },
          rw (any-find (is_contact member) db.contacts found) refl,
          rw
              (
                known,
                find-update (is_contact member) (is_contact member) (stamped none) db.contacts
                    (λ r. refl),
                found,
                find-test (is_contact member) db.contacts found,
              )
              (out_of_row row (at found read)),
        )
      ]
    where
      at :
          {o : Option ContactRow}
          → find (is_contact member) db.contacts ≡ o
          → contact_of member (find (is_contact member) db.contacts) ≡ ok c
          → contact_of member o ≡ ok c
      at e read = subst (λ o. contact_of member o ≡ ok c) e read
