-- ===== src/Notify/Contacts/Consent.antt =====
-- What the writes of the contact directory do to consent:
-- internal/notify/adapter/contact_postgres.go.
use nestova.Base.{
  ℕ, ◌≡◌, ◌∙◌, sym, refl, subst, Bool, true, false, not, ◌&&◌, List, ◌∷◌, Option, none, some, ◌==◌,
  if◌then◌else◌, is_none, find, update, Option-cases, arith, inl, inr, test_of_eq, find-update,
  find-update-other, any-find, unmatched, find-test, find-cons, ok, err, guard-ok, not-false,
  bind-ok, ok_inj, ap,
}
use nestova.Clock.{Time}
use nestova.Notify.Schema.{contact_not_found, invalid_phone}
use nestova.Notify.Contacts.{
  E164Phone, e164_pattern, parse_e164_phone, same_phone, ContactRow, ContactDirectory,
  MemberContact, member_exists, is_contact, phone_of, contact_of, get_contact, rephoned, set_phone,
}

-- The contact of a known member.
pub known_contact :
    (member : ℕ) (db : ContactDirectory) {c : MemberContact}
    → get_contact member db ≡ ok c
    → (member_exists member db ≡ true)
      × (contact_of member (find (is_contact member) db.contacts) ≡ ok c)
unfolding get_contact
known_contact member db h =
    let (known, found) = guard-ok (not (member_exists member db)) contact_not_found _ h in
    (not-false (member_exists member db) known, found)

parse-same : (text : List ℕ) {p : E164Phone} → parse_e164_phone text ≡ ok p → text ≡ p
unfolding parse_e164_phone
parse-same text {p} = tested (e164_pattern text)
  where
    tested : (b : Bool) → (if b then ok text else err invalid_phone) ≡ ok p → text ≡ p
    tested true h = cc
    tested false h = cc

-- A stored phone is read as it stands.
pub phone_of-same : (p : Option E164Phone) {q : Option E164Phone} → phone_of p ≡ ok q → p ≡ q
phone_of-same none h = cc
phone_of-same (some text) h =
    let (p, parsed, e) = bind-ok (parse_e164_phone text) (λ p. ok (some p)) h in
    rw (parse-same text parsed) (cc)

-- What a contact says of the row.
pub contact_of-row :
    (member : ℕ) (row : ContactRow) {c : MemberContact}
    → contact_of member (some row) ≡ ok c
    → (row.phone_e164 ≡ c.phone) × (c.sms_opted_in ≡ not (is_none row.sms_opted_in_at))
contact_of-row member row h =
    let (p, read, e) = bind-ok (phone_of row.phone_e164) _ h in
    let same = ok_inj e in
    (
      phone_of-same row.phone_e164 read ∙ ap (λ c. c.phone) same,
      sym (ap (λ c. c.sms_opted_in) same),
    )

not_equal : (a b : ℕ) → (a == b) ≡ false → (b == a) ≡ false
not_equal a b h = ground (arith, h)

-- What a change of number does: the new number is on file, consent stays if and only if the number
-- is the same, and no other member's contact changes.
abbrev pub IsRephoned :
    ℕ → Option E164Phone → MemberContact → ContactDirectory → ContactDirectory → Type 0
IsRephoned member phone c db db' =
    (get_contact member db'
      ≡ ok (record {
        member_id = member;
        phone = phone;
        sms_opted_in = c.sms_opted_in && same_phone c.phone phone;
      }))
    × ((other : ℕ) → (other == member) ≡ false → get_contact other db' ≡ get_contact other db)

-- Setting a member's number succeeds, and consent is to a number: it stays only when the number is
-- the one already on file, and no other member's contact changes. The member's contact can be read,
-- and the number is one that can be.
pub set_phone-IsRephoned :
    (member : ℕ) (phone : Option E164Phone) (db : ContactDirectory) (c : MemberContact)
    → get_contact member db ≡ ok c
    → phone_of phone ≡ ok phone
    → (db' : ContactDirectory) × (set_phone member phone db ≡ ok db')
      × IsRephoned member phone c db db'
unfolding set_phone get_contact find
set_phone-IsRephoned member phone db c h valid =
    let (known, read) = known_contact member db h in
    elim (Option-cases (find (is_contact member) db.contacts)) [
      | inl none' ↦ (
        record db { contacts = fresh ∷ db.contacts },
        rw (known, unmatched (is_contact member) db.contacts none') refl,
        (
          rw (known, test_of_eq member, valid, closed_without (read_at none' read)) refl,
          λ other e.
              rw (find-cons (is_contact other) fresh db.contacts (not_equal other member e)) refl,
        ),
      )
      | inr (row, found) ↦ (
        record db { contacts = update (is_contact member) (rephoned phone) db.contacts },
        rw (known, any-find (is_contact member) db.contacts found) refl,
        (
          rephoned_contact row (find-test (is_contact member) db.contacts found) known found
              (contact_of-row member row (read_at found read)),
          λ other e.
              rw
                (find-update-other (is_contact other) (is_contact member) (rephoned phone)
                  db.contacts (λ r own. ground (arith, own, e)) (λ r. refl))
                refl,
        ),
      )
    ]
  where
    fresh : ContactRow
    fresh = record { member = member; phone_e164 = phone; sms_opted_in_at = none }

    read_at :
        {o : Option ContactRow}
        → find (is_contact member) db.contacts ≡ o
        → contact_of member (find (is_contact member) db.contacts) ≡ ok c
        → contact_of member o ≡ ok c
    read_at e read = subst (λ o. contact_of member o ≡ ok c) e read

    closed_without : contact_of member none ≡ ok c → c.sms_opted_in ≡ false
    closed_without read = sym (ap (λ r. r.sms_opted_in) (ok_inj read))

    consent :
        (b : Bool) (at : Option Time)
        → not (is_none (if b then at else none)) ≡ (not (is_none at) && b)
    consent true none = refl
    consent true (some t) = refl
    consent false none = refl
    consent false (some t) = refl

    rephoned_contact :
        (row : ContactRow)
        → is_contact member row ≡ true
        → member_exists member db ≡ true
        → find (is_contact member) db.contacts ≡ some row
        → (row.phone_e164 ≡ c.phone) × (c.sms_opted_in ≡ not (is_none row.sms_opted_in_at))
        → get_contact member
            (record db { contacts = update (is_contact member) (rephoned phone) db.contacts })
          ≡ ok (record {
            member_id = member;
            phone = phone;
            sms_opted_in = c.sms_opted_in && same_phone c.phone phone;
          })
    rephoned_contact row own known found (same, opted) =
        let there =
          find-update (is_contact member) (is_contact member) (rephoned phone) db.contacts
            (λ r. refl) in
        rw
          (
            known,
            there,
            found,
            own,
            valid,
            opted,
            sym same,
            consent (same_phone row.phone_e164 phone) row.sms_opted_in_at,
          )
          refl
