-- ===== src/Notify/Contacts.antt =====
-- Members' phone numbers and their consent to SMS: internal/notify/domain/contact.go and phone.go,
-- internal/notify/adapter/contact_postgres.go. A phone number is its characters' codes.
pub mod Consent
pub mod OptIn
use nestova.Base.{
  ℕ, ◌≤◌, Bool, true, false, not, ◌&&◌, ◌||◌, List, [], ◌∷◌, length, Option, none, some, leb, ◌==◌,
  if◌then◌else◌, is_none, any, find, update, Result, ok, err, ◌>>=◌, ◌>>◌, fail_if, or_fail,
}
use nestova.Clock.{Time}
use nestova.Notify.Schema.{NotifyError, contact_not_found, phone_required, invalid_phone}

abbrev pub E164Phone : Type 0
E164Phone = List ℕ

abbrev is_digit : ℕ → Bool
is_digit c = leb 48 c && leb c 57

abbrev all_digits : List ℕ → Bool
all_digits [] = true
all_digits (c ∷ text) = is_digit c && all_digits text

-- `^\+[1-9]\d{1,14}$`
abbrev pub e164_pattern : List ℕ → Bool
e164_pattern (plus ∷ first ∷ digits) =
    plus == 43
    && leb 49 first
    && leb first 57
    && all_digits digits
    && leb 1 (length digits)
    && leb (length digits) 14
e164_pattern (plus ∷ []) = false
e164_pattern [] = false

unfoldable pub parse_e164_phone : List ℕ → Result NotifyError E164Phone
parse_e164_phone text = if e164_pattern text then ok text else err invalid_phone

-- Equality of columns as `IS NOT DISTINCT FROM` reads it.
abbrev pub same_text : List ℕ → List ℕ → Bool
same_text [] [] = true
same_text [] (b ∷ ys) = false
same_text (a ∷ xs) [] = false
same_text (a ∷ xs) (b ∷ ys) = a == b && same_text xs ys

abbrev pub same_phone : Option E164Phone → Option E164Phone → Bool
same_phone none none = true
same_phone none (some b) = false
same_phone (some a) none = false
same_phone (some a) (some b) = same_text a b

-- A row of member_contact, which a member without settings does not have.
pub record ContactRow : Type 0 where
  pub member : ℕ
  pub phone_e164 : Option E164Phone
  pub sms_opted_in_at : Option Time

pub record ContactDirectory : Type 0 where
  pub members : List ℕ
  pub contacts : List ContactRow

pub record MemberContact : Type 0 where
  pub member_id : ℕ
  pub phone : Option E164Phone
  pub sms_opted_in : Bool

abbrev pub ready_for_sms : MemberContact → Bool
ready_for_sms c = not (is_none c.phone) && c.sms_opted_in

abbrev pub member_exists : ℕ → ContactDirectory → Bool
member_exists member db = any (λ m. m == member) db.members

abbrev pub is_contact : ℕ → ContactRow → Bool
is_contact member c = c.member == member

abbrev pub phone_of : Option E164Phone → Result NotifyError (Option E164Phone)
phone_of none = ok none
phone_of (some text) = do parsed ← parse_e164_phone text; ok (some parsed)

-- The `LEFT JOIN`: a known member without a row has neither a phone nor consent.
abbrev pub contact_of : ℕ → Option ContactRow → Result NotifyError MemberContact
contact_of member none = ok (record { member_id = member; phone = none; sms_opted_in = false })
contact_of member (some row) = do
  parsed ← phone_of row.phone_e164
  ok (record {
    member_id = member;
    phone = parsed;
    sms_opted_in = not (is_none row.sms_opted_in_at);
  })

unfoldable pub get_contact : ℕ → ContactDirectory → Result NotifyError MemberContact
get_contact member db = do
  fail_if (not (member_exists member db)) contact_not_found
  contact_of member (find (is_contact member) db.contacts)

-- Consent is kept for the same number only.
abbrev pub rephoned : Option E164Phone → ContactRow → ContactRow
rephoned phone c = record c {
  phone_e164 = phone;
  sms_opted_in_at = if same_phone c.phone_e164 phone then c.sms_opted_in_at else none;
}

unfoldable pub set_phone :
    ℕ → Option E164Phone → ContactDirectory → Result NotifyError ContactDirectory
set_phone member phone db = do
  fail_if (not (member_exists member db)) contact_not_found
  ok (
      if any (is_contact member) db.contacts
      then record db { contacts = update (is_contact member) (rephoned phone) db.contacts }
      else record db {
        contacts =
            record { member = member; phone_e164 = phone; sms_opted_in_at = none } ∷ db.contacts;
      })

abbrev pub stamped : Option Time → ContactRow → ContactRow
stamped at c = record c { sms_opted_in_at = at }

abbrev pub has_phone : ℕ → ContactRow → Bool
has_phone member c = is_contact member c && not (is_none c.phone_e164)

unfoldable pub set_opted_in :
    Time → ℕ → Bool → ContactDirectory → Result NotifyError ContactDirectory
set_opted_in now member false db =
    let out = record db { contacts = update (is_contact member) (stamped none) db.contacts } in
    if any (is_contact member) db.contacts
    then ok out
    else (if member_exists member db then ok db else err contact_not_found)
set_opted_in now member true db =
    let out = record db { contacts = update (has_phone member) (stamped (some now)) db.contacts } in
    if any (has_phone member) db.contacts
    then ok out
    else (if member_exists member db then err phone_required else err contact_not_found)
