-- ===== src/Lib.antt =====
-- Nestova keeps a household's chores, points, rewards, trades, subscriptions, sign-in, kiosk, photos
-- and notifications. This library models the parts below as functions on explicit state and proves what
-- makes them correct. Paths are from the repository's root.
--
-- Parts:
-- Clock: Go's time package as the code uses it, in one zone of constant offset.
-- Tasks: the tasks database as one store of tables. A repository method is one transaction and
--   one function from the store to a new store or an error, which leaves the store as it was.
--   - Tasks/Schema: the rows (internal/tasks/domain) and the store.
--   - Tasks/Ledger: the point ledger (internal/tasks/adapter/gamification_postgres.go) and the
--     awards and penalties that internal/tasks/adapter/postgres.go writes to it.
--   - Tasks/Instances, Claims, Closing, Overdue: Insert, Claim and its expiry sweep, Complete,
--     CompleteAndAward, Skip and the overdue sweeps of internal/tasks/adapter/postgres.go.
--   - Tasks/Warnings, Streak: the warnings before a claim expires, and domain/streak.go.
--   - Tasks/Rewards: RedeemWithDebit, Fulfill, Deny and Cancel of gamification_postgres.go.
--   - Tasks/Trades: internal/tasks/adapter/trade_postgres.go, with the reservations that a trigger
--     of migration 00021 keeps.
--   - Tasks/System: any of these operations as one step, and histories of steps. Transactions that
--     touch the same rows run one after the other, as their row and advisory locks make them.
--   - Tasks/Writes, Lifecycle, Rows and the modules below the parts: the proofs.
-- Calendar, Cadence: internal/household/domain/cadence.go, with the Gregorian calendar of Go's
--   time package in Calendar. The Gregorian calendar is counted in months since January of year 1.
-- Generator: internal/tasks/app/generator.go, which joins Cadence and Tasks: the occurrences of a
--   window become task instances, assigned in turn.
-- Money, Subscriptions: internal/household/domain/money.go and decimal.go,
--   internal/subscriptions/domain/cycle.go and internal/subscriptions/app/cost.go. Sums wrap around
--   at 64 bits as in Go. Subscriptions/Renewals: app/renewal.go and scheduler.go.
-- Pin: internal/auth/app/pin.go, pin_attempt_limiter.go and internal/auth/adapter/pin_postgres.go.
--   The password hasher is an argument.
-- Mfa: internal/auth/app/mfa.go in Mfa/Service over the tables in Mfa/Store
--   (internal/auth/adapter/mfa_postgres.go and remembered_device_postgres.go). The cipher, the
--   TOTP provider and the hasher are arguments. Mfa/Login: the sign-in from the password to the
--   session (adapter/http.go, login_mfa.go, app/remember.go).
-- Deeplink: internal/deeplink. Signatures and Payloads are about app/signer.go, Confirmations and
--   Redemptions about the redemption that adapter/http.go confirms, which ends in Tasks/Rewards.
--   The MAC, the base64url encoding and the hash of a signature are arguments.
-- Kiosk: internal/kiosk. Codes has the text of activation codes (domain/token.go), Store the two
--   tables (adapter/activation_code_postgres.go, postgres.go), Service app/kiosk_service.go, and
--   Histories the calls of it that follow one another. The hash and random bytes are arguments.
-- Media: internal/media. Chores has the proof photos of chores (app/chore_photo_service.go over
--   adapter/chore_photo_postgres.go), Reaper the storage reaper (app/reaper_service.go).
-- UnifiedCalendar: internal/calendar/app/unified.go, which joins events, due chores (Tasks/Schema)
--   and the renewals of Subscriptions/Renewals into one list.
-- Text: Go's strings functions on lists of code points.
-- Notify: internal/notify, from the choice of a channel to the delivery.
--   - Notify/QuietHours, Contacts, Preferences: domain/quiet_hours.go, the contact directory with
--     the consent to SMS, and the settings service over it (app/settings.go).
--   - Notify/Routing: app/routing.go and the SMS sender. Its ports are functions that may fail.
--   - Notify/Outbox, Dispatcher: the notification table and app/dispatcher.go. Steps has all that
--     can happen to the table when several dispatchers run and may stop at any point.
--   Senders and providers are arguments, and so are the identifiers of new notifications.
-- The Examples modules hold concrete data, tests and the use of each result on them.
--
-- Bounds: numbers of points and money are unbounded integers, except where a wrap-around is written
-- out. Loops over rows are structural recursion. The searches of Cadence and Calendar run on fuel:
-- `t + 1` rounds for an index, since the nth occurrence is not before instant n, `end + 1` rounds
-- for a window, since occurrences increase, and the code's own bounds for the scan of weekdays and
-- the steps of a renewal. The projection of renewals runs on `to + 1` rounds, since each is later than
-- the one before. A number is printed in at most twenty digits, more than an int64 has.
--
-- Left out: network and database failures other than constraint violations, list queries, HTML and
-- HTTP, and the titles that results carry for notifications.
pub mod Base
pub mod Clock
pub mod Calendar
pub mod Cadence
pub mod Mfa
pub mod Media
pub mod Money
pub mod Kiosk
pub mod Notify
pub mod Pin
pub mod Subscriptions
pub mod Deeplink
pub mod Generator
pub mod Tasks
pub mod Text
pub mod UnifiedCalendar
