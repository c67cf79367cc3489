-- ===== src/Notify.antt =====
-- Notifications: internal/notify. A notification is routed to a channel, waits in the outbox until
-- it is due, and a dispatcher hands it to the channel's sender.
pub mod Schema
pub mod QuietHours
pub mod Outbox
pub mod Dispatcher
pub mod Contacts
pub mod Routing
pub mod Preferences
mod Examples
