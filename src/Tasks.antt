-- ===== src/Tasks.antt =====
-- The tasks bounded context: internal/tasks.
pub mod Streak
pub mod Warnings
pub mod Schema
pub mod Ledger
pub mod Instances
pub mod Claims
pub mod Closing
pub mod Rewards
pub mod Trades
pub mod Overdue
pub mod System
pub mod Writes
pub mod Lifecycle
pub mod Rows
mod Examples
