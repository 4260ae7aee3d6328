-- ===== src/Store.antt =====
-- internal/postgres: the durable state and its transactions.
pub mod Table
pub mod Db
pub mod Tasks
pub mod Sandboxes
pub mod Holds
pub mod Actions
pub mod Native
pub mod Wakes
pub mod Upgrades
pub mod Custody
pub mod Attention
pub mod Activity
pub mod Retries
pub mod Profiles
pub mod Admission
pub mod Recovery
