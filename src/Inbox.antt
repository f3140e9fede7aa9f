-- ===== src/Inbox.antt =====
-- src/inbox.rs: the durable inbox of finalized uploads and the leases of the workers.
pub mod Data
pub mod Validate
pub mod Tables
pub mod Store
pub mod Laws
pub mod Rows
pub mod Carries
pub mod History
pub mod Fencing
pub mod Deadlines
pub mod Remembers
pub mod Replay
pub mod Receipts
pub mod Http
mod Authority
pub mod Tests
