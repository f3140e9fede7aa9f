-- ===== src/Resumable.antt =====
-- src/resumable.rs: resumable upload sessions.
pub mod Data
pub mod Range
pub mod Traits
pub mod Sessions
pub mod Manager
pub mod Completion
pub mod Contract
pub mod Keeps
pub mod Invariant
pub mod Memory
pub mod Success
pub mod Gcs
mod Tests
