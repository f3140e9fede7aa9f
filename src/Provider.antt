-- ===== src/Provider.antt =====
-- src/resumable_storage.rs: sessions and staged chunks in a database.
pub mod Tables
pub mod Store
pub mod Identity
pub mod Staged
pub mod Backend
pub mod Sweep
mod Assembly
mod Chunks
pub mod Rows
mod Refines
mod Tests
