-- ===== src/Storage.antt =====
-- src/storage/mod.rs: object references and write modes.
pub mod Objects
pub mod Media
pub mod Reads
pub mod Writes
pub mod Streams
pub mod Copies
pub mod Placement
pub mod Tests
