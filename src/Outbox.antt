-- ===== src/Outbox.antt =====
-- src/outbox.rs: the intents of uploads, the events that are committed with them, and their dispatch.
pub mod Data
pub mod Destinations
pub mod Intents
pub mod Enqueue
pub mod Sources
pub mod Dispatch
pub mod Recovery
mod Intact
mod Retained
mod Retries
mod Delivery
mod Fencing
mod Progress
mod Policy
mod Receipts
mod Drain
mod Admission
mod Tests
