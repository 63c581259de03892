-- ===== src/Delivery.antt =====
-- Durable delivery of signed artifacts to relays (src/state_delivery.rs, src/delivery_worker.rs).
pub mod Types
pub mod Rows
pub mod Statements
pub mod Claim
pub mod Submit
pub mod Finalize
pub mod Resolve
pub mod Invariant
pub mod Policy
pub mod Create
pub mod Progress
pub mod Standing
pub mod Lifecycle
pub mod Outcome
pub mod Reading
pub mod Lifetime
pub mod Worker
pub mod Retry
pub mod Tests
pub mod Ready
