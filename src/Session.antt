-- ===== src/Session.antt =====
-- live-runner/store.go: the session record and the operations on it.
pub mod Record
pub mod Output
pub mod Health
pub mod Lifecycle
pub mod Callback
pub mod Delivery
pub mod Keys
pub mod Create
pub mod Operations
pub mod Check
pub mod Details
pub mod Outbox
pub mod Invariant
pub mod Safe
pub mod Laws
