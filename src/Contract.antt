-- ===== src/Contract.antt =====
-- live-runner/contract.go: the paid-session wire contract and its validators.
pub mod Types
pub mod Ident
pub mod EventId
pub mod World
pub mod Request
pub mod Details
pub mod Event
