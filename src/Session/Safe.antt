-- ===== src/Session/Safe.antt =====
-- The operations on a session record and its invariant: one module for each group of operations.
pub mod Rules
pub mod Emit
pub mod Output
pub mod Health
pub mod Lifecycle
pub mod Callback
pub mod Keys
pub mod Runs
