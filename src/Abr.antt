-- ===== src/Abr.antt =====
-- abr-runner: the contract of a batch transcode, its bill, and the journal of its progress.
pub mod Types
pub mod Contract
pub mod Journal
pub mod Check
pub mod Billing
pub mod Terminal
pub mod Safe
pub mod Runs
