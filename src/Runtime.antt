-- ===== src/Runtime.antt =====
-- live-runner/runtime.go and recovery.go: the ladders of the sessions, their ends and restarts.
pub mod Ladder
pub mod Finish
pub mod Coordinator
pub mod Slots
pub mod Launch
pub mod Ends
