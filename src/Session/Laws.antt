-- ===== src/Session/Laws.antt =====
-- The operations on a session: one module for each topic.
pub mod Ending
pub mod Terminal
pub mod Creation
pub mod Keys
pub mod Metering
pub mod Delivery
pub mod Mailbox
pub mod Sweep
pub mod Drain
