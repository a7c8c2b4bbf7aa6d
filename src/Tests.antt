-- ===== src/Tests.antt =====
-- Concrete runs of the modelled code.
pub mod Fixtures
pub mod Contract
pub mod Session
pub mod Abr
pub mod Policy
pub mod Playlist
pub mod Admission
pub mod Delivery
pub mod Runtime
pub mod Vod
pub mod Media
