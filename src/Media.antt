-- ===== src/Media.antt =====
-- live-runner/media.go and hls.go: who may publish to MediaMTX and read from it, and what it serves.
pub mod Path
pub mod Authorize
pub mod Texts
pub mod Exact
pub mod Keys
pub mod Asset
