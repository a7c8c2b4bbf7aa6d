-- ===== src/Playlist.antt =====
-- live-runner/metering.go: the finalized segments of an HLS media playlist.
pub mod Parse
pub mod Segments
