-- ===== src/Vod.antt =====
-- transcode-runner/vod_v2.go: the journal of a VOD workload, its execution and its bill.
pub mod Journal
pub mod Request
pub mod Execute
pub mod Ends
