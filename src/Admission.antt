-- ===== src/Admission.antt =====
-- transcode-core/gpu_admission.go: the admission of live and batch work to one GPU.
pub mod Flock
pub mod Gate
pub mod Exclusion
pub mod Reach
pub mod Apart
pub mod Outcome
