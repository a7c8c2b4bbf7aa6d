-- ===== src/Encoding.antt =====
-- transcode-core: the choice of encoders, presets, and the arguments of ffmpeg.
pub mod Number
pub mod Hardware
pub mod Presets
pub mod Arguments
pub mod Filters
pub mod Graphs
pub mod Commands
pub mod Usable
