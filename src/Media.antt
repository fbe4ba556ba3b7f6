-- ===== src/Media.antt =====
-- The media rules of crates/server/src/media.
pub mod Compat
pub mod Codecs
pub mod Ffmpeg
pub mod Probe
pub mod Sidecars
pub mod Worker
