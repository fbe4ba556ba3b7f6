-- ===== src/Nfo.antt =====
-- crates/lib/src/nfo.rs: Kodi sidecars. The XML reader and deserializer are a parameter.
pub mod Documents
pub mod Entities
pub mod Parse
pub mod Plain
