-- ===== src/Index.antt =====
-- The media index of crates/server/src/index: its records, its tables and their queries.
pub mod Table
pub mod Record
pub mod Database
pub mod Reliable
pub mod Like
pub mod Writes
pub mod Reads
pub mod Search
