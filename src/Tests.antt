-- ===== src/Tests.antt =====
-- The theorems at concrete inputs.
mod Names
mod Sidecars
mod Planner
mod Matcher
mod Fixtures
mod Writes
mod Passes
mod Settings
mod Watching
mod Statuses
mod Scans
mod Listings
