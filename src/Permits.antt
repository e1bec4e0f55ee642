-- ===== src/Permits.antt =====
-- scripts/: the monitor of building permits.
pub mod Process
pub mod Fetch
pub mod Gather
pub mod Money
pub mod Sorting
pub mod Groups
pub mod Digest
pub mod Notify
pub mod Daily
pub mod Alerts
