-- ===== src/Db.antt =====
-- The package app/db: the connection, the audit log and the metrics.
pub mod Connection
pub mod Lifecycle
pub mod Migrate
pub mod Audit
pub mod Metrics
pub mod Params
pub mod Percentile
pub mod Summary
