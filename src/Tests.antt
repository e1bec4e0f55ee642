-- ===== src/Tests.antt =====
-- Runs of the models on concrete data, and the theorems applied to them.
pub mod Data
pub mod Requests
pub mod Threads
pub mod Storage
pub mod Service
pub mod Permits
pub mod Digest
pub mod Boot
