-- ===== src/Agent.antt =====
-- The package app/agent: thread state, checkpoints and the supervisor.
pub mod State
pub mod Checkpoint
pub mod Step
pub mod Runtime
pub mod Admission
pub mod Kill
pub mod Calm
pub mod Stable
pub mod Isolation
pub mod AuditFirst
pub mod Events
pub mod Chain
