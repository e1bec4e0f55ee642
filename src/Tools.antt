-- ===== src/Tools.antt =====
-- app/tools/: the tools that the supervisor may use.
pub mod Sandbox
