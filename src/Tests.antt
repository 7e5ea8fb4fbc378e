-- ===== src/Tests.antt =====
-- Runs of the theorems, and of the operations, on small inputs.
pub mod Fixtures
mod Rows
mod Stores
mod Sessions
mod Sql
mod Parser
mod Cli
