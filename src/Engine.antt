-- ===== src/Engine.antt =====
-- The crate `engine`: sessions that run parsed statements.
pub mod Error
pub mod Eval
pub mod KeyOrder
pub mod Access
pub mod Query
pub mod Session
