-- ===== src/Txn.antt =====
-- The crate `txn`: reads and writes of rows by table name and primary key.
pub mod Error
pub mod Database
