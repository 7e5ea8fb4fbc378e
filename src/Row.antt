-- ===== src/Row.antt =====
-- The crate `row`: values, schemas, whole rows and storage keys.
pub mod Value
pub mod Schema
pub mod Row
pub mod Key
