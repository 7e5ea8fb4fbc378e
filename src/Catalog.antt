-- ===== src/Catalog.antt =====
-- The crate `catalog`: table schemas stored beside the rows they describe.
pub mod Error
pub mod Codec
pub mod Tables
