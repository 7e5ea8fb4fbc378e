-- ===== src/Catalog/Error.antt =====
-- The error types of crates/catalog. `StoreError` is that of the storage engine.
use choam.Base.{ℕ, Bytes}
use choam.Row.Schema.{SchemaError}

pub data CatalogCodecError : Type 0 where
  truncated : CatalogCodecError
  invalid_utf8 : CatalogCodecError
  unknown_type_tag : ℕ → CatalogCodecError
  schema : SchemaError → CatalogCodecError

pub data CatalogError (StoreError : Type 0) : Type 0 where
  empty_table_name : CatalogError StoreError
  table_already_exists : Bytes → CatalogError StoreError
  concurrent_create_table : CatalogError StoreError
  schema : SchemaError → CatalogError StoreError
  codec : CatalogCodecError → CatalogError StoreError
  store : StoreError → CatalogError StoreError
