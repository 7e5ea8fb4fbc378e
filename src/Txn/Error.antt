-- ===== src/Txn/Error.antt =====
-- The error type of crates/txn.
use choam.Base.{Bytes}
use choam.Row.Value.{Value, ValueError}
use choam.Row.Row.{RowError}
use choam.Catalog.Error.{CatalogError}

pub data DbError (StoreError : Type 0) : Type 0 where
  unknown_table : Bytes → DbError StoreError
  value : ValueError → DbError StoreError
  row : RowError → DbError StoreError
  catalog : CatalogError StoreError → DbError StoreError
  store : StoreError → DbError StoreError
  conflict : Bytes → Value → DbError StoreError
  unrecognized_conflict : Bytes → DbError StoreError
