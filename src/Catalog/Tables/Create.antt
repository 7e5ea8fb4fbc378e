-- ===== src/Catalog/Tables/Create.antt =====
-- What `create_table` leaves in the store when it fails.
use choam.Base.{◌≡◌, refl, List, Bytes, ℕ, Result, ok, err, panic}
use choam.Row.Schema.{ColumnDef}
use choam.Storage.{Storage, StorageLaws, TxnError, conflict}
use choam.Catalog.Error.{CatalogError}
use choam.Catalog.Tables.{TableHandle, create_table, prepare_create, commit_create, created}

module _ (st : Storage) (laws : StorageLaws st) where
  created-err :
      (handle : TableHandle) (r : Result (TxnError st.StoreError) (Unit {0}) × st.Store)
      (now : st.Store) (e : CatalogError st.StoreError)
      → ((x : TxnError st.StoreError) → r.0 ≡ err x → r.1 ≡ now)
      → (created st handle r).0 ≡ err e
      → (created st handle r).1 ≡ now
  created-err handle (ok u, after) now e k h = cc
  created-err handle (err (conflict key), after) now e k h = k (conflict key) refl
  created-err handle (err (TxnError.store x), after) now e k h = k (TxnError.store x) refl
  created-err handle (panic, after) now e k h = cc

  commit_create-err :
      (now : st.Store) (r : Result (CatalogError st.StoreError) (TableHandle × st.Txn))
      (e : CatalogError st.StoreError)
      → (commit_create st now r).0 ≡ err e
      → (commit_create st now r).1 ≡ now
  commit_create-err now (ok (handle, txn)) e h =
      created-err handle (st.commit now txn) now e (laws.commit_err now txn) h
  commit_create-err now (err x) e h = refl
  commit_create-err now panic e h = refl

  -- Over a storage engine that obeys `StorageLaws`, a CREATE TABLE of the catalog that answers with
  -- an error, whatever the error, leaves the store as it is.
  pub create_table-err :
      (s now : st.Store) (name : Bytes) (columns : List ColumnDef) (primary_key : ℕ)
      (e : CatalogError st.StoreError)
      → (create_table st s now name columns primary_key).0 ≡ err e
      → (create_table st s now name columns primary_key).1 ≡ now
  unfolding create_table
  create_table-err s now name columns primary_key e h =
      commit_create-err now (prepare_create st s name columns primary_key) e h
