-- ===== src/Txn/Database.antt =====
-- crates/txn/src/lib.rs: rows by table name and primary key, over one storage transaction. The
-- catalog is read from the shared store `now`, rows from the transaction.
pub mod Rows
pub mod Commit
use choam.Base.{
  ℕ, Bool, true, false, Option, none, some, List, [], ◌∷◌, Bytes, Result, ok, err, panic, ◌>>=◌,
  map_err, ok_or, get_elem?, length, ◌==◌, if◌then◌else◌,
}
use choam.Row.Value.{Value, ValueError}
use choam.Row.Schema.{ColumnDef, Schema, primary_key_type}
use choam.Row.Row.{RowError, column_count_mismatch, encode_row, decode_row}
use choam.Row.Key.{row_key, row_key_prefix, split_row_key, decode_key_component}
use choam.Storage.{Storage, TxnError, conflict, store}
use choam.Catalog.Error.{CatalogError}
use choam.Catalog.Tables
use choam.Catalog.Tables.{TableHandle}
use choam.Txn.Error.{DbError, unknown_table, unrecognized_conflict}

-- `tables.into_iter().find(|h| h.table_id == table_id)`
unfoldable pub find_table : ℕ → List TableHandle → Option TableHandle
find_table id [] = none
find_table id (t ∷ ts) = let later = find_table id ts in if t.table_id == id then some t else later

module _ (st : Storage) where
  unfoldable pub create_table :
      st.Store
      → st.Store
      → Bytes
      → List ColumnDef
      → ℕ
      → Result (DbError st.StoreError) TableHandle × st.Store
  create_table s now name columns primary_key =
      let (r, after) = Tables.create_table st s now name columns primary_key in
      (map_err DbError.catalog r, after)

  unfoldable pub get_table : st.Store → Bytes → Result (DbError st.StoreError) (Option TableHandle)
  get_table now name = map_err DbError.catalog (Tables.get_table st now name)

  unfoldable pub list_tables : st.Store → Result (DbError st.StoreError) (List TableHandle)
  list_tables now = map_err DbError.catalog (Tables.list_tables st now)

  -- `Database::begin`
  unfoldable pub begin : st.Store → st.Txn
  begin now = st.begin now

  unfoldable pub table_handle : st.Store → Bytes → Result (DbError st.StoreError) TableHandle
  table_handle now name = do
    found ← map_err DbError.catalog (Tables.get_table st now name)
    ok_or (unknown_table name) found

  -- The key of a row of a known table.
  unfoldable pub handle_key : TableHandle → Value → Result (DbError st.StoreError) Bytes
  handle_key handle pk = do
    ty ← primary_key_type handle.schema
    map_err DbError.value (row_key handle.table_id pk ty)

  abbrev pub decode_found :
      Schema → Option Bytes → Result (DbError st.StoreError) (Option (List Value))
  decode_found schema none = ok none
  decode_found schema (some bs) = do row ← map_err DbError.row (decode_row schema bs); ok (some row)

  unfoldable pub read :
      st.Store → st.Txn → Bytes → Value → Result (DbError st.StoreError) (Option (List Value))
  unfolding handle_key table_handle
  read now t table pk = do
    handle ← table_handle now table
    key ← handle_key handle pk
    decode_found handle.schema (st.txn_get t key)

  unfoldable pub decode_rows :
      Schema → List (Bytes × Bytes) → Result (DbError st.StoreError) (List (List Value))
  decode_rows schema [] = ok []
  decode_rows schema ((k, bs) ∷ entries) = do
    row ← map_err DbError.row (decode_row schema bs)
    rows ← decode_rows schema entries
    ok (row ∷ rows)

  unfoldable pub scan :
      st.Store → st.Txn → Bytes → Result (DbError st.StoreError) (List (List Value))
  unfolding decode_rows table_handle
  scan now t table = do
    handle ← table_handle now table
    decode_rows handle.schema (st.txn_scan t (row_key_prefix handle.table_id))

  unfoldable pub write :
      st.Store → st.Txn → Bytes → List Value → Result (DbError st.StoreError) st.Txn
  unfolding handle_key table_handle
  write now t table values = do
    handle ← table_handle now table
    pk ←
        ok_or (DbError.row (column_count_mismatch (length handle.schema.columns) (length values)))
          (get_elem? values handle.schema.primary_key)
    key ← handle_key handle pk
    encoded ← map_err DbError.row (encode_row handle.schema values)
    ok (st.txn_put t key encoded)

  unfoldable pub delete : st.Store → st.Txn → Bytes → Value → Result (DbError st.StoreError) st.Txn
  unfolding handle_key table_handle
  delete now t table pk = do
    handle ← table_handle now table
    key ← handle_key handle pk
    ok (st.txn_delete t key)

  -- A key that cannot be traced to a row is reported as it is.
  abbrev pub named_pk :
      Bytes
      → Bytes
      → Result ValueError Value
      → Result (DbError st.StoreError) (DbError st.StoreError)
  named_pk key table (ok pk) = ok (DbError.conflict table pk)
  named_pk key table (err _) = ok (unrecognized_conflict key)
  named_pk key table panic = panic

  abbrev pub named_conflict :
      Bytes → TableHandle → Bytes → Result (DbError st.StoreError) (DbError st.StoreError)
  named_conflict key handle pk_bytes = do
    ty ← primary_key_type handle.schema
    named_pk key handle.schema.table_name (decode_key_component pk_bytes ty)

  abbrev pub conflict_in :
      Bytes → Bytes → Option TableHandle → Result (DbError st.StoreError) (DbError st.StoreError)
  conflict_in key pk_bytes none = ok (unrecognized_conflict key)
  conflict_in key pk_bytes (some handle) = named_conflict key handle pk_bytes

  abbrev pub conflict_at :
      Bytes
      → Option (ℕ × Bytes)
      → Result (CatalogError st.StoreError) (List TableHandle)
      → Result (DbError st.StoreError) (DbError st.StoreError)
  conflict_at key none tables = ok (unrecognized_conflict key)
  conflict_at key (some (table_id, pk_bytes)) (err e) = ok (unrecognized_conflict key)
  conflict_at key (some (table_id, pk_bytes)) panic = panic
  conflict_at key (some (table_id, pk_bytes)) (ok tables) =
      conflict_in key pk_bytes (find_table table_id tables)

  unfoldable pub conflict_error :
      st.Store → Bytes → Result (DbError st.StoreError) (DbError st.StoreError)
  conflict_error now key = conflict_at key (split_row_key key) (Tables.list_tables st now)

  abbrev pub raise :
      Result (DbError st.StoreError) (DbError st.StoreError)
      → Result (DbError st.StoreError) (Unit {0})
  raise r = r >>= λ e. err e

  abbrev pub committed :
      Result (TxnError st.StoreError) (Unit {0}) × st.Store
      → Result (DbError st.StoreError) (Unit {0}) × st.Store
  committed (ok _, after) = (ok tt, after)
  committed (err (conflict key), after) = (raise (conflict_error after key), after)
  committed (err (store e), after) = (err (DbError.store e), after)
  committed (panic, after) = (panic, after)

  unfoldable pub commit : st.Store → st.Txn → Result (DbError st.StoreError) (Unit {0}) × st.Store
  commit now t = committed (st.commit now t)
