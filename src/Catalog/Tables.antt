-- ===== src/Catalog/Tables.antt =====
-- crates/catalog/src/catalog.rs: creating, finding and listing tables.
pub mod Create
use choam.Base.{
  ℕ, zero, suc, ◌+◌, ◌^◌, Bool, true, false, Option, none, some, List, [], ◌∷◌, ◌++◌, Bytes, Result,
  ok, err, panic, ◌>>=◌, ◌>>◌, map_err, or_panic, length, is_empty, ltb, ◌==◌, if◌then◌else◌,
}
use choam.Base.Endian.{le_bytes, from_le_bytes}
use choam.Row.Schema
use choam.Row.Schema.{ColumnDef, Schema}
use choam.Row.Key.{catalog_counter_key, catalog_index_key, catalog_table_key}
use choam.Storage.{Storage, TxnError, conflict, store}
use choam.Catalog.Error.{
  CatalogError, CatalogCodecError, empty_table_name, table_already_exists, concurrent_create_table,
  codec,
}
use choam.Catalog.Codec.{
  encode_table_entry, decode_table_entry, encode_table_index, decode_table_index,
}

pub record TableHandle : Type 0 where
  pub table_id : ℕ
  pub schema : Schema

-- The next table id: 0 unless the counter holds four bytes.
unfoldable pub read_counter : Option Bytes → ℕ
read_counter none = 0
read_counter (some bs) = if length bs == 4 then from_le_bytes bs else 0

unfoldable pub read_index : Option Bytes → Result CatalogCodecError (List Bytes)
read_index none = ok []
read_index (some bs) = decode_table_index bs

-- `u32 + 1`, which panics on overflow
unfoldable pub next_id : {E : Type 0} → ℕ → Result E ℕ
next_id n = if ltb (n + 1) (2 ^ 32) then ok (n + 1) else panic

abbrev pub unless_taken : {S : Type 0} → Bytes → Option Bytes → Result (CatalogError S) (Unit {0})
unless_taken name none = ok tt
unless_taken name (some _) = err (table_already_exists name)

module _ (st : Storage) where
  -- The transaction of `create_table` up to its commit, begun on the store `s`.
  unfoldable pub prepare_create :
      st.Store
      → Bytes
      → List ColumnDef
      → ℕ
      → Result (CatalogError st.StoreError) (TableHandle × st.Txn)
  unfolding read_counter read_index next_id
  prepare_create s name columns primary_key = if is_empty name then err empty_table_name else do
    schema ← map_err CatalogError.schema (Schema.new name columns primary_key)
    table_key ← or_panic (catalog_table_key name)
    let txn = st.begin s
    unless_taken name (st.txn_get txn table_key)
    let table_id = read_counter (st.txn_get txn catalog_counter_key)
    next ← next_id table_id
    let counted = st.txn_put txn catalog_counter_key (le_bytes 4 next)
    let entered = st.txn_put counted table_key (encode_table_entry table_id schema)
    names ← map_err codec (read_index (st.txn_get entered catalog_index_key))
    ok (
      record { table_id = table_id; schema = schema },
      st.txn_put entered catalog_index_key (encode_table_index (names ++ name ∷ [])),
    )

  abbrev pub created :
      TableHandle
      → Result (TxnError st.StoreError) (Unit {0}) × st.Store
      → Result (CatalogError st.StoreError) TableHandle × st.Store
  created handle (ok _, s) = (ok handle, s)
  created handle (err (conflict _), s) = (err concurrent_create_table, s)
  created handle (err (store e), s) = (err (CatalogError.store e), s)
  created handle (panic, s) = (panic, s)

  abbrev pub commit_create :
      st.Store
      → Result (CatalogError st.StoreError) (TableHandle × st.Txn)
      → Result (CatalogError st.StoreError) TableHandle × st.Store
  commit_create now (ok (handle, txn)) = created handle (st.commit now txn)
  commit_create now (err e) = (err e, now)
  commit_create now panic = (panic, now)

  -- `s` is the store when the call begins its transaction, `now` the store when it commits: other
  -- threads may have committed in between.
  unfoldable pub create_table :
      st.Store
      → st.Store
      → Bytes
      → List ColumnDef
      → ℕ
      → Result (CatalogError st.StoreError) TableHandle × st.Store
  create_table s now name columns primary_key =
      commit_create now (prepare_create s name columns primary_key)

  abbrev pub decode_entry : Option Bytes → Result (CatalogError st.StoreError) (Option TableHandle)
  decode_entry none = ok none
  decode_entry (some bs) = do
    (table_id, schema) ← map_err codec (decode_table_entry bs)
    ok (some (record { table_id = table_id; schema = schema }))

  abbrev pub get_by_key :
      st.Store → Option Bytes → Result (CatalogError st.StoreError) (Option TableHandle)
  get_by_key s none = ok none
  get_by_key s (some key) = decode_entry (st.get s key)

  unfoldable pub get_table :
      st.Store → Bytes → Result (CatalogError st.StoreError) (Option TableHandle)
  get_table s name = get_by_key s (catalog_table_key name)

  abbrev pub push_some : Option TableHandle → List TableHandle → List TableHandle
  push_some none ts = ts
  push_some (some t) ts = t ∷ ts

  unfoldable pub get_tables :
      st.Store → List Bytes → Result (CatalogError st.StoreError) (List TableHandle)
  unfolding get_table
  get_tables s [] = ok []
  get_tables s (name ∷ names) = do
    handle ← get_table s name
    tables ← get_tables s names
    ok (push_some handle tables)

  unfoldable pub list_tables : st.Store → Result (CatalogError st.StoreError) (List TableHandle)
  unfolding read_index get_tables
  list_tables s = do
    names ← map_err codec (read_index (st.get s catalog_index_key))
    get_tables s names
