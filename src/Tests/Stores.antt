-- ===== src/Tests/Stores.antt =====
-- Reads, writes and commits on a store with one table.
use choam.Base.{
  ◌≡◌, refl, none, some, [], ◌∷◌, Bytes, ok, err, get_elem?, if◌then◌else◌, utf8, arith, inr,
  bytes_eq, bytes_eq_refl,
}
use choam.Base.Int.{pos}
use choam.Row.Value.{Value, ColumnType, HasType, column_type}
use choam.Row.Row.RoundTrip.{row_bytes}
use choam.Storage.{conflict}
use choam.Storage.Memory.{
  Table, MemoryTxn, memory, memory_laws, apply_writes, first_conflict, written, store_entry,
}
use choam.Storage.Memory.Sorted.{lookup, lookup-insert}
use choam.Row.Key.{row_key_prefix, catalog_table_key, catalog_index_key}
use choam.Catalog.Codec.{encode_table_entry, encode_table_index}
use choam.Catalog.Codec.Index.{decode-encode_table_index}
use choam.Catalog.Codec.RoundTrip.{decode-encode_table_entry}
use choam.Catalog.Tables
use choam.Catalog.Tables.{list_tables, read_index, get_tables}
use choam.Txn.Error.{DbError}
use choam.Txn.Database.{find_table, begin, read, write, delete, commit}
use choam.Txn.Database.Rows.{
  IsTable, key_bytes, write-key, read-write, read-delete, read-write_other,
}
use choam.Txn.Database.Commit.{commit-read, commit-conflict}
use choam.Tests.Fixtures.{
  users_IsSchema, users-FitsEntry, users, users_handle, ann, one_table, users_IsTable,
  ann-FitsColumns, minus_five, an_integer,
}

abbrev fresh : MemoryTxn
fresh = record { base = one_table; seen = one_table; writes = [] }

read-write_example :
    (pk : Value) × (t' : MemoryTxn) × (get_elem? ann 0 ≡ some pk)
    × (write memory one_table fresh (utf8 "users") ann ≡ ok t')
    × (read memory one_table t' (utf8 "users") pk ≡ ok (some ann))
read-write_example =
    read-write memory memory_laws one_table (utf8 "users") users_handle users_IsTable fresh ann
      ann-FitsColumns

read-delete_example :
    (t' : MemoryTxn) × (delete memory one_table fresh (utf8 "users") minus_five ≡ ok t')
    × (read memory one_table t' (utf8 "users") minus_five ≡ ok none)
read-delete_example =
    read-delete memory memory_laws one_table (utf8 "users") users_handle users_IsTable fresh
      minus_five an_integer

abbrev three_hundred : Value
three_hundred = Value.integer (pos 300)

another : HasType three_hundred ColumnType.integer
unfolding column_type
another = refl

abbrev ann_written : MemoryTxn
ann_written = memory.txn_put fresh (key_bytes users_handle minus_five) (row_bytes users ann)

ann-write : write memory one_table fresh (utf8 "users") ann ≡ ok ann_written
ann-write =
    write-key memory memory_laws one_table (utf8 "users") users_handle users_IsTable fresh ann
      minus_five ann-FitsColumns refl an_integer

read-write_other_example :
    read memory one_table ann_written (utf8 "users") three_hundred
    ≡ read memory one_table fresh (utf8 "users") three_hundred
read-write_other_example =
    read-write_other memory memory_laws one_table (utf8 "users") (utf8 "users") users_handle
      users_handle users_IsTable users_IsTable fresh ann_written ann minus_five three_hundred
      ann-FitsColumns refl (another, omega arith) (inr (refl, λ e. cc e)) ann-write

abbrev later : Table
later = apply_writes ann_written.seen one_table ann_written.writes

unchanged : first_conflict one_table one_table ann_written.writes ≡ none
unfolding first_conflict lookup bytes_eq key_bytes row_key_prefix
unchanged = refl

commit_lands : commit memory one_table ann_written ≡ (ok tt, later)
unfolding commit
commit_lands = rw unchanged

entry_kept : memory.get later (0 ∷ 2 ∷ utf8 "users") ≡ some (encode_table_entry 7 users)
unfolding lookup bytes_eq utf8 key_bytes row_key_prefix written memory_laws
entry_kept =
    let law = memory_laws.commit_ok one_table ann_written (0 ∷ 2 ∷ utf8 "users") (rw unchanged) in
    rw unchanged at law

later_found : Tables.get_table memory later (utf8 "users") ≡ ok (some users_handle)
unfolding Tables.get_table catalog_table_key utf8
later_found =
    rw (entry_kept, decode-encode_table_entry 7 users (omega arith) users_IsSchema users-FitsEntry)

abbrev later_IsTable : IsTable memory later (utf8 "users") users_handle
later_IsTable = record { found = later_found; schema = users_IsSchema; id = omega arith }

commit-read_example : read memory later (begin memory later) (utf8 "users") minus_five ≡ (
    if memory_laws.wrote ann_written (key_bytes users_handle minus_five)
    then read memory later ann_written (utf8 "users") minus_five
    else read memory later (begin memory one_table) (utf8 "users") minus_five)
commit-read_example =
    commit-read memory memory_laws one_table later ann_written (utf8 "users") users_handle
      minus_five later_IsTable commit_lands an_integer

-- The store after another session has written the row that `ann_written` writes.
abbrev overtaken : Table
overtaken = store_entry one_table (key_bytes users_handle minus_five) []

overtaken_get :
    (j : Bytes)
    → memory.get overtaken j
      ≡ (if bytes_eq (key_bytes users_handle minus_five) j then some [] else memory.get one_table j)
overtaken_get j = lookup-insert (key_bytes users_handle minus_five) [] j one_table.entries

overtaken_found : Tables.get_table memory overtaken (utf8 "users") ≡ ok (some users_handle)
unfolding Tables.get_table catalog_table_key lookup bytes_eq utf8 key_bytes row_key_prefix
overtaken_found = rw (
  overtaken_get (0 ∷ 2 ∷ utf8 "users"),
  decode-encode_table_entry 7 users (omega arith) users_IsSchema users-FitsEntry,
)

abbrev overtaken_IsTable : IsTable memory overtaken (utf8 "users") users_handle
overtaken_IsTable = record { found = overtaken_found; schema = users_IsSchema; id = omega arith }

overtaken_index : memory.get overtaken (0 ∷ 1 ∷ []) ≡ some (encode_table_index (utf8 "users" ∷ []))
unfolding lookup bytes_eq key_bytes row_key_prefix
overtaken_index = rw (overtaken_get (0 ∷ 1 ∷ []))

overtaken_tables : list_tables memory overtaken ≡ ok (users_handle ∷ [])
unfolding list_tables read_index get_tables catalog_index_key
overtaken_tables = rw (
  overtaken_index,
  decode-encode_table_index (utf8 "users" ∷ []) (users-FitsEntry.table_name, tt) (omega arith),
  overtaken_found,
)

overtaken_conflict :
    (memory.commit overtaken ann_written).0 ≡ err (conflict (key_bytes users_handle minus_five))
unfolding first_conflict lookup bytes_eq key_bytes row_key_prefix
overtaken_conflict = rw (
  overtaken_get (key_bytes users_handle minus_five),
  bytes_eq_refl (key_bytes users_handle minus_five),
)

found_by_id : find_table 7 (users_handle ∷ []) ≡ some users_handle
unfolding find_table
found_by_id = refl

commit-conflict_example :
    commit memory overtaken ann_written
    ≡ (err (DbError.conflict (utf8 "users") minus_five), overtaken)
commit-conflict_example =
    commit-conflict memory memory_laws overtaken ann_written (utf8 "users") users_handle minus_five
      (users_handle ∷ []) overtaken_IsTable (an_integer, omega arith) overtaken_tables found_by_id
      overtaken_conflict

overtaken_commit :
    commit memory overtaken ann_written
    ≡ (err (DbError.conflict (utf8 "users") minus_five), overtaken)
overtaken_commit =
    commit-conflict memory memory_laws overtaken ann_written (utf8 "users") users_handle minus_five
      (users_handle ∷ []) overtaken_IsTable (an_integer, omega arith) overtaken_tables found_by_id
      overtaken_conflict
