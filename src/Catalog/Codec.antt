-- ===== src/Catalog/Codec.antt =====
-- crates/catalog/src/codec.rs: the bytes of a catalog entry and of the table-name index.
pub mod RoundTrip
pub mod Index
pub mod Limits
use choam.Base.{
  ℕ, zero, suc, ◌+◌, ◌%◌, ◌^◌, Bool, true, false, not, List, [], ◌∷◌, ◌++◌, Bytes, Result, ok, err,
  ◌>>=◌, map_err, length, take, drop, ltb, ◌==◌, if◌then◌else◌,
}
use choam.Base.Endian.{le_bytes, from_le_bytes}
use choam.Base.Utf8.{is_utf8}
use choam.Row.Value.{ColumnType, bool_byte}
use choam.Row.Schema
use choam.Row.Schema.{ColumnDef, Schema}
use choam.Catalog.Error.{CatalogCodecError, truncated, invalid_utf8, unknown_type_tag}

unfoldable pub type_tag : ColumnType → ℕ
type_tag ColumnType.integer = 0
type_tag ColumnType.text = 1
type_tag ColumnType.bytes = 2
type_tag ColumnType.boolean = 3

unfoldable pub type_from_tag : ℕ → Result CatalogCodecError ColumnType
type_from_tag tag =
    if tag == 0
    then ok ColumnType.integer
    else if tag == 1
    then ok ColumnType.text
    else if tag == 2
    then ok ColumnType.bytes
    else if tag == 3
    then ok ColumnType.boolean
    else err (unknown_type_tag tag)

-- Appends to `out`, and returns it. The length is cast to 16 bits.
unfoldable pub write_string : Bytes → Bytes → Bytes
write_string out s = out ++ (le_bytes 2 (length s % 2 ^ 16) ++ s)

unfoldable pub read_string : Bytes → Result CatalogCodecError (Bytes × Bytes)
read_string data' =
    let len = from_le_bytes (take 2 data') in
    if ltb (length data') 2
    then err truncated
    else if ltb (length data') (2 + len)
    then err truncated
    else if not (is_utf8 (take len (drop 2 data')))
    then err invalid_utf8
    else ok (take len (drop 2 data'), drop len (drop 2 data'))

-- A column's type tag and its nullable flag.
unfoldable pub read_flags : Bytes → Result CatalogCodecError (ColumnType × Bool)
unfolding type_from_tag
read_flags (tag ∷ nullable ∷ rest) = do ty ← type_from_tag tag; ok (ty, not (nullable == 0))
read_flags _ = err truncated

unfoldable pub write_columns : Bytes → List ColumnDef → Bytes
write_columns out [] = out
write_columns out (col ∷ cols) =
    write_columns (write_string out col.name ++ type_tag col.ty ∷ bool_byte col.nullable ∷ []) cols

unfoldable pub encode_table_entry : ℕ → Schema → Bytes
unfolding write_columns write_string
encode_table_entry table_id schema =
    let named = write_string (le_bytes 4 table_id) schema.table_name in
    let counted = named ++ le_bytes 2 (length schema.columns % 2 ^ 16) in
    write_columns (counted ++ le_bytes 2 (schema.primary_key % 2 ^ 16)) schema.columns

-- The loop over the columns; what follows them is not looked at.
unfoldable pub read_columns : ℕ → Bytes → Result CatalogCodecError (List ColumnDef)
unfolding read_string read_flags
read_columns zero rest = ok []
read_columns (suc n) rest = do
  (name, after_name) ← read_string rest
  (ty, nullable) ← read_flags after_name
  columns ← read_columns n (drop 2 after_name)
  ok (record { name = name; ty = ty; nullable = nullable } ∷ columns)

-- What stands behind the table's name: the counters and the columns.
unfoldable pub read_schema : Bytes → Bytes → Result CatalogCodecError Schema
unfolding read_columns
read_schema table_name rest = if ltb (length rest) 4 then err truncated else do
  columns ← read_columns (from_le_bytes (take 2 rest)) (drop 4 rest)
  map_err CatalogCodecError.schema
      (Schema.new table_name columns (from_le_bytes (take 2 (drop 2 rest))))

unfoldable pub decode_table_entry : Bytes → Result CatalogCodecError (ℕ × Schema)
unfolding read_schema
decode_table_entry data' = if ltb (length data') 4 then err truncated else do
  (table_name, rest) ← read_string (drop 4 data')
  schema ← read_schema table_name rest
  ok (from_le_bytes (take 4 data'), schema)

unfoldable pub write_names : Bytes → List Bytes → Bytes
unfolding write_string
write_names out [] = out
write_names out (name ∷ names) = write_names (write_string out name) names

unfoldable pub encode_table_index : List Bytes → Bytes
unfolding write_names
encode_table_index names = write_names (le_bytes 4 (length names % 2 ^ 32)) names

unfoldable pub read_names : ℕ → Bytes → Result CatalogCodecError (List Bytes)
unfolding read_string
read_names zero rest = ok []
read_names (suc n) rest = do
  (name, after) ← read_string rest
  names ← read_names n after
  ok (name ∷ names)

unfoldable pub decode_table_index : Bytes → Result CatalogCodecError (List Bytes)
unfolding read_names
decode_table_index data' =
    if ltb (length data') 4
    then err truncated
    else read_names (from_le_bytes (take 4 data')) (drop 4 data')
