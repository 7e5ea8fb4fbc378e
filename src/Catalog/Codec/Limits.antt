-- ===== src/Catalog/Codec/Limits.antt =====
-- What the 16-bit length field does to a name that is too long for it.
use choam.Base.{
  ℕ, ◌%◌, ◌^◌, ◌≤◌, ◌≡◌, ◌≢◌, ◌++◌, Bytes, ok, >>=-eq-ok, map_err-eq-ok, length, take, drop, ltb,
  arith, length-take, length-drop, drop-append, take-append, append_assoc, Bool-cases, inl, inr,
}
use choam.Base.Endian.{le_bytes, from_le_bytes, length-le_bytes, from_le_bytes-le_bytes}
use choam.Row.Schema
use choam.Row.Schema.{ColumnDef, Schema}
use choam.Row.Schema.Rules.{new-IsSchema}
use choam.Catalog.Error.{CatalogCodecError}
use choam.Catalog.Codec.{
  encode_table_entry, decode_table_entry, read_string, read_columns, read_schema,
}
use choam.Catalog.Codec.RoundTrip.{string_bytes, entry_bytes, column_bytes}

-- A string that is read has the length that its first two bytes say.
length-read_string :
    (data' : Bytes) {s rest : Bytes}
    → read_string data' ≡ ok (s, rest)
    → length s ≡ from_le_bytes (take 2 data')
unfolding read_string
length-read_string data' h =
    ground (arith, length-take (from_le_bytes (take 2 data')) (drop 2 data'), length-drop 2 data')

read_schema-name :
    (name rest : Bytes) {s : Schema} → read_schema name rest ≡ ok s → s.table_name ≡ name
unfolding read_schema
read_schema-name name rest h = elim (Bool-cases (ltb (length rest) 4)) [
  | inl short ↦ absurd (ground (arith, short))
  | inr long ↦
      let (columns, p, q) =
        >>=-eq-ok (read_columns (from_le_bytes (take 2 rest)) (drop 4 rest)) _ (rw long at h) in
      let key = from_le_bytes (take 2 (drop 2 rest)) in
      let made = map_err-eq-ok CatalogCodecError.schema (Schema.new name columns key) q in
      (new-IsSchema name columns key made).1
]

-- The table name of a decoded entry is the string behind the id.
decoded_name :
    (data' : Bytes) (id : ℕ) (s : Schema)
    → decode_table_entry data' ≡ ok (id, s)
    → (rest : Bytes) × (read_string (drop 4 data') ≡ ok (s.table_name, rest))
unfolding decode_table_entry
decoded_name data' id s h = elim (Bool-cases (ltb (length data') 4)) [
  | inl short ↦ absurd (ground (arith, short))
  | inr long ↦
      let (p, q, r) = >>=-eq-ok (read_string (drop 4 data')) _ (rw long at h) in
      let (s', read, same) = >>=-eq-ok (read_schema p.0 p.1) _ r in
      (p.1, cc (q, same, read_schema-name p.0 p.1 read))
]

name_length : (s rest : Bytes) → from_le_bytes (take 2 (string_bytes s ++ rest)) ≡ length s % 2 ^ 16
unfolding string_bytes
name_length s rest =
    let n = length s % 2 ^ 16 in
    rw
      (
        append_assoc (le_bytes 2 n) s rest,
        take-append 2 (le_bytes 2 n) (s ++ rest) (length-le_bytes 2 n),
      )
      (from_le_bytes-le_bytes 2 n (omega arith))

-- The catalog entry of a table whose name has 2^16 bytes or more does not decode to that table,
-- whatever its id and schema.
pub long_name_lost :
    (id : ℕ) (s : Schema)
    → 2 ^ 16 ≤ length s.table_name
    → decode_table_entry (encode_table_entry id s) ≢ ok (id, s)
long_name_lost id s long h =
    let (rest, r) = decoded_name (encode_table_entry id s) id s h in
    let len = length-read_string (drop 4 (encode_table_entry id s)) r in
    let tail =
      le_bytes 2 (length s.columns % 2 ^ 16)
      ++ (le_bytes 2 (s.primary_key % 2 ^ 16) ++ column_bytes s.columns) in
    let behind : drop 4 (encode_table_entry id s) ≡ string_bytes s.table_name ++ tail = rw (
      entry_bytes id s,
      drop-append 4 (le_bytes 4 id) (string_bytes s.table_name ++ tail) (length-le_bytes 4 id),
    ) in
    let short : length s.table_name ≡ length s.table_name % 2 ^ 16 =
      rw (behind, name_length s.table_name tail) at len in
    omega arith
