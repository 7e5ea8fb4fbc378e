-- ===== src/Row/Key.antt =====
-- crates/row/src/key.rs: the keys of catalog entries and of rows in the flat key space.
pub mod Laws
pub mod Separation
use Prim.Native.Nat.{bit_xor}
use choam.Base.{
  ℕ, ◌+◌, ◌^◌, ◌≡◌, Bool, true, false, ◌||◌, not, Option, none, some, List, [], ◌∷◌, ◌++◌, Bytes,
  Result, ok, err, length, take, drop, ltb, ◌==◌, is_empty, if◌then◌else◌, utf8, bytes_eq, ◌&&◌,
}
use choam.Base.Int.{i64_as_u64, u64_as_i64}
use choam.Base.Endian.{be_bytes, from_be_bytes}
use choam.Base.Utf8.{is_utf8}
use choam.Row.Value.{
  Value, ColumnType, ValueError, type_mismatch, truncated, invalid_utf8, bool_byte, kind_name,
}

abbrev pub catalog_namespace : ℕ
catalog_namespace = 0x00

abbrev pub row_namespace : ℕ
row_namespace = 0x01

abbrev catalog_counter_tag : ℕ
catalog_counter_tag = 0x00

abbrev catalog_index_tag : ℕ
catalog_index_tag = 0x01

abbrev catalog_table_tag : ℕ
catalog_table_tag = 0x02

unfoldable pub catalog_counter_key : Bytes
catalog_counter_key = catalog_namespace ∷ catalog_counter_tag ∷ []

unfoldable pub catalog_index_key : Bytes
catalog_index_key = catalog_namespace ∷ catalog_index_tag ∷ []

unfoldable pub catalog_table_key : Bytes → Option Bytes
catalog_table_key [] = none
catalog_table_key (c ∷ name) = some (catalog_namespace ∷ catalog_table_tag ∷ c ∷ name)

unfoldable pub row_key_prefix : ℕ → Bytes
row_key_prefix table_id = row_namespace ∷ be_bytes 4 table_id

-- `(v as u64) ^ (1 << 63)`: negative numbers come before the others.
abbrev pub flip_sign : ℕ → ℕ
flip_sign u = bit_xor u (2 ^ 63)

unfoldable pub encode_key_component : Value → ColumnType → Bytes → Result ValueError Bytes
encode_key_component (Value.integer v) ColumnType.integer out =
    ok (out ++ be_bytes 8 (flip_sign (i64_as_u64 v)))
encode_key_component (Value.text s) ColumnType.text out = ok (out ++ s)
encode_key_component (Value.bytes b) ColumnType.bytes out = ok (out ++ b)
encode_key_component (Value.boolean b) ColumnType.boolean out = ok (out ++ bool_byte b ∷ [])
encode_key_component Value.null expected out = err (type_mismatch expected (utf8 "Null"))
encode_key_component other expected out = err (type_mismatch expected (kind_name other))

unfoldable pub row_key : ℕ → Value → ColumnType → Result ValueError Bytes
unfolding encode_key_component row_key_prefix
row_key table_id pk pk_type = encode_key_component pk pk_type (row_key_prefix table_id)

abbrev has_row_namespace : Bytes → Bool
has_row_namespace [] = false
has_row_namespace (b ∷ _) = b == row_namespace

unfoldable pub split_row_key : Bytes → Option (ℕ × Bytes)
split_row_key key =
    if not (has_row_namespace key) || ltb (length key) 5
    then none
    else some (from_be_bytes (take 4 (drop 1 key)), drop 5 key)

unfoldable pub decode_key_component : Bytes → ColumnType → Result ValueError Value
decode_key_component bs ColumnType.integer =
    if not (length bs == 8)
    then err (truncated ColumnType.integer)
    else ok (Value.integer (u64_as_i64 (flip_sign (from_be_bytes bs))))
decode_key_component (b ∷ []) ColumnType.boolean = ok (Value.boolean (not (b == 0)))
decode_key_component bs ColumnType.boolean = err (truncated ColumnType.boolean)
decode_key_component bs ColumnType.text =
    if is_utf8 bs then ok (Value.text bs) else err invalid_utf8
decode_key_component bs ColumnType.bytes = ok (Value.bytes bs)
