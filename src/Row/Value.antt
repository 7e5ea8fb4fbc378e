-- ===== src/Row/Value.antt =====
-- crates/row/src/value.rs: column types, values, and the encoding of one value in a row.
pub mod Codec
use choam.Base.{
  ℕ, ◌+◌, ◌%◌, ◌^◌, ◌<◌, ◌≡◌, Bool, true, false, not, Option, none, some, ◌++◌, [], ◌∷◌, Bytes,
  IsByte, Result, ok, err, ◌>>=◌, length, take, drop, All, ltb, ◌==◌, is_empty, if◌then◌else◌, utf8,
}
use choam.Base.Int.{ℤ, IsI64, i64_as_u64, u64_as_i64}
use choam.Base.Endian.{be_bytes, from_be_bytes, le_bytes, from_le_bytes}
use choam.Base.Utf8.{is_utf8}

pub data ColumnType : Type 0 where
  integer text bytes boolean : ColumnType

pub data Value : Type 0 where
  integer : ℤ → Value
  text : Bytes → Value
  bytes : Bytes → Value
  boolean : Bool → Value
  null : Value

unfoldable pub column_type : Value → Option ColumnType
column_type (Value.integer _) = some ColumnType.integer
column_type (Value.text _) = some ColumnType.text
column_type (Value.bytes _) = some ColumnType.bytes
column_type (Value.boolean _) = some ColumnType.boolean
column_type Value.null = none

abbrev pub is_null : Value → Bool
is_null Value.null = true
is_null _ = false

pub data ValueError : Type 0 where
  type_mismatch : ColumnType → Bytes → ValueError
  truncated : ColumnType → ValueError
  invalid_utf8 : ValueError

unfoldable pub kind_name : Value → Bytes
kind_name (Value.integer _) = utf8 "Integer"
kind_name (Value.text _) = utf8 "Text"
kind_name (Value.bytes _) = utf8 "Bytes"
kind_name (Value.boolean _) = utf8 "Boolean"
kind_name Value.null = utf8 "Null"

-- `u8::from(b)`
abbrev pub bool_byte : Bool → ℕ
bool_byte true = 1
bool_byte false = 0

-- `(bytes.len() as u32).to_le_bytes()` and then the bytes
abbrev length_prefixed : Bytes → Bytes
length_prefixed bs = le_bytes 4 (length bs % 2 ^ 32) ++ bs

-- Appends to `out`, and returns it.
unfoldable pub encode_value : Value → ColumnType → Bytes → Result ValueError Bytes
encode_value (Value.integer v) ColumnType.integer out = ok (out ++ be_bytes 8 (i64_as_u64 v))
encode_value (Value.text s) ColumnType.text out = ok (out ++ length_prefixed s)
encode_value (Value.bytes b) ColumnType.bytes out = ok (out ++ length_prefixed b)
encode_value (Value.boolean b) ColumnType.boolean out = ok (out ++ bool_byte b ∷ [])
encode_value other expected out = err (type_mismatch expected (kind_name other))

unfoldable pub decode_length_prefixed : Bytes → ColumnType → Result ValueError (Bytes × Bytes)
decode_length_prefixed data' ty =
    let len = from_le_bytes (take 4 data') in
    if ltb (length data') 4
    then err (truncated ty)
    else if ltb (length data') (4 + len)
    then err (truncated ty)
    else ok (take len (drop 4 data'), drop len (drop 4 data'))

-- Decodes one value from the front, and returns it with the bytes that follow.
unfoldable pub decode_value : Bytes → ColumnType → Result ValueError (Value × Bytes)
unfolding decode_length_prefixed
decode_value data' ColumnType.integer =
    if ltb (length data') 8
    then err (truncated ColumnType.integer)
    else ok (Value.integer (u64_as_i64 (from_be_bytes (take 8 data'))), drop 8 data')
decode_value [] ColumnType.boolean = err (truncated ColumnType.boolean)
decode_value (b ∷ rest) ColumnType.boolean = ok (Value.boolean (not (b == 0)), rest)
decode_value data' ColumnType.text = do
  (bs, rest) ← decode_length_prefixed data' ColumnType.text
  if is_utf8 bs then ok (Value.text bs, rest) else err invalid_utf8
decode_value data' ColumnType.bytes = do
  (bs, rest) ← decode_length_prefixed data' ColumnType.bytes
  ok (Value.bytes bs, rest)

-- What the Rust types `i64`, `String` and `Vec<u8>` guarantee.
abbrev pub IsValid : Value → Type 0
IsValid (Value.integer v) = IsI64 v
IsValid (Value.text s) = is_utf8 s ≡ true
IsValid (Value.bytes b) = All IsByte b
IsValid (Value.boolean b) = Unit
IsValid Value.null = Unit

abbrev pub HasType : Value → ColumnType → Type 0
HasType v ty = column_type v ≡ some ty

-- The length prefix is 32 bits wide.
abbrev pub IsShort : Value → Type 0
IsShort (Value.text s) = length s < 2 ^ 32
IsShort (Value.bytes b) = length b < 2 ^ 32
IsShort _ = Unit
