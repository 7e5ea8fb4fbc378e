-- ===== src/Row/Value/Codec.antt =====
-- The value codec of crates/row/src/value.rs: what is encoded, and that it is read back.
use choam.Base.{
  ℕ, ◌+◌, ◌%◌, ◌^◌, ◌<◌, ◌≡◌, ◌≢◌, refl, Bool, true, false, some, ◌++◌, [], ◌∷◌, Bytes, ok, err,
  length, take, drop, arith, append_assoc, length-append, take-append, drop-append,
}
use choam.Base.Int.{i64_as_u64, u64_as_i64, i64_as_u64-lt, u64_as_i64-i64_as_u64}
use choam.Base.Endian.{
  be_bytes, le_bytes, from_le_bytes, length-be_bytes, length-le_bytes, from_be_bytes-be_bytes,
  from_le_bytes-le_bytes,
}
use choam.Row.Value.{
  Value, ColumnType, encode_value, decode_value, decode_length_prefixed, length_prefixed, bool_byte,
  column_type, kind_name, type_mismatch, IsValid, HasType, IsShort,
}

-- The bytes that a value takes in a row.
unfoldable pub encoding : Value → Bytes
encoding (Value.integer v) = be_bytes 8 (i64_as_u64 v)
encoding (Value.text s) = length_prefixed s
encoding (Value.bytes b) = length_prefixed b
encoding (Value.boolean b) = bool_byte b ∷ []
encoding Value.null = []

pub encode_value-ok :
    (v : Value) (ty : ColumnType) (out : Bytes)
    → HasType v ty
    → encode_value v ty out ≡ ok (out ++ encoding v)
unfolding encode_value encoding column_type
encode_value-ok v ty out h = ground arith

pub encode_value-mismatch :
    (v : Value) (ty : ColumnType) (out : Bytes)
    → column_type v ≢ some ty
    → encode_value v ty out ≡ err (type_mismatch ty (kind_name v))
unfolding encode_value column_type
encode_value-mismatch v ty out h = ground arith

pub take_prefixed : (n : ℕ) (p bs rest : Bytes) → length p ≡ n → take n ((p ++ bs) ++ rest) ≡ p
take_prefixed n p bs rest h = rw append_assoc (take-append n p (bs ++ rest) h)

pub drop_prefixed :
    (n : ℕ) (p bs rest : Bytes) → length p ≡ n → drop n ((p ++ bs) ++ rest) ≡ bs ++ rest
drop_prefixed n p bs rest h = rw append_assoc (drop-append n p (bs ++ rest) h)

pub length_three :
    (p bs rest : Bytes) → length ((p ++ bs) ++ rest) ≡ length p + length bs + length rest
length_three p bs rest = omega (arith, length-append (p ++ bs) rest, length-append p bs)

decode-length_prefixed :
    (bs rest : Bytes) (ty : ColumnType)
    → length bs < 2 ^ 32
    → decode_length_prefixed (length_prefixed bs ++ rest) ty ≡ ok (bs, rest)
unfolding decode_length_prefixed
decode-length_prefixed bs rest ty h =
    let p = le_bytes 4 (length bs % 2 ^ 32) in
    let four : length p ≡ 4 = length-le_bytes 4 (length bs % 2 ^ 32) in
    let same : from_le_bytes p ≡ length bs =
      omega (arith, from_le_bytes-le_bytes 4 (length bs % 2 ^ 32) (omega arith)) in
    let total : length ((p ++ bs) ++ rest) ≡ 4 + length bs + length rest =
      omega (arith, length_three p bs rest) in
    rw
      (
        take_prefixed 4 p bs rest four,
        drop_prefixed 4 p bs rest four,
        same,
        total,
        take-append (length bs) bs rest refl,
        drop-append (length bs) bs rest refl,
      )
      (ground arith)

decode_bool_byte :
    (b : Bool) (rest : Bytes)
    → decode_value (bool_byte b ∷ rest) ColumnType.boolean ≡ ok (Value.boolean b, rest)
unfolding decode_value
decode_bool_byte true rest = refl
decode_bool_byte false rest = refl

decode_be_bytes :
    (u : ℕ) (rest : Bytes)
    → u < 2 ^ 64
    → decode_value (be_bytes 8 u ++ rest) ColumnType.integer
      ≡ ok (Value.integer (u64_as_i64 u), rest)
unfolding decode_value
decode_be_bytes u rest h =
    let eight : length (be_bytes 8 u) ≡ 8 = length-be_bytes 8 u in
    rw
      (
        take-append 8 (be_bytes 8 u) rest eight,
        drop-append 8 (be_bytes 8 u) rest eight,
        from_be_bytes-be_bytes 8 u h,
        length-append (be_bytes 8 u) rest,
        eight,
      )
      (ground arith)

-- A value of its column's type is read back from the front of what follows it.
pub decode_value-encoding :
    (v : Value) (ty : ColumnType) (rest : Bytes)
    → HasType v ty
    → IsValid v
    → IsShort v
    → decode_value (encoding v ++ rest) ty ≡ ok (v, rest)
unfolding encoding
decode_value-encoding (Value.integer v) ColumnType.integer rest t h s =
    rw (decode_be_bytes (i64_as_u64 v) rest (i64_as_u64-lt v), u64_as_i64-i64_as_u64 v h)
decode_value-encoding (Value.text b) ColumnType.text rest t h s =
    unfold decode_value in rw (decode-length_prefixed b rest ColumnType.text s, h)
decode_value-encoding (Value.bytes b) ColumnType.bytes rest t h s =
    unfold decode_value in rw (decode-length_prefixed b rest ColumnType.bytes s)
decode_value-encoding (Value.boolean b) ColumnType.boolean rest t h s = decode_bool_byte b rest
decode_value-encoding v ty rest t h s = unfold column_type in cc
