-- ===== src/Row/Key/Laws.antt =====
-- Row keys are read back, never collide, and stay apart from the catalog's keys.
use choam.Base.{
  ℕ, ◌+◌, ◌-◌, ◌^◌, ◌<◌, ◌≡◌, ◌≢◌, refl, true, false, some, [], ◌∷◌, ◌++◌, Bytes, ok, err, length,
  ltb, arith, length-append, take-append, drop-append, if◌then◌else◌,
}
use choam.Base.Int.{i64_as_u64, i64_as_u64-lt, u64_as_i64-i64_as_u64}
use choam.Base.Bits.{flip_top}
use choam.Base.Endian.{be_bytes, length-be_bytes, from_be_bytes-be_bytes}
use choam.Row.Value.{
  Value, ColumnType, column_type, kind_name, type_mismatch, bool_byte, HasType, IsValid,
}
use choam.Row.Key.{
  encode_key_component, decode_key_component, row_key, row_key_prefix, split_row_key, flip_sign,
}

-- The bytes of a primary key.
unfoldable pub component : Value → Bytes
component (Value.integer v) = be_bytes 8 (flip_sign (i64_as_u64 v))
component (Value.text s) = s
component (Value.bytes b) = b
component (Value.boolean b) = bool_byte b ∷ []
component Value.null = []

pub encode_key_component-ok :
    (v : Value) (ty : ColumnType) (out : Bytes)
    → HasType v ty
    → encode_key_component v ty out ≡ ok (out ++ component v)
unfolding encode_key_component component column_type
encode_key_component-ok v ty out h = ground arith

pub encode_key_component-mismatch :
    (v : Value) (ty : ColumnType) (out : Bytes)
    → column_type v ≢ some ty
    → encode_key_component v ty out ≡ err (type_mismatch ty (kind_name v))
unfolding encode_key_component column_type kind_name
encode_key_component-mismatch v ty out h = ground arith

pub flip_sign_lem :
    (u : ℕ) → u < 2 ^ 64 → flip_sign u ≡ (if ltb u (2 ^ 63) then u + 2 ^ 63 else u - 2 ^ 63)
flip_sign_lem u h = flip_top 63 u h

pub flip_sign-lt : (u : ℕ) → u < 2 ^ 64 → flip_sign u < 2 ^ 64
flip_sign-lt u h = rw (flip_sign_lem u h) (ground arith)

flip_sign-flip_sign : (u : ℕ) → u < 2 ^ 64 → flip_sign (flip_sign u) ≡ u
flip_sign-flip_sign u h =
    rw (flip_sign_lem (flip_sign u) (flip_sign-lt u h), flip_sign_lem u h) (ground arith)

pub decode_key_component-component :
    (v : Value) (ty : ColumnType)
    → HasType v ty
    → IsValid v
    → decode_key_component (component v) ty ≡ ok v
unfolding decode_key_component component
decode_key_component-component (Value.integer v) ColumnType.integer t h =
    let u = i64_as_u64 v in
    rw (
      length-be_bytes 8 (flip_sign u),
      from_be_bytes-be_bytes 8 (flip_sign u) (flip_sign-lt u (i64_as_u64-lt v)),
      flip_sign-flip_sign u (i64_as_u64-lt v),
      u64_as_i64-i64_as_u64 v h,
    )
decode_key_component-component (Value.text s) ColumnType.text t h = rw h
decode_key_component-component (Value.bytes b) ColumnType.bytes t h = refl
decode_key_component-component (Value.boolean true) ColumnType.boolean t h = refl
decode_key_component-component (Value.boolean false) ColumnType.boolean t h = refl
decode_key_component-component v ty t h = unfold column_type in cc

pub row_key-ok :
    (table_id : ℕ) (v : Value) (ty : ColumnType)
    → HasType v ty
    → row_key table_id v ty ≡ ok (row_key_prefix table_id ++ component v)
unfolding row_key
row_key-ok table_id v ty h = encode_key_component-ok v ty (row_key_prefix table_id) h

pub split-row_key_prefix :
    (table_id : ℕ) (bs : Bytes)
    → table_id < 2 ^ 32
    → split_row_key (row_key_prefix table_id ++ bs) ≡ some (table_id, bs)
unfolding split_row_key row_key_prefix
split-row_key_prefix table_id bs h =
    let p = be_bytes 4 table_id in
    let four : length p ≡ 4 = length-be_bytes 4 table_id in
    let total : length (p ++ bs) ≡ 4 + length bs = omega (arith, length-append p bs, four) in
    rw
      (total, take-append 4 p bs four, drop-append 4 p bs four, from_be_bytes-be_bytes 4 table_id h)
      (ground arith)
