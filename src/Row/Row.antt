-- ===== src/Row/Row.antt =====
-- crates/row/src/row.rs: a row is a null bitmap and then the values that are not null.
pub mod Bitmap
pub mod RoundTrip
use choam.Base.{
  ℕ, zero, suc, ◌+◌, ◌/◌, ◌%◌, Bool, true, false, List, [], ◌∷◌, ◌++◌, Bytes, Result, ok, err,
  ◌>>=◌, map_err, index, length, set, take, drop, replicate, ltb, ◌==◌, not, if◌then◌else◌,
}
use choam.Base.Bits.{bit_is_set, set_bit}
use choam.Row.Value.{Value, ValueError, is_null, encode_value, decode_value}
use choam.Row.Schema.{ColumnDef, Schema}

pub data RowError : Type 0 where
  column_count_mismatch : ℕ → ℕ → RowError
  unexpected_null : Bytes → RowError
  value : ValueError → RowError
  truncated : RowError

-- `ncols.div_ceil(8)`
unfoldable pub bitmap_len : ℕ → ℕ
bitmap_len ncols = (ncols + 7) / 8

-- The loop of `encode_row` from column `i` on; it returns the bitmap and the body.
unfoldable pub encode_columns :
    ℕ → List Value → List ColumnDef → Bytes → Bytes → Result RowError (Bytes × Bytes)
encode_columns i [] cols bitmap body = ok (bitmap, body)
encode_columns i (v ∷ vs) [] bitmap body = ok (bitmap, body)
encode_columns i (v ∷ vs) (col ∷ cols) bitmap body =
    let marked = do
      byte ← index bitmap (i / 8)
      encode_columns (i + 1) vs cols (set bitmap (i / 8) (set_bit byte (i % 8))) body
    in let written = do
      body' ← map_err value (encode_value v col.ty body)
      encode_columns (i + 1) vs cols bitmap body'
      in if is_null v
        then (if not col.nullable then err (unexpected_null col.name) else marked)
        else written

unfoldable pub encode_row : Schema → List Value → Result RowError Bytes
unfolding encode_columns bitmap_len
encode_row s values =
    if not (length values == length s.columns)
    then err (column_count_mismatch (length s.columns) (length values))
    else do
      (bitmap, body) ←
          encode_columns 0 values s.columns (replicate (bitmap_len (length s.columns)) 0) []
      ok (bitmap ++ body)

-- The loop of `decode_row` from column `i` on.
unfoldable pub decode_columns : ℕ → List ColumnDef → Bytes → Bytes → Result RowError (List Value)
decode_columns i [] bitmap rest = ok []
decode_columns i (col ∷ cols) bitmap rest = do
  byte ← index bitmap (i / 8)
  let without_null = do
    (v, remaining) ← map_err value (decode_value rest col.ty)
    values ← decode_columns (i + 1) cols bitmap remaining
    ok (v ∷ values)
  let with_null = do values ← decode_columns (i + 1) cols bitmap rest; ok (Value.null ∷ values)
  if bit_is_set byte (i % 8) then with_null else without_null

unfoldable pub decode_row : Schema → Bytes → Result RowError (List Value)
unfolding decode_columns bitmap_len
decode_row s data' =
    let blen = bitmap_len (length s.columns) in
    if ltb (length data') blen
    then err truncated
    else decode_columns 0 s.columns (take blen data') (drop blen data')
