-- ===== src/Row/Row/RoundTrip.antt =====
-- `decode_row` reads back the row that `encode_row` wrote.
use choam.Base.{
  ℕ, ◌+◌, ◌*◌, ◌/◌, ◌%◌, ◌≤◌, ◌<◌, ◌≡◌, refl, true, false, List, [], ◌∷◌, ◌++◌, Bytes, ok, ◌>>=◌,
  length, get_or, replicate, arith, append_assoc, append-nil, take-append, drop-append,
  length-append, length-set, length-replicate, le→ltb, ==_refl,
}
use choam.Base.Bits.{set_bit}
use choam.Row.Value.{Value, is_null, IsValid, HasType, IsShort}
use choam.Row.Value.Codec.{encoding, encode_value-ok, decode_value-encoding}
use choam.Row.Schema.{ColumnDef, Schema}
use choam.Row.Row.{encode_columns, encode_row, decode_columns, decode_row, bitmap_len}
use choam.Row.Row.Bitmap.{
  bit_at, mark, marks, NullBits, get_elem?-get_or, marks_from_zero, length-marks,
}

-- A value that its column may hold, and that the 32-bit length prefix can describe.
abbrev pub FitsColumn : ColumnDef → Value → Type 0
FitsColumn c Value.null = c.nullable ≡ true
FitsColumn c v = HasType v c.ty × IsValid v × IsShort v

-- A row that fits the columns one by one.
abbrev pub FitsColumns : List ColumnDef → List Value → Type 0
FitsColumns [] [] = Unit
FitsColumns [] (v ∷ vs) = ⊥
FitsColumns (c ∷ cs) [] = ⊥
FitsColumns (c ∷ cs) (v ∷ vs) = FitsColumn c v × FitsColumns cs vs

pub length-FitsColumns :
    (cs : List ColumnDef) (vs : List Value) → FitsColumns cs vs → length vs ≡ length cs
length-FitsColumns [] [] h = refl
length-FitsColumns [] (v ∷ vs) h = absurd h
length-FitsColumns (c ∷ cs) [] h = absurd h
length-FitsColumns (c ∷ cs) (v ∷ vs) h = omega (arith, length-FitsColumns cs vs h.1)

-- The bytes of the values that are not null.
unfoldable pub body_of : List Value → Bytes
unfolding encoding
body_of [] = []
body_of (v ∷ vs) = encoding v ++ body_of vs

encode_columns_null :
    (i : ℕ) (c : ColumnDef) (cs : List ColumnDef) (vs : List Value) (bitmap body : Bytes)
    → c.nullable ≡ true
    → i / 8 < length bitmap
    → encode_columns i (Value.null ∷ vs) (c ∷ cs) bitmap body
      ≡ encode_columns (i + 1) vs cs (mark bitmap i) body
unfolding encode_columns
encode_columns_null i c cs vs bitmap body h hl = rw (h, get_elem?-get_or bitmap (i / 8) 0 hl)

encode_columns_value :
    (i : ℕ) (v : Value) (c : ColumnDef) (cs : List ColumnDef) (vs : List Value)
    (bitmap body : Bytes)
    → HasType v c.ty
    → is_null v ≡ false
    → encode_columns i (v ∷ vs) (c ∷ cs) bitmap body
      ≡ encode_columns (i + 1) vs cs bitmap (body ++ encoding v)
unfolding encode_columns
encode_columns_value i v c cs vs bitmap body h n = rw (n, encode_value-ok v c.ty body h)

encode_columns-ok :
    (i : ℕ) (cs : List ColumnDef) (vs : List Value) (bitmap body : Bytes)
    → FitsColumns cs vs
    → i + length vs ≤ 8 * length bitmap
    → encode_columns i vs cs bitmap body ≡ ok (marks i vs bitmap, body ++ body_of vs)
encode_columns-ok i [] [] bitmap body h hl = unfold encode_columns marks body_of in rw append-nil
encode_columns-ok i [] (v ∷ vs) bitmap body h hl = absurd h
encode_columns-ok i (c ∷ cs) [] bitmap body h hl = absurd h
encode_columns-ok i (c ∷ cs) (Value.null ∷ vs) bitmap body h hl =
    rw
      (
        encode_columns_null i c cs vs bitmap body h.0 (omega arith),
        encode_columns-ok (i + 1) cs vs (mark bitmap i) body h.1
            (omega (arith, length-set bitmap (i / 8) (set_bit (get_or bitmap (i / 8) 0) (i % 8)))),
      )
      (unfold marks body_of in refl)
encode_columns-ok i (c ∷ cs) (v ∷ vs) bitmap body h hl =
    rw
      (
        encode_columns_value i v c cs vs bitmap body h.0.0 refl,
        encode_columns-ok (i + 1) cs vs bitmap (body ++ encoding v) h.1 (omega arith),
      )
      (unfold marks body_of in rw append_assoc)

decode_columns_null :
    (i : ℕ) (c : ColumnDef) (cs : List ColumnDef) (bitmap rest : Bytes) {vs : List Value}
    → i / 8 < length bitmap
    → bit_at bitmap i ≡ true
    → decode_columns (i + 1) cs bitmap rest ≡ ok vs
    → decode_columns i (c ∷ cs) bitmap rest ≡ ok (Value.null ∷ vs)
unfolding decode_columns
decode_columns_null i c cs bitmap rest hl hb ih = rw (get_elem?-get_or bitmap (i / 8) 0 hl, hb, ih)

decode_columns_value :
    (i : ℕ) (v : Value) (c : ColumnDef) (cs : List ColumnDef) (bitmap rest : Bytes)
    {vs : List Value}
    → i / 8 < length bitmap
    → bit_at bitmap i ≡ false
    → HasType v c.ty
    → IsValid v
    → IsShort v
    → decode_columns (i + 1) cs bitmap rest ≡ ok vs
    → decode_columns i (c ∷ cs) bitmap (encoding v ++ rest) ≡ ok (v ∷ vs)
unfolding decode_columns
decode_columns_value i v c cs bitmap rest hl hb t val sh ih =
    rw (get_elem?-get_or bitmap (i / 8) 0 hl, hb, decode_value-encoding v c.ty rest t val sh, ih)

decode_columns-ok :
    (i : ℕ) (cs : List ColumnDef) (vs : List Value) (bitmap rest : Bytes)
    → FitsColumns cs vs
    → i + length vs ≤ 8 * length bitmap
    → NullBits i vs bitmap
    → decode_columns i cs bitmap (body_of vs ++ rest) ≡ ok vs
unfolding body_of
decode_columns-ok i [] [] bitmap rest h hl nb = unfold decode_columns in refl
decode_columns-ok i [] (v ∷ vs) bitmap rest h hl nb = absurd h
decode_columns-ok i (c ∷ cs) [] bitmap rest h hl nb = absurd h
decode_columns-ok i (c ∷ cs) (Value.null ∷ vs) bitmap rest h hl nb =
    decode_columns_null i c cs bitmap (body_of vs ++ rest) (omega arith) nb.0
      (decode_columns-ok (i + 1) cs vs bitmap rest h.1 (omega arith) nb.1)
decode_columns-ok i (c ∷ cs) (v ∷ vs) bitmap rest h hl nb =
    rw (append_assoc (encoding v) (body_of vs) rest) (
      decode_columns_value i v c cs bitmap (body_of vs ++ rest) (omega arith) nb.0 h.0.0 h.0.1 h.0.2
        (decode_columns-ok (i + 1) cs vs bitmap rest h.1 (omega arith) nb.1))

-- The bytes of a row.
unfoldable pub row_bytes : Schema → List Value → Bytes
row_bytes s vs = marks 0 vs (replicate (bitmap_len (length s.columns)) 0) ++ body_of vs

bitmap_room : (n : ℕ) → n ≤ 8 * bitmap_len n
unfolding bitmap_len
bitmap_room n = omega arith

pub encode_row-ok :
    (s : Schema) (vs : List Value)
    → FitsColumns s.columns vs
    → encode_row s vs ≡ ok (row_bytes s vs)
unfolding encode_row row_bytes
encode_row-ok s vs h =
    let len = length-FitsColumns s.columns vs h in
    let zeroes = length-replicate {A = ℕ} (bitmap_len (length s.columns)) 0 in
    rw (
      len,
      ==_refl (length s.columns),
      encode_columns-ok 0 s.columns vs (replicate (bitmap_len (length s.columns)) 0) [] h
          (omega (arith, len, zeroes, bitmap_room (length s.columns))),
    )

pub decode_row-row_bytes :
    (s : Schema) (vs : List Value)
    → FitsColumns s.columns vs
    → decode_row s (row_bytes s vs) ≡ ok vs
unfolding decode_row row_bytes
decode_row-row_bytes s vs h =
    let n = bitmap_len (length s.columns) in
    let bitmap = marks 0 vs (replicate n 0) in
    let len = length-FitsColumns s.columns vs h in
    let size : length bitmap ≡ n =
      omega (arith, length-marks 0 vs (replicate n 0), length-replicate {A = ℕ} n 0) in
    let total : length (bitmap ++ body_of vs) ≡ n + length (body_of vs) =
      omega (arith, length-append bitmap (body_of vs), size) in
    rw
      (
        total,
        le→ltb (n + length (body_of vs)) n (omega arith),
        take-append n bitmap (body_of vs) size,
        drop-append n bitmap (body_of vs) size,
        ← append-nil (body_of vs),
      )
      (decode_columns-ok 0 s.columns vs bitmap [] h
        (omega (arith, len, size, bitmap_room (length s.columns)))
        (marks_from_zero n vs (omega (arith, len, bitmap_room (length s.columns)))))

-- A row that fits its schema column by column (NULL only in a nullable column, else a valid value
-- of the column's type, text and bytes shorter than 2^32) is encoded, and `decode_row` reads the
-- very same row back.
pub decode_row-encode_row :
    (s : Schema) (vs : List Value)
    → FitsColumns s.columns vs
    → (encode_row s vs >>= decode_row s) ≡ ok vs
decode_row-encode_row s vs h = rw (encode_row-ok s vs h) (decode_row-row_bytes s vs h)
