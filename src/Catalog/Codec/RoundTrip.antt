-- ===== src/Catalog/Codec/RoundTrip.antt =====
-- Catalog entries and the index are read back, as long as names and columns fit their counters.
use choam.Base.{
  ℕ, suc, ◌+◌, ◌%◌, ◌^◌, ◌<◌, ◌≡◌, refl, Bool, true, false, not, List, [], ◌∷◌, ◌++◌, Bytes, ok,
  length, take, drop, ◌==◌, arith, append_assoc, append-nil, length-append, take-append,
  drop-append, All, le→ltb,
}
use choam.Base.Endian.{le_bytes, from_le_bytes, length-le_bytes, from_le_bytes-le_bytes}
use choam.Base.Utf8.{is_utf8}
use choam.Row.Value.{ColumnType, bool_byte}
use choam.Row.Schema.{ColumnDef, Schema}
use choam.Row.Schema.Rules.{IsSchema, IsSchema-new}
use choam.Catalog.Codec.{
  type_tag, type_from_tag, write_string, read_string, write_columns, encode_table_entry, read_flags,
  read_columns, decode_table_entry,
}

-- A name that is a text, and short enough for its 16-bit length.
abbrev pub IsName : Bytes → Type 0
IsName s = (is_utf8 s ≡ true) × (length s < 2 ^ 16)

pub type_from_tag-type_tag : (ty : ColumnType) → type_from_tag (type_tag ty) ≡ ok ty
unfolding type_from_tag type_tag
type_from_tag-type_tag ColumnType.integer = refl
type_from_tag-type_tag ColumnType.text = refl
type_from_tag-type_tag ColumnType.bytes = refl
type_from_tag-type_tag ColumnType.boolean = refl

unfoldable pub string_bytes : Bytes → Bytes
string_bytes s = le_bytes 2 (length s % 2 ^ 16) ++ s

pub read-string_bytes :
    (s rest : Bytes) → IsName s → read_string (string_bytes s ++ rest) ≡ ok (s, rest)
unfolding read_string string_bytes
read-string_bytes s rest (u, h) =
    let p = le_bytes 2 (length s % 2 ^ 16) in
    let two : length p ≡ 2 = length-le_bytes 2 (length s % 2 ^ 16) in
    let same : from_le_bytes p ≡ length s =
      omega (arith, from_le_bytes-le_bytes 2 (length s % 2 ^ 16) (omega arith)) in
    let total : length (p ++ (s ++ rest)) ≡ 2 + length s + length rest =
      omega (arith, length-append p (s ++ rest), length-append s rest, two) in
    rw
      (
        append_assoc p s rest,
        take-append 2 p (s ++ rest) two,
        drop-append 2 p (s ++ rest) two,
        same,
        total,
        take-append (length s) s rest refl,
        drop-append (length s) s rest refl,
        u,
      )
      (ground arith)

pub column_bytes : List ColumnDef → Bytes
column_bytes [] = []
column_bytes (c ∷ cs) =
    (string_bytes c.name ++ type_tag c.ty ∷ bool_byte c.nullable ∷ []) ++ column_bytes cs

write_columns-append :
    (out : Bytes) (cs : List ColumnDef) → write_columns out cs ≡ out ++ column_bytes cs
unfolding write_columns write_string string_bytes column_bytes
write_columns-append out [] = rw append-nil
write_columns-append out (c ∷ cs) =
    rw
      (write_columns-append (write_string out c.name ++ type_tag c.ty ∷ bool_byte c.nullable ∷ [])
        cs)
      (simp append_assoc)

abbrev pub NamedColumns : List ColumnDef → Type 0
NamedColumns cs = All (λ c. IsName c.name) cs

flag_byte : (b : Bool) → not (bool_byte b == 0) ≡ b
flag_byte true = refl
flag_byte false = refl

read_columns_step :
    (c : ColumnDef) (n : ℕ) (rest : Bytes) {cs : List ColumnDef}
    → IsName c.name
    → read_columns n rest ≡ ok cs
    → read_columns (suc n) (string_bytes c.name ++ (type_tag c.ty ∷ bool_byte c.nullable ∷ rest))
      ≡ ok (c ∷ cs)
unfolding read_columns read_flags
read_columns_step c n rest h ih = rw (
  read-string_bytes c.name (type_tag c.ty ∷ bool_byte c.nullable ∷ rest) h,
  type_from_tag-type_tag c.ty,
  flag_byte c.nullable,
  ih,
)

read-column_bytes :
    (cs : List ColumnDef) (rest : Bytes)
    → NamedColumns cs
    → read_columns (length cs) (column_bytes cs ++ rest) ≡ ok cs
unfolding column_bytes
read-column_bytes [] rest h = unfold read_columns in refl
read-column_bytes (c ∷ cs) rest h =
    simp append_assoc (
      read_columns_step c (length cs) (column_bytes cs ++ rest) h.0 (read-column_bytes cs rest h.1))

-- A schema whose names and column count fit the 16-bit fields of an entry.
pub record FitsEntry (s : Schema) : Type 0 where
  pub table_name : IsName s.table_name
  pub columns : NamedColumns s.columns
  pub few : length s.columns < 2 ^ 16
  pub key : s.primary_key < 2 ^ 16

pub entry_bytes :
    (id : ℕ) (s : Schema)
    → encode_table_entry id s
      ≡ le_bytes 4 id
        ++ (string_bytes s.table_name
            ++ (le_bytes 2 (length s.columns % 2 ^ 16)
                ++ (le_bytes 2 (s.primary_key % 2 ^ 16) ++ column_bytes s.columns)))
unfolding encode_table_entry string_bytes
entry_bytes id s = rw write_columns-append (simp append_assoc)

module _ (n k : ℕ) (body : Bytes) (hn : n < 2 ^ 16) (hk : k < 2 ^ 16) where
  abbrev counts : Bytes
  counts = le_bytes 2 (n % 2 ^ 16) ++ (le_bytes 2 (k % 2 ^ 16) ++ body)

  count_read : from_le_bytes (take 2 counts) ≡ n
  count_read =
      rw (take-append 2 (le_bytes 2 (n % 2 ^ 16)) _ (length-le_bytes 2 (n % 2 ^ 16)))
        (omega (arith, from_le_bytes-le_bytes 2 (n % 2 ^ 16) (omega arith)))

  key_read : from_le_bytes (take 2 (drop 2 counts)) ≡ k
  key_read =
      rw
        (
          drop-append 2 (le_bytes 2 (n % 2 ^ 16)) (le_bytes 2 (k % 2 ^ 16) ++ body)
              (length-le_bytes 2 (n % 2 ^ 16)),
          take-append 2 (le_bytes 2 (k % 2 ^ 16)) body (length-le_bytes 2 (k % 2 ^ 16)),
        )
        (omega (arith, from_le_bytes-le_bytes 2 (k % 2 ^ 16) (omega arith)))

  length-counts : length counts ≡ 4 + length body
  length-counts = omega (
    arith,
    length-append (le_bytes 2 (n % 2 ^ 16)) (le_bytes 2 (k % 2 ^ 16) ++ body),
    length-append (le_bytes 2 (k % 2 ^ 16)) body,
    length-le_bytes 2 (n % 2 ^ 16),
    length-le_bytes 2 (k % 2 ^ 16),
  )

  counts_regroup : counts ≡ (le_bytes 2 (n % 2 ^ 16) ++ le_bytes 2 (k % 2 ^ 16)) ++ body
  counts_regroup = simp append_assoc

  body_read : drop 4 counts ≡ body
  body_read = rw counts_regroup (
      drop-append 4 (le_bytes 2 (n % 2 ^ 16) ++ le_bytes 2 (k % 2 ^ 16)) body (
        omega (
          arith,
          length-append (le_bytes 2 (n % 2 ^ 16)) (le_bytes 2 (k % 2 ^ 16)),
          length-le_bytes 2 (n % 2 ^ 16),
          length-le_bytes 2 (k % 2 ^ 16),
        )))

-- The catalog entry of a table with a 32-bit id, a schema that obeys the rules, UTF-8 names shorter
-- than 2^16 bytes, fewer than 2^16 columns and a primary-key index below 2^16 decodes to that id
-- and schema.
pub decode-encode_table_entry :
    (id : ℕ) (s : Schema)
    → id < 2 ^ 32
    → IsSchema s
    → FitsEntry s
    → decode_table_entry (encode_table_entry id s) ≡ ok (id, s)
unfolding decode_table_entry
decode-encode_table_entry id s hid hs fits =
    let n = length s.columns in
    let cols = column_bytes s.columns in
    let tail = counts n s.primary_key cols fits.few fits.key in
    let four : length (le_bytes 4 id) ≡ 4 = length-le_bytes 4 id in
    let total = length-append (le_bytes 4 id) (string_bytes s.table_name ++ tail) in
    rw (
      entry_bytes id s,
      take-append 4 (le_bytes 4 id) (string_bytes s.table_name ++ tail) four,
      drop-append 4 (le_bytes 4 id) (string_bytes s.table_name ++ tail) four,
      from_le_bytes-le_bytes 4 id (omega arith),
      total,
      four,
      le→ltb (4 + length (string_bytes s.table_name ++ tail)) 4 (omega arith),
      read-string_bytes s.table_name tail fits.table_name,
      length-counts n s.primary_key cols fits.few fits.key,
      le→ltb (4 + length cols) 4 (omega arith),
      count_read n s.primary_key cols fits.few fits.key,
      key_read n s.primary_key cols fits.few fits.key,
      body_read n s.primary_key cols fits.few fits.key,
      ← append-nil cols,
      read-column_bytes s.columns [] fits.columns,
      IsSchema-new s hs,
    )
