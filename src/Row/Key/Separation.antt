-- ===== src/Row/Key/Separation.antt =====
-- Keys of different rows, tables and catalog entries are different keys.
use choam.Base.{
  ℕ, ◌^◌, ◌<◌, ◌≡◌, ◌≢◌, some, ◌++◌, Bytes, ok, length, arith, ◌==◌, starts_with,
  starts_with-append, starts_with-eq, Bool-cases, inl, inr, ==_iff,
}
use choam.Base.Endian.{length-be_bytes, from_be_bytes-be_bytes}
use choam.Row.Value.{Value, ColumnType, column_type, HasType, IsValid}
use choam.Row.Key.{
  decode_key_component, row_key, row_key_prefix, split_row_key, catalog_counter_key,
  catalog_index_key, catalog_table_key,
}
use choam.Row.Key.Laws.{component, row_key-ok, split-row_key_prefix, decode_key_component-component}

-- Only a value of the key's type has a row key.
pub row_key-HasType :
    (t : ℕ) (v : Value) (ty : ColumnType) {key : Bytes} → row_key t v ty ≡ ok key → HasType v ty
unfolding row_key column_type
row_key-HasType t v ty h = ground arith

row_key-eq :
    (t : ℕ) (v : Value) (ty : ColumnType) {key : Bytes}
    → row_key t v ty ≡ ok key
    → key ≡ row_key_prefix t ++ component v
row_key-eq t v ty h = cc (row_key-ok t v ty (row_key-HasType t v ty h))

-- A row key of a valid primary key in a table with a 32-bit id is split into that id and bytes that
-- decode to the primary key.
pub split-row_key :
    (t : ℕ) (v : Value) (ty : ColumnType) (key : Bytes)
    → t < 2 ^ 32
    → IsValid v
    → row_key t v ty ≡ ok key
    → (bs : Bytes) × (split_row_key key ≡ some (t, bs)) × (decode_key_component bs ty ≡ ok v)
split-row_key t v ty key ht hv h = (
  component v,
  rw (row_key-eq t v ty h) (split-row_key_prefix t (component v) ht),
  decode_key_component-component v ty (row_key-HasType t v ty h) hv,
)

-- Two rows with one key are in the same table.
pub row_key-table :
    (t u : ℕ) (v w : Value) (ty ty' : ColumnType) (key : Bytes)
    → t < 2 ^ 32
    → u < 2 ^ 32
    → IsValid v
    → IsValid w
    → row_key t v ty ≡ ok key
    → row_key u w ty' ≡ ok key
    → t ≡ u
row_key-table t u v w ty ty' key ht hu hv hw h k =
    let (bs, p, d) = split-row_key t v ty key ht hv h in
    let (cs, q, e) = split-row_key u w ty' key hu hw k in cc (p, q)

-- Two valid primary keys of one key type, in tables with 32-bit ids, that have the same row key are
-- the same primary key of the same table.
pub row_key-injective :
    (t u : ℕ) (v w : Value) (ty : ColumnType) (key : Bytes)
    → t < 2 ^ 32
    → u < 2 ^ 32
    → IsValid v
    → IsValid w
    → row_key t v ty ≡ ok key
    → row_key u w ty ≡ ok key
    → (t ≡ u) × (v ≡ w)
row_key-injective t u v w ty key ht hu hv hw h k =
    let (bs, p, d) = split-row_key t v ty key ht hv h in
    let (cs, q, e) = split-row_key u w ty key hu hw k in (cc (p, q), cc (p, q, d, e))

prefix_inj : (t u : ℕ) → t < 2 ^ 32 → u < 2 ^ 32 → row_key_prefix t ≡ row_key_prefix u → t ≡ u
unfolding row_key_prefix
prefix_inj t u ht hu e =
    let f = from_be_bytes-be_bytes 4 t ht in let g = from_be_bytes-be_bytes 4 u hu in cc (f, g, e)

length-row_key_prefix : (t : ℕ) → length (row_key_prefix t) ≡ 5
unfolding row_key_prefix
length-row_key_prefix t = omega (arith, length-be_bytes 4 t)

-- The prefix of a table's rows matches a row key exactly if the row is in that table, for tables
-- with 32-bit ids.
pub row_key-prefix :
    (t u : ℕ) (v : Value) (ty : ColumnType) (key : Bytes)
    → t < 2 ^ 32
    → u < 2 ^ 32
    → row_key u v ty ≡ ok key
    → starts_with (row_key_prefix t) key ≡ (t == u)
row_key-prefix t u v ty key ht hu h = elim (Bool-cases (t == u)) [
  | inl same ↦
      let e : t ≡ u = (==_iff t u).0 same in
      rw (row_key-eq u v ty h, same, e) (starts_with-append (row_key_prefix u) (component v))
  | inr other ↦ elim (Bool-cases (starts_with (row_key_prefix t) key)) [
    | inl hit ↦
        let front =
          starts_with-eq (row_key_prefix t) (row_key_prefix u) (component v)
            (omega (arith, length-row_key_prefix t, length-row_key_prefix u))
            (rw (row_key-eq u v ty h) at hit) in
        absurd (ground (arith, prefix_inj t u ht hu front))
    | inr miss ↦ rw (miss, other)
  ]
]

-- For two different non-empty table names and any row key: the counter's key, the index's key, the
-- entry key of the first table and the row key are all different, and the two tables have different
-- entry keys.
pub catalog_keys_apart :
    (name name' entry entry' : Bytes) (t : ℕ) (v : Value) (ty : ColumnType) (key : Bytes)
    → name ≢ name'
    → catalog_table_key name ≡ some entry
    → catalog_table_key name' ≡ some entry'
    → row_key t v ty ≡ ok key
    → (catalog_counter_key ≢ catalog_index_key)
      × (entry ≢ entry')
      × (entry ≢ catalog_counter_key)
      × (entry ≢ catalog_index_key)
      × (key ≢ entry)
      × (key ≢ catalog_counter_key)
      × (key ≢ catalog_index_key)
unfolding catalog_table_key catalog_counter_key catalog_index_key row_key_prefix
catalog_keys_apart name name' entry entry' t v ty key ne h h' k =
    let shape = row_key-eq t v ty k in
    (
      λ e. ground arith,
      λ e. ground arith,
      λ e. ground arith,
      λ e. ground arith,
      λ e. ground (arith, shape),
      λ e. ground (arith, shape),
      λ e. ground (arith, shape),
    )
