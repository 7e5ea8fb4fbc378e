-- ===== src/Row/Schema.antt =====
-- crates/row/src/row.rs: column definitions, and schemas with the rules of `Schema::new`.
pub mod Rules
use choam.Base.{
  ℕ, ◌≡◌, Bool, true, false, ◌||◌, Option, none, some, List, [], ◌∷◌, Bytes, Result, ok, err, panic,
  ◌>>=◌, index, length, leb, is_empty, if◌then◌else◌, bytes_eq, utf8,
}
use choam.Row.Value.{ColumnType}

pub record ColumnDef : Type 0 where
  pub name : Bytes
  pub ty : ColumnType
  pub nullable : Bool

-- `primary_key` is an index into `columns`.
pub record Schema : Type 0 where
  pub table_name : Bytes
  pub columns : List ColumnDef
  pub primary_key : ℕ

pub data SchemaError : Type 0 where
  no_columns : SchemaError
  primary_key_out_of_range : ℕ → ℕ → SchemaError
  nullable_primary_key : Bytes → SchemaError
  duplicate_column_name : Bytes → SchemaError

-- The inner loop: does a later column have this name?
unfoldable pub is_repeated : Bytes → List ColumnDef → Bool
is_repeated name [] = false
is_repeated name (c ∷ cs) = bytes_eq name c.name || is_repeated name cs

-- The outer loop: the first name that stands again further on.
unfoldable pub first_duplicate : List ColumnDef → Option Bytes
unfolding is_repeated
first_duplicate [] = none
first_duplicate (c ∷ cs) =
    let later = first_duplicate cs in if is_repeated c.name cs then some c.name else later

abbrev reject_duplicates : Bytes → List ColumnDef → ℕ → Option Bytes → Result SchemaError Schema
reject_duplicates table_name columns primary_key (some name) = err (duplicate_column_name name)
reject_duplicates table_name columns primary_key none =
    ok (record { table_name = table_name; columns = columns; primary_key = primary_key })

-- `Schema::new`
unfoldable pub new : Bytes → List ColumnDef → ℕ → Result SchemaError Schema
unfolding first_duplicate
new table_name columns primary_key =
    if is_empty columns
    then err no_columns
    else if leb (length columns) primary_key
    then err (primary_key_out_of_range primary_key (length columns))
    else do
      key ← index columns primary_key
      if key.nullable
          then err (nullable_primary_key key.name)
          else reject_duplicates table_name columns primary_key (first_duplicate columns)

-- `Schema::primary_key_type`, which indexes without a check
unfoldable pub primary_key_type : {E : Type 0} → Schema → Result E ColumnType
primary_key_type s = do c ← index s.columns s.primary_key; ok c.ty
