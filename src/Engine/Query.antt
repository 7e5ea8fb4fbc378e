-- ===== src/Engine/Query.antt =====
-- crates/engine/src/lib.rs: a query result, and the rows that a WHERE clause keeps.
pub mod Insert
pub mod Select
pub mod Order
pub mod Sorted
pub mod Stable
pub mod Update
use Prim.Native.Nat.{Ordering}
use choam.Base.{
  ℕ, zero, suc, ◌+◌, Bool, true, false, not, ◌||◌, ◌&&◌, Option, none, some, List, [], ◌∷◌, ◌++◌,
  Bytes, Result, ok, err, panic, ◌>>=◌, ◌>>◌, map_err, ok_or, get_elem?, index, length, set, take,
  replicate, ◌==◌, if◌then◌else◌, utf8,
}
use mathlib.Core.List.{map}
use choam.Base.Order.{reverse_cmp}
use choam.Row.Value.{Value, is_null}
use choam.Row.Schema.{ColumnDef, Schema}
use choam.Storage.{Storage}
use choam.Txn.Error.{unknown_table}
use choam.Txn.Database
use choam.Sql.Ast.{Expr, Projection, OrderBy}
use choam.Engine.Error.{
  ExecError, unknown_column, type_mismatch, duplicate_column, value_count, null_primary_key,
  duplicate_primary_key, update_primary_key, db,
}
use choam.Engine.Eval.{position, eval, keeps_row, compare_values}
use choam.Engine.Eval.Check.{Ty, from_column, ty_eq, ty_name, check_type, check_filter}
use choam.Engine.Access.{AccessPath, point_lookup, full_scan, access_path}

pub record QueryResult : Type 0 where
  pub columns : List Bytes
  pub rows : List (List Value)
  pub rows_affected : ℕ

abbrev pub no_rows : ℕ → QueryResult
no_rows n = record { columns = []; rows = []; rows_affected = n }

-- `(0..n).collect()`
abbrev pub range_from : ℕ → ℕ → List ℕ
range_from i zero = []
range_from i (suc n) = i ∷ range_from (i + 1) n

module _ (st : Storage) where
  abbrev Exec : Type 0 → Type 0
  Exec A = Result (ExecError st.StoreError) A

  unfoldable pub schema_of : st.Store → Bytes → Exec Schema
  schema_of now table = do
    found ← map_err db (Database.get_table st now table)
    handle ← ok_or (db (unknown_table table)) found
    ok handle.schema

  unfoldable pub column_index : Schema → Bytes → Exec ℕ
  unfolding position
  column_index schema name = ok_or (unknown_column name) (position name schema.columns)

  abbrev pub option_row : Option (List Value) → List (List Value)
  option_row none = []
  option_row (some row) = row ∷ []

  unfoldable pub rows_on : st.Store → st.Txn → Bytes → AccessPath → Exec (List (List Value))
  rows_on now t table (point_lookup pk) = do
    found ← map_err db (Database.read st now t table pk)
    ok (option_row found)
  rows_on now t table full_scan = map_err db (Database.scan st now t table)

  unfoldable pub candidate_rows :
      st.Store → st.Txn → Bytes → Schema → Option Expr → Exec (List (List Value))
  unfolding rows_on
  candidate_rows now t table schema filter = do
    check_filter filter schema
    path ← access_path schema filter
    rows_on now t table path

  unfoldable pub keep_rows : Schema → Option Expr → List (List Value) → Exec (List (List Value))
  keep_rows schema filter [] = ok []
  keep_rows schema filter (row ∷ rows) = do
    keep ← keeps_row filter schema row
    kept ← keep_rows schema filter rows
    ok (if keep then row ∷ kept else kept)

  unfoldable pub matching_rows :
      st.Store → st.Txn → Bytes → Schema → Option Expr → Exec (List (List Value))
  unfolding candidate_rows keep_rows
  matching_rows now t table schema filter = do
    rows ← candidate_rows now t table schema filter
    keep_rows schema filter rows

  -- An error leaves the writes of the earlier rows in the transaction.
  abbrev pub then_txn :
      {A : Type 0} → Exec st.Txn → (st.Txn → Exec A × st.Txn) → st.Txn → Exec A × st.Txn
  then_txn (ok t') k t = k t'
  then_txn (err e) k t = (err e, t)
  then_txn panic k t = (panic, t)

  abbrev pub with_txn : {A B : Type 0} → Exec A → (A → Exec B × st.Txn) → st.Txn → Exec B × st.Txn
  with_txn (ok a) k t = k a
  with_txn (err e) k t = (err e, t)
  with_txn panic k t = (panic, t)
