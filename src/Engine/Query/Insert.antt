-- ===== src/Engine/Query/Insert.antt =====
-- crates/engine/src/lib.rs: INSERT.
use choam.Base.{
  ℕ, Bool, false, not, ◌||◌, Option, none, some, List, [], ◌∷◌, ◌++◌, Bytes, Result, ok, err, ◌>>=◌,
  ◌>>◌, map_err, index, length, set, replicate, ◌==◌, if◌then◌else◌,
}
use choam.Row.Value.{Value, is_null}
use choam.Row.Schema.{Schema}
use choam.Storage.{Storage}
use choam.Txn.Database
use choam.Sql.Ast.{Expr}
use choam.Engine.Error.{
  ExecError, duplicate_column, value_count, null_primary_key, duplicate_primary_key, db,
}
use choam.Engine.Eval.{eval}
use choam.Engine.Query.{
  QueryResult, no_rows, range_from, schema_of, column_index, then_txn, with_txn,
}

abbrev pub contains : ℕ → List ℕ → Bool
contains i [] = false
contains i (j ∷ js) = i == j || contains i js

module _ (st : Storage) where
  abbrev Exec : Type 0 → Type 0
  Exec A = Result (ExecError st.StoreError) A

  -- The columns that an INSERT names, as indices.
  unfoldable pub named_targets : Schema → List ℕ → List Bytes → Exec (List ℕ)
  unfolding column_index
  named_targets schema idx [] = ok idx
  named_targets schema idx (n ∷ ns) = do
    i ← column_index st schema n
    if contains i idx then err (duplicate_column n) else named_targets schema (idx ++ i ∷ []) ns

  unfoldable pub insert_targets : Schema → Option (List Bytes) → Exec (List ℕ)
  unfolding named_targets
  insert_targets schema none = ok (range_from 0 (length schema.columns))
  insert_targets schema (some names) = named_targets schema [] names

  -- `values[i] = eval(e, None)?` for each target and expression
  unfoldable pub fill_values : List ℕ → List Expr → List Value → Exec (List Value)
  fill_values [] exprs values = ok values
  fill_values (i ∷ is) [] values = ok values
  fill_values (i ∷ is) (e ∷ es) values = do
    v ← eval e none
    _ ← index values i
    fill_values is es (set values i v)

  abbrev pub unless_present : Value → Option (List Value) → Exec (Unit {0})
  unless_present pk none = ok tt
  unless_present pk (some _) = err (duplicate_primary_key pk)

  unfoldable pub insert_row : st.Store → st.Txn → Bytes → Schema → List ℕ → List Expr → Exec st.Txn
  unfolding fill_values
  insert_row now t table schema targets exprs =
      if not (length exprs == length targets)
      then err (value_count (length targets) (length exprs))
      else do
        values ← fill_values targets exprs (replicate (length schema.columns) Value.null)
        pk ← index values schema.primary_key
        if is_null pk then err null_primary_key else do
          found ← map_err db (Database.read st now t table pk)
          unless_present pk found
          map_err db (Database.write st now t table values)

  unfoldable pub insert_rows :
      st.Store → Bytes → Schema → List ℕ → List (List Expr) → ℕ → st.Txn → Exec QueryResult × st.Txn
  unfolding insert_row
  insert_rows now table schema targets [] n t = (ok (no_rows n), t)
  insert_rows now table schema targets (exprs ∷ rows) n t =
      then_txn st (insert_row now t table schema targets exprs)
        (λ t'. insert_rows now table schema targets rows n t') t

  unfoldable pub insert :
      st.Store → st.Txn → Bytes → Option (List Bytes) → List (List Expr) → Exec QueryResult × st.Txn
  unfolding insert_rows insert_targets schema_of
  insert now t table columns rows =
      with_txn st (schema_of st now table)
        (λ schema.
          with_txn st (insert_targets schema columns)
            (λ targets. insert_rows now table schema targets rows (length rows) t) t)
        t
