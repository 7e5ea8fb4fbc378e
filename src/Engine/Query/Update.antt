-- ===== src/Engine/Query/Update.antt =====
-- crates/engine/src/lib.rs: UPDATE and DELETE.
use choam.Base.{
  ℕ, Bool, false, not, ◌||◌, ◌&&◌, Option, some, List, [], ◌∷◌, ◌++◌, Bytes, Result, ok, err, ◌>>=◌,
  map_err, index, length, set, ◌==◌, if◌then◌else◌, utf8,
}
use choam.Row.Value.{Value}
use choam.Row.Schema.{Schema}
use choam.Storage.{Storage}
use choam.Txn.Database
use choam.Sql.Ast.{Expr}
use choam.Engine.Error.{ExecError, Piece, type_mismatch, duplicate_column, update_primary_key, db}
use choam.Engine.Eval.{eval}
use choam.Engine.Eval.Check.{Ty, from_column, ty_eq, check_type}
use choam.Engine.Query.{
  QueryResult, no_rows, schema_of, column_index, matching_rows, then_txn, with_txn,
}

module _ (st : Storage) where
  abbrev Exec : Type 0 → Type 0
  Exec A = Result (ExecError st.StoreError) A

  abbrev pub is_target : ℕ → List (ℕ × Expr) → Bool
  is_target i [] = false
  is_target i ((j, e) ∷ ts) = j == i || is_target i ts

  -- `{ty:?}`, with the derived `Debug`
  abbrev ty_debug : Ty → Bytes
  ty_debug Ty.null = utf8 "Null"
  ty_debug Ty.integer = utf8 "Integer"
  ty_debug Ty.text = utf8 "Text"
  ty_debug Ty.bytes = utf8 "Bytes"
  ty_debug Ty.boolean = utf8 "Boolean"

  abbrev assign_message : Bytes → Ty → Ty → List Piece
  assign_message name ty col =
      Piece.plain (utf8 "cannot assign " ++ (ty_debug ty ++ utf8 " to column "))
      ∷ Piece.debugged name
      ∷ Piece.plain (utf8 " of type " ++ ty_debug col)
      ∷ []

  -- The checks of an UPDATE's assignments.
  unfoldable pub update_targets :
      Schema → List (ℕ × Expr) → List (Bytes × Expr) → Exec (List (ℕ × Expr))
  unfolding column_index
  update_targets schema targets [] = ok targets
  update_targets schema targets ((name, e) ∷ rest) = do
    i ← column_index st schema name
    if i == schema.primary_key
        then err (update_primary_key name)
        else if is_target i targets
        then err (duplicate_column name)
        else do
          ty ← check_type e (some schema)
          column ← index schema.columns i
          if not (ty_eq ty (from_column column.ty)) && not (ty_eq ty Ty.null)
              then err (type_mismatch (assign_message name ty (from_column column.ty)))
              else update_targets schema (targets ++ (i, e) ∷ []) rest

  -- `new[i] = eval(e, Some((&schema, old)))?`
  unfoldable pub assign : Schema → List Value → List (ℕ × Expr) → List Value → Exec (List Value)
  assign schema old [] new = ok new
  assign schema old ((i, e) ∷ targets) new = do
    v ← eval e (some (schema, old))
    _ ← index new i
    assign schema old targets (set new i v)

  unfoldable pub update_row :
      st.Store → st.Txn → Bytes → Schema → List (ℕ × Expr) → List Value → Exec st.Txn
  unfolding assign
  update_row now t table schema targets old = do
    new ← assign schema old targets old
    map_err db (Database.write st now t table new)

  unfoldable pub update_rows :
      st.Store
      → Bytes
      → Schema
      → List (ℕ × Expr)
      → List (List Value)
      → ℕ
      → st.Txn
      → Exec QueryResult × st.Txn
  unfolding update_row
  update_rows now table schema targets [] n t = (ok (no_rows n), t)
  update_rows now table schema targets (old ∷ rows) n t =
      then_txn st (update_row now t table schema targets old)
        (λ t'. update_rows now table schema targets rows n t') t

  unfoldable pub update :
      st.Store → st.Txn → Bytes → List (Bytes × Expr) → Option Expr → Exec QueryResult × st.Txn
  unfolding update_rows update_targets schema_of matching_rows
  update now t table assignments filter =
      with_txn st (schema_of st now table)
        (λ schema.
          with_txn st (update_targets schema [] assignments)
            (λ targets.
              with_txn st (matching_rows st now t table schema filter)
                (λ victims. update_rows now table schema targets victims (length victims) t) t)
            t)
        t

  unfoldable pub delete_row : st.Store → st.Txn → Bytes → Schema → List Value → Exec st.Txn
  delete_row now t table schema row = do
    pk ← index row schema.primary_key
    map_err db (Database.delete st now t table pk)

  unfoldable pub delete_rows :
      st.Store → Bytes → Schema → List (List Value) → ℕ → st.Txn → Exec QueryResult × st.Txn
  unfolding delete_row
  delete_rows now table schema [] n t = (ok (no_rows n), t)
  delete_rows now table schema (row ∷ rows) n t =
      then_txn st (delete_row now t table schema row) (λ t'. delete_rows now table schema rows n t')
        t

  unfoldable pub delete : st.Store → st.Txn → Bytes → Option Expr → Exec QueryResult × st.Txn
  unfolding delete_rows schema_of matching_rows
  delete now t table filter =
      with_txn st (schema_of st now table)
        (λ schema.
          with_txn st (matching_rows st now t table schema filter)
            (λ victims. delete_rows now table schema victims (length victims) t) t)
        t
