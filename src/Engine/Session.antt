-- ===== src/Engine/Session.antt =====
-- crates/engine/src/lib.rs: sessions, which run a statement on its own or in a transaction.
pub mod States
pub mod Atomic
pub mod Script
pub mod Ran
use choam.Base.{
  ℕ, Bool, true, false, not, ◌&&◌, Option, none, some, List, [], ◌∷◌, Bytes, Result, ok, err, panic,
  ◌>>=◌, map_err, ◌==◌, ◌+◌, if◌then◌else◌,
}
use mathlib.Core.List.{map}
use choam.Row.Schema.{ColumnDef}
use choam.Storage.{Storage}
use choam.Catalog.Tables.{TableHandle}
use choam.Txn.Error.{DbError}
use choam.Txn.Database
use choam.Sql.Ast.{ColumnSpec, Statement}
use choam.Engine.Error.{
  ExecError, primary_key_count, db, ddl_in_transaction, already_in_transaction,
  no_active_transaction, transaction_aborted,
}
use choam.Engine.Query.Insert
use choam.Engine.Query.Select
use choam.Engine.Query.Update
use choam.Engine.Query.{QueryResult, no_rows}

-- The indices of the PRIMARY KEY columns, from `i` on.
unfoldable pub key_columns : ℕ → List ColumnSpec → List ℕ
key_columns i [] = []
key_columns i (c ∷ cs) =
    let later = key_columns (i + 1) cs in if c.primary_key then i ∷ later else later

unfoldable pub column_defs : ℕ → ℕ → List ColumnSpec → List ColumnDef
column_defs i pk [] = []
column_defs i pk (c ∷ cs) =
    record { name = c.name; ty = c.ty; nullable = not c.not_null && not (i == pk) }
    ∷ column_defs (i + 1) pk cs

module _ (st : Storage) where
  abbrev Exec : Type 0 → Type 0
  Exec A = Result (ExecError st.StoreError) A

  pub record Session : Type 0 where
    pub txn : Option st.Txn
    pub failed : Bool

  abbrev pub new_session : Session
  new_session = record { txn = none; failed = false }

  abbrev pub is_err : {A : Type 0} → Exec A → Bool
  is_err (err _) = true
  is_err _ = false

  abbrev pub created :
      Result (DbError st.StoreError) TableHandle × st.Store → Exec QueryResult × st.Store
  created (ok _, after) = (ok (no_rows 0), after)
  created (err e, after) = (err (db e), after)
  created (panic, after) = (panic, after)

  abbrev create_with_key :
      st.Store → st.Store → Bytes → List ColumnSpec → List ℕ → Exec QueryResult × st.Store
  create_with_key now later name columns (pk ∷ []) =
      created (Database.create_table st now later name (column_defs 0 pk columns) pk)
  create_with_key now later name columns _ = (err primary_key_count, later)

  unfoldable pub create_table :
      st.Store → st.Store → Bytes → List ColumnSpec → Exec QueryResult × st.Store
  unfolding key_columns column_defs
  create_table now later name columns =
      create_with_key now later name columns (key_columns 0 columns)

  -- The statements that read and write rows; the others do not reach `run`.
  unfoldable pub run : st.Store → st.Txn → Statement → Exec QueryResult × st.Txn
  run now t (Statement.insert table columns rows) = Insert.insert st now t table columns rows
  run now t (Statement.select projection table filter order_by limit) =
      (Select.select st now t table projection filter order_by limit, t)
  run now t (Statement.update table assignments filter) =
      Update.update st now t table assignments filter
  run now t (Statement.delete table filter) = Update.delete st now t table filter
  run now t _ = (panic, t)

  -- The answer, the session afterwards and the store afterwards.
  abbrev pub Answer : Type 0
  Answer = Exec QueryResult × Session × st.Store

  abbrev pub end_commit :
      Result (DbError st.StoreError) (Unit {0}) × st.Store → QueryResult → Session → Answer
  end_commit (ok _, after) r s = (ok r, s, after)
  end_commit (err e, after) r s = (err (db e), s, after)
  end_commit (panic, after) r s = (panic, s, after)

  -- COMMIT: the transaction is taken out of the session, and `failed` is cleared.
  abbrev pub commit_statement : st.Store → Session → Option st.Txn → Bool → Answer
  commit_statement later s none f = (err no_active_transaction, s, later)
  commit_statement later s (some t) true = (err transaction_aborted, new_session, later)
  commit_statement later s (some t) false =
      end_commit (Database.commit st later t) (no_rows 0) new_session

  abbrev pub rollback_statement : st.Store → Session → Option st.Txn → Answer
  rollback_statement later s none = (err no_active_transaction, s, later)
  rollback_statement later s (some t) = (ok (no_rows 0), new_session, later)

  abbrev pub begin_statement : st.Store → st.Store → Session → Option st.Txn → Answer
  begin_statement now later s (some t) = (err already_in_transaction, s, later)
  begin_statement now later s none =
      (ok (no_rows 0), record s { txn = some (Database.begin st now) }, later)

  abbrev pub create_statement :
      st.Store → st.Store → Session → Option st.Txn → Bytes → List ColumnSpec → Answer
  create_statement now later s (some t) name columns = (err ddl_in_transaction, s, later)
  create_statement now later s none name columns =
      let (r, after) = create_table now later name columns in (r, s, after)

  -- A statement in an open transaction keeps its writes there, and sets `failed` by its answer.
  abbrev pub in_transaction : st.Store → Exec QueryResult × st.Txn → Answer
  in_transaction later (r, t) = (r, record { txn = some t; failed = is_err r }, later)

  -- A statement on its own commits if it succeeds, and is dropped if it fails.
  abbrev pub autocommit : st.Store → Session → Exec QueryResult × st.Txn → Answer
  autocommit later s (ok r, t) = end_commit (Database.commit st later t) r s
  autocommit later s (err e, t) = (err e, s, later)
  autocommit later s (panic, t) = (panic, s, later)

  abbrev pub row_statement :
      st.Store → st.Store → Session → Option st.Txn → Bool → Statement → Answer
  row_statement now later s txn true stmt = (err transaction_aborted, s, later)
  row_statement now later s (some t) false stmt = in_transaction later (run now t stmt)
  row_statement now later s none false stmt =
      autocommit later s (run now (Database.begin st now) stmt)

  -- `now` is the store while the statement runs, `later` the store when it commits: other sessions
  -- may have committed in between.
  unfoldable pub execute_statement : st.Store → st.Store → Session → Statement → Answer
  unfolding create_table
  execute_statement now later s Statement.begin = begin_statement now later s s.txn
  execute_statement now later s Statement.commit = commit_statement later s s.txn s.failed
  execute_statement now later s Statement.rollback = rollback_statement later s s.txn
  execute_statement now later s (Statement.create_table name columns) =
      create_statement now later s s.txn name columns
  execute_statement now later s other = row_statement now later s s.txn s.failed other
