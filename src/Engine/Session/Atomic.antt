-- ===== src/Engine/Session/Atomic.antt =====
-- What a statement leaves in the store: all of its work, or nothing.
use mathlib.Core.Path.{subst}
use choam.Base.{
  ℕ, map_err, sym, ◌≡◌, ◌≢◌, refl, Bool, true, false, Option, none, some, List, [], ◌∷◌, Bytes,
  Result, ok, err, panic,
}
use choam.Storage.{Storage, StorageLaws}
use choam.Row.Schema.{ColumnDef}
use choam.Sql.Ast.{Statement, ColumnSpec}
use choam.Txn.Error.{DbError}
use choam.Txn.Database
use choam.Txn.Database.Commit.{commit-err}
use choam.Catalog.Error.{CatalogError}
use choam.Catalog.Tables
use choam.Catalog.Tables.{TableHandle}
use choam.Catalog.Tables.Create.{create_table-err}
use choam.Engine.Error.{ExecError}
use choam.Engine.Query.{QueryResult, no_rows}
use choam.Engine.Session.{
  Session, new_session, is_err, execute_statement, run, key_columns, column_defs, create_table,
  create_with_key, created, in_transaction, autocommit, end_commit,
}

module _ (st : Storage) where
  -- An aborted transaction refuses every statement but ROLLBACK.
  aborted-refuses :
      (now later : st.Store) (t : st.Txn) (stmt : Statement)
      → stmt ≢ Statement.rollback
      → is_err st (execute_statement st now later (record { txn = some t; failed = true }) stmt).0
        ≡ true
  unfolding execute_statement
  aborted-refuses now later t Statement.begin n = refl
  aborted-refuses now later t Statement.commit n = refl
  aborted-refuses now later t Statement.rollback n = absurd (n refl)
  aborted-refuses now later t (Statement.create_table name columns) n = refl
  aborted-refuses now later t stmt n = refl

  in_transaction-store :
      (later : st.Store) (p : Result (ExecError st.StoreError) QueryResult × st.Txn)
      → (in_transaction st later p).2 ≡ later
  in_transaction-store later (r, t) = refl

  open_statement-store :
      (now later : st.Store) (t : st.Txn) (failed : Bool) (stmt : Statement)
      → stmt ≢ Statement.commit
      → (execute_statement st now later (record { txn = some t; failed = failed }) stmt).2 ≡ later
  unfolding execute_statement
  open_statement-store now later t failed Statement.begin n = refl
  open_statement-store now later t failed Statement.commit n = absurd (n refl)
  open_statement-store now later t failed Statement.rollback n = refl
  open_statement-store now later t failed (Statement.create_table name columns) n = refl
  open_statement-store now later t false stmt n = in_transaction-store later (run st now t stmt)
  open_statement-store now later t true stmt n = refl

  module _ (laws : StorageLaws st) where
    end_commit-err :
        (c : Result (DbError st.StoreError) (Unit {0}) × st.Store) (r : QueryResult)
        (s : Session st) (later : st.Store) (e : ExecError st.StoreError)
        → ((x : DbError st.StoreError) → c.0 ≡ err x → c.1 ≡ later)
        → (end_commit st c r s).0 ≡ err e
        → (end_commit st c r s).2 ≡ later
    end_commit-err (ok u, after) r s later e k h = cc
    end_commit-err (err x, after) r s later e k h = k x refl
    end_commit-err (panic, after) r s later e k h = cc

    autocommit-err :
        (later : st.Store) (s : Session st)
        (p : Result (ExecError st.StoreError) QueryResult × st.Txn) (e : ExecError st.StoreError)
        → (autocommit st later s p).0 ≡ err e
        → (autocommit st later s p).2 ≡ later
    autocommit-err later s (ok r, t) e h =
        end_commit-err (Database.commit st later t) r s later e (commit-err st laws later t) h
    autocommit-err later s (err x, t) e h = refl
    autocommit-err later s (panic, t) e h = refl

    database_create-err :
        (now later : st.Store) (name : Bytes) (columns : List ColumnDef) (pk : ℕ)
        (e : DbError st.StoreError)
        → (Database.create_table st now later name columns pk).0 ≡ err e
        → (Database.create_table st now later name columns pk).1 ≡ later
    unfolding Database.create_table
    database_create-err now later name columns pk e h =
        let r = Tables.create_table st now later name columns pk in
        let (x, failed, same) = map_err-err r.0 e h in
        create_table-err st laws now later name columns pk x failed
      where
        map_err-err :
            {A : Type 0} (r : Result (CatalogError st.StoreError) A) (e : DbError st.StoreError)
            → map_err DbError.catalog r ≡ err e
            → (x : CatalogError st.StoreError) × (r ≡ err x) × (DbError.catalog x ≡ e)
        map_err-err (ok a) e h = cc
        map_err-err (err x) e h = (x, refl, cc)
        map_err-err panic e h = cc

    created-err :
        (later : st.Store) (p : Result (DbError st.StoreError) TableHandle × st.Store)
        (e : ExecError st.StoreError)
        → ((x : DbError st.StoreError) → p.0 ≡ err x → p.1 ≡ later)
        → (created st p).0 ≡ err e
        → (created st p).1 ≡ later
    created-err later (ok t, after) e k h = cc
    created-err later (err x, after) e k h = k x refl
    created-err later (panic, after) e k h = cc

    create_with_key-err :
        (now later : st.Store) (name : Bytes) (columns : List ColumnSpec) (keys : List ℕ)
        (e : ExecError st.StoreError)
        → (create_with_key st now later name columns keys).0 ≡ err e
        → (create_with_key st now later name columns keys).1 ≡ later
    create_with_key-err now later name columns [] e h = refl
    create_with_key-err now later name columns (pk ∷ []) e h =
        created-err later (Database.create_table st now later name (column_defs 0 pk columns) pk) e
          (database_create-err now later name (column_defs 0 pk columns) pk) h
    create_with_key-err now later name columns (pk ∷ pk' ∷ keys) e h = refl

    failed_statement :
        (now later : st.Store) (txn : Option st.Txn) (failed : Bool) (stmt : Statement)
        (e : ExecError st.StoreError)
        → (execute_statement st now later (record { txn = txn; failed = failed }) stmt).0 ≡ err e
        → (execute_statement st now later (record { txn = txn; failed = failed }) stmt).2 ≡ later
    unfolding execute_statement create_table
    failed_statement now later none failed Statement.begin e h = refl
    failed_statement now later (some t) failed Statement.begin e h = refl
    failed_statement now later none failed Statement.commit e h = refl
    failed_statement now later (some t) true Statement.commit e h = refl
    failed_statement now later (some t) false Statement.commit e h =
        end_commit-err (Database.commit st later t) (no_rows 0) (new_session st) later e
          (commit-err st laws later t) h
    failed_statement now later none failed Statement.rollback e h = refl
    failed_statement now later (some t) failed Statement.rollback e h = refl
    failed_statement now later none failed (Statement.create_table name columns) e h =
        create_with_key-err now later name columns (key_columns 0 columns) e h
    failed_statement now later (some t) failed (Statement.create_table name columns) e h = refl
    failed_statement now later none true stmt e h = refl
    failed_statement now later (some t) true stmt e h = refl
    failed_statement now later (some t) false stmt e h =
        in_transaction-store later (run st now t stmt)
    failed_statement now later none false stmt e h =
        autocommit-err later (record { txn = none; failed = false })
          (run st now (Database.begin st now) stmt) e h

    -- Over a storage engine that obeys `StorageLaws`, a statement that answers with an error leaves
    -- the shared store as it is: a row statement on its own, a COMMIT and a CREATE TABLE included.
    pub execute_statement-err :
        (now later : st.Store) (s : Session st) (stmt : Statement) (e : ExecError st.StoreError)
        → (execute_statement st now later s stmt).0 ≡ err e
        → (execute_statement st now later s stmt).2 ≡ later
    execute_statement-err now later s stmt e h = failed_statement now later s.txn s.failed stmt e h

  module _ (now later : st.Store) (s : Session st) (t : st.Txn) (in_progress : s.txn ≡ some t) where
    -- In a session with an open transaction, aborted or not, no statement but COMMIT changes the
    -- shared store.
    pub execute_statement-in_transaction :
        (stmt : Statement)
        → stmt ≢ Statement.commit
        → (execute_statement st now later s stmt).2 ≡ later
    execute_statement-in_transaction stmt n =
        subst
          (λ o.
            (execute_statement st now later (record { txn = o; failed = s.failed }) stmt).2 ≡ later)
          (sym in_progress) (open_statement-store now later t s.failed stmt n)

    -- In a session whose open transaction is marked as failed, every statement but ROLLBACK answers
    -- with an error.
    pub execute_statement-aborted :
        (stmt : Statement)
        → s.failed ≡ true
        → stmt ≢ Statement.rollback
        → is_err st (execute_statement st now later s stmt).0 ≡ true
    execute_statement-aborted stmt f n =
        let at : record { txn = some t; failed = true } ≡ s =
          λ i. record { txn = sym in_progress i; failed = sym f i } in
        subst (λ o. is_err st (execute_statement st now later o stmt).0 ≡ true) at
          (aborted-refuses now later t stmt n)
