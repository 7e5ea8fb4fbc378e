-- ===== src/Engine/Session/States.antt =====
-- The states of a session, by the documentation and by the code.
use choam.Base.{
  ap, ◌∙◌, Bool-cases, inl, inr, ◌≡◌, refl, Bool, true, false, Option, none, some, Result, ok, err,
  panic,
}
use choam.Storage.{Storage}
use choam.Sql.Ast.{Statement}
use choam.Txn.Error.{DbError}
use choam.Txn.Database
use choam.Engine.Error.{ExecError}
use choam.Engine.Query.{QueryResult, no_rows}
use choam.Engine.Session.{
  Session, new_session, is_err, execute_statement, run, row_statement, in_transaction, autocommit,
  end_commit, Answer,
}

pub data Mode : Type 0 where
  idle working aborted : Mode

-- A failed statement poisons a transaction in progress, and moves nothing else.
abbrev pub poisoned : Mode → Bool → Mode
poisoned Mode.idle failed = Mode.idle
poisoned Mode.working true = Mode.aborted
poisoned Mode.working false = Mode.working
poisoned Mode.aborted failed = Mode.aborted

abbrev pub begin_mode : Mode → Bool → Mode
begin_mode Mode.idle false = Mode.working
begin_mode m failed = poisoned m failed

-- The state machine of the crate's documentation and of ADR-004: where a statement leads, by whether
-- it fails. COMMIT and ROLLBACK end a transaction, any other statement that fails in one poisons it.
abbrev pub documented_mode : Mode → Statement → Bool → Mode
documented_mode m Statement.begin failed = begin_mode m failed
documented_mode m Statement.commit failed = Mode.idle
documented_mode m Statement.rollback failed = Mode.idle
documented_mode m stmt failed = poisoned m failed

-- The statements that the code refuses in an open transaction without poisoning it.
abbrev pub diverges : Mode → Statement → Bool
diverges Mode.working Statement.begin = true
diverges Mode.working (Statement.create_table name columns) = true
diverges _ _ = false

poisons :
    (m : Mode) (stmt : Statement)
    → diverges m stmt ≡ true
    → documented_mode m stmt true ≡ Mode.aborted
poisons Mode.idle stmt d = cc
poisons Mode.aborted stmt d = cc
poisons Mode.working Statement.begin d = refl
poisons Mode.working (Statement.create_table name columns) d = refl
poisons Mode.working stmt d = cc

module _ (st : Storage) where
  abbrev mode_of : Option st.Txn → Bool → Mode
  mode_of none _ = Mode.idle
  mode_of (some _) false = Mode.working
  mode_of (some _) true = Mode.aborted

  abbrev pub mode : Session st → Mode
  mode s = mode_of s.txn s.failed

  abbrev MarksOpen : Option st.Txn → Bool → Type 0
  MarksOpen none failed = failed ≡ false
  MarksOpen (some _) _ = Unit

  -- Only an open transaction can be marked as failed.
  abbrev pub IsSession : Session st → Type 0
  IsSession s = MarksOpen s.txn s.failed

  -- The sessions that a sequence of statements leads to, whatever the store is at each.
  pub data Reachable : Session st → Type 0 where
    start : Reachable (new_session st)
    next :
        (s : Session st) (now later : st.Store) (stmt : Statement)
        → Reachable s
        → Reachable (execute_statement st now later s stmt).1

  -- The session after a statement, and its mode.
  abbrev Moves : Session st → Statement → Answer st → Type 0
  Moves s stmt a = IsSession a.1 × (mode a.1 ≡ documented_mode (mode s) stmt (is_err st a.0))

  end_commit-session :
      (c : Result (DbError st.StoreError) (Unit {0}) × st.Store) (r : QueryResult) (s : Session st)
      → (end_commit st c r s).1 ≡ s
  end_commit-session (ok u, after) r s = refl
  end_commit-session (err e, after) r s = refl
  end_commit-session (panic, after) r s = refl

  autocommit-session :
      (later : st.Store) (s : Session st)
      (p : Result (ExecError st.StoreError) QueryResult × st.Txn)
      → (autocommit st later s p).1 ≡ s
  autocommit-session later s (ok r, t) = end_commit-session (Database.commit st later t) r s
  autocommit-session later s (err e, t) = refl
  autocommit-session later s (panic, t) = refl

  in_transaction-Moves :
      (later : st.Store) (p : Result (ExecError st.StoreError) QueryResult × st.Txn)
      → mode (in_transaction st later p).1
        ≡ poisoned Mode.working (is_err st (in_transaction st later p).0)
  in_transaction-Moves later (ok r, t) = refl
  in_transaction-Moves later (err e, t) = refl
  in_transaction-Moves later (panic, t) = refl

  abbrev session_of : Option st.Txn → Bool → Session st
  session_of txn failed = record { txn = txn; failed = failed }

  row_statement-Moves :
      (now later : st.Store) (txn : Option st.Txn) (failed : Bool) (stmt : Statement)
      → MarksOpen txn failed
      → (IsSession (row_statement st now later (session_of txn failed) txn failed stmt).1)
        × (mode (row_statement st now later (session_of txn failed) txn failed stmt).1
            ≡ poisoned
                (mode_of txn failed)
                (is_err st (row_statement st now later (session_of txn failed) txn failed stmt).0))
  row_statement-Moves now later none true stmt h = cc
  row_statement-Moves now later none false stmt h =
      let same =
        autocommit-session later (session_of none false)
          (run st now (Database.begin st now) stmt) in
      rw same (refl, refl)
  row_statement-Moves now later (some t) false stmt h =
      (tt, in_transaction-Moves later (run st now t stmt))
  row_statement-Moves now later (some t) true stmt h = (tt, refl)

  control-Moves :
      (now later : st.Store) (txn : Option st.Txn) (failed : Bool) (stmt : Statement)
      → MarksOpen txn failed
      → diverges (mode_of txn failed) stmt ≡ false
      → Moves
          (session_of txn failed)
          stmt
          (execute_statement st now later (session_of txn failed) stmt)
  unfolding execute_statement
  control-Moves now later none true stmt h d = cc
  control-Moves now later none false Statement.begin h d = (tt, refl)
  control-Moves now later (some t) false Statement.begin h d = cc
  control-Moves now later (some t) true Statement.begin h d = (tt, refl)
  control-Moves now later none false Statement.commit h d = (refl, refl)
  control-Moves now later (some t) false Statement.commit h d =
      rw (end_commit-session (Database.commit st later t) (no_rows 0) (new_session st)) (refl, refl)
  control-Moves now later (some t) true Statement.commit h d = (refl, refl)
  control-Moves now later none false Statement.rollback h d = (refl, refl)
  control-Moves now later (some t) failed Statement.rollback h d = (refl, refl)
  control-Moves now later none false (Statement.create_table name columns) h d = (refl, refl)
  control-Moves now later (some t) false (Statement.create_table name columns) h d = cc
  control-Moves now later (some t) true (Statement.create_table name columns) h d = (tt, refl)
  control-Moves now later txn failed stmt h d = row_statement-Moves now later txn failed stmt h

  -- A refused statement leaves everything as it is.
  refused :
      (now later : st.Store) (txn : Option st.Txn) (failed : Bool) (stmt : Statement)
      → diverges (mode_of txn failed) stmt ≡ true
      → (is_err st (execute_statement st now later (session_of txn failed) stmt).0 ≡ true)
        × ((execute_statement st now later (session_of txn failed) stmt).1 ≡ session_of txn failed)
        × (mode_of txn failed ≡ Mode.working)
  unfolding execute_statement
  refused now later none failed stmt d = cc
  refused now later (some t) true stmt d = cc
  refused now later (some t) false Statement.begin d = (refl, refl, refl)
  refused now later (some t) false (Statement.create_table name columns) d = (refl, refl, refl)
  refused now later (some t) false stmt d = cc

  stays_session :
      (now later : st.Store) (s : Session st) (stmt : Statement)
      → IsSession s
      → IsSession (execute_statement st now later s stmt).1
  stays_session now later s stmt h = elim (Bool-cases (diverges (mode s) stmt)) [
    | inl divergent ↦ rw (refused now later s.txn s.failed stmt divergent).1 h
    | inr plain ↦ (control-Moves now later s.txn s.failed stmt h plain).0
  ]

  Reachable-IsSession : (s : Session st) → Reachable s → IsSession s
  Reachable-IsSession s start = refl
  Reachable-IsSession _ (next s now later stmt r) =
      stays_session now later s stmt (Reachable-IsSession s r)

  -- In every session that statements can lead to, each statement leads where the state machine of
  -- the documentation says: BEGIN opens a transaction where none is, COMMIT and ROLLBACK end one,
  -- any other statement that fails in an open one aborts it, and otherwise the state stays. The
  -- exceptions are BEGIN and CREATE TABLE in an open transaction that is not aborted. The session
  -- stays one in which only an open transaction is marked as failed.
  pub Reachable-mode :
      (s : Session st) (now later : st.Store) (stmt : Statement)
      → Reachable s
      → diverges (mode s) stmt ≡ false
      → Moves s stmt (execute_statement st now later s stmt)
  Reachable-mode s now later stmt r plain =
      control-Moves now later s.txn s.failed stmt (Reachable-IsSession s r) plain

  -- BEGIN and CREATE TABLE in an open transaction that is not aborted answer with an error and
  -- leave the transaction open, where the state machine of the documentation aborts it.
  pub execute_statement-diverges :
      (s : Session st) (now later : st.Store) (stmt : Statement)
      → diverges (mode s) stmt ≡ true
      → (is_err st (execute_statement st now later s stmt).0 ≡ true)
        × (mode (execute_statement st now later s stmt).1 ≡ Mode.working)
        × (documented_mode (mode s) stmt true ≡ Mode.aborted)
  execute_statement-diverges s now later stmt divergent =
      let (fails, same, open_one) = refused now later s.txn s.failed stmt divergent in
      (fails, ap mode same ∙ open_one, poisons (mode s) stmt divergent)
