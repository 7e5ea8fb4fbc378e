-- ===== src/Engine/Session/Ran.antt =====
-- What running the statements of a script comes to.
use choam.Base.{List, [], ◌∷◌, ◌++◌, Bytes, Result, ok, err, panic, ◌≡◌, refl, ap}
use choam.Storage.{Storage, StorageLaws}
use choam.Sql.Ast.{Statement}
use choam.Engine.Error.{ExecError}
use choam.Engine.Query.{QueryResult}
use choam.Engine.Session.{Session, Answer, execute_statement}
use choam.Engine.Session.Script
use choam.Engine.Session.Script.{Answers, then_rest, run_statements, parsed_script, execute_script}
use choam.Sql.Token.{ParseError}
use choam.Sql.Lexer.{CharClass}
use choam.Sql.Parser.Script.{parse_script}
use choam.Engine.Session.Atomic.{execute_statement-err}

module _ (st : Storage) where
  -- From one store and session, the statements all succeed, one after the other, with these results,
  -- and lead to another store and session.
  pub data Ran
      : st.Store
        → Session st
        → List Statement
        → List QueryResult
        → st.Store
        → Session st
        → Type 0 where
    nothing : (store : st.Store) (session : Session st) → Ran store session [] [] store session
    then :
        {store store' store'' : st.Store} {session session' session'' : Session st}
        {ss : List Statement} {rs : List QueryResult} (s : Statement) (r : QueryResult)
        → execute_statement st store store session s ≡ (ok r, session', store')
        → Ran store' session' ss rs store'' session''
        → Ran store session (s ∷ ss) (r ∷ rs) store'' session''

  -- One statement gives no result, `failure` instead; the ones in front of it all succeed, those
  -- behind it do not run. The store is left as the ones in front left it.
  pub record Stops (store : st.Store) (session : Session st) (ss : List Statement)
      (failure : Result (ExecError st.StoreError) QueryResult) (after : Session st)
      (store_after : st.Store) : Type 0 where
    pub done : List Statement
    pub results : List QueryResult
    pub at : Statement
    pub behind : List Statement
    pub middle : st.Store
    pub before : Session st
    pub split : ss ≡ done ++ at ∷ behind
    pub ran : Ran store session done results middle before
    pub failed : execute_statement st middle middle before at ≡ (failure, after, store_after)

  -- What each answer of a script means.
  abbrev pub Outcome : st.Store → Session st → List Statement → Answers st → Type 0
  Outcome store session ss (ok rs, after, store_after) = Ran store session ss rs store_after after
  Outcome store session ss (err e, after, store_after) =
      (stops : Stops store session ss (err e) after store_after) × (store_after ≡ stops.middle)
  Outcome store session ss (panic, after, store_after) =
      Stops store session ss panic after store_after

  module _ (store store' : st.Store) (session session' : Session st) (s : Statement)
      (ss : List Statement) (r : QueryResult)
      (first : execute_statement st store store session s ≡ (ok r, session', store')) where
    later_stop :
        (failure : Result (ExecError st.StoreError) QueryResult) (after : Session st)
        (store_after : st.Store)
        → Stops store' session' ss failure after store_after
        → Stops store session (s ∷ ss) failure after store_after
    later_stop failure after store_after stops = record {
      done = s ∷ stops.done;
      results = r ∷ stops.results;
      at = stops.at;
      behind = stops.behind;
      middle = stops.middle;
      before = stops.before;
      split = ap (λ l. s ∷ l) stops.split;
      ran = then s r first stops.ran;
      failed = stops.failed;
    }

    later-Outcome :
        (a : Answers st)
        → Outcome store' session' ss a
        → Outcome store session (s ∷ ss) (Script.before st r a)
    unfolding later_stop
    later-Outcome (ok rs, after, store_after) h = then s r first h
    later-Outcome (err e, after, store_after) (stops, same) =
        (later_stop (err e) after store_after stops, same)
    later-Outcome (panic, after, store_after) stops = later_stop panic after store_after stops

  stop_here :
      (store : st.Store) (session : Session st) (s : Statement) (ss : List Statement)
      (failure : Result (ExecError st.StoreError) QueryResult) (after : Session st)
      (store_after : st.Store)
      → execute_statement st store store session s ≡ (failure, after, store_after)
      → Stops store session (s ∷ ss) failure after store_after
  stop_here store session s ss failure after store_after h = record {
    done = [];
    results = [];
    at = s;
    behind = ss;
    middle = store;
    before = session;
    split = refl;
    ran = nothing store session;
    failed = h;
  }

  -- What an answer means by what the text is parsed to.
  abbrev pub ScriptOutcome :
      st.Store → Session st → Result ParseError (List Statement) → Answers st → Type 0
  ScriptOutcome store session (ok ss) a = Outcome store session ss a
  ScriptOutcome store session (err e) a = a ≡ (err (ExecError.parse e), session, store)
  ScriptOutcome store session panic a = a ≡ (panic, session, store)

  module _ (laws : StorageLaws st) where
    first-Outcome :
        (store : st.Store) (session : Session st) (s : Statement) (ss : List Statement)
        (rest : st.Store → Session st → Answers st)
        → ((store' : st.Store) (session' : Session st)
            → Outcome store' session' ss (rest store' session'))
        → (a : Answer st) → execute_statement st store store session s ≡ a
        → Outcome store session (s ∷ ss) (then_rest st a rest)
    unfolding stop_here
    first-Outcome store session s ss rest next (ok r, session', store') h =
        later-Outcome store store' session session' s ss r h (rest store' session')
          (next store' session')
    first-Outcome store session s ss rest next (err e, session', store') h =
        let same : (execute_statement st store store session s).2 ≡ store =
          execute_statement-err st laws store store session s e (ap (λ a. a.0) h) in
        (stop_here store session s ss (err e) session' store' h, rw h at same)
    first-Outcome store session s ss rest next (panic, session', store') h =
        stop_here store session s ss panic session' store' h

    run_statements-Outcome :
        (store : st.Store) (session : Session st) (ss : List Statement)
        → Outcome store session ss (run_statements st store session ss)
    unfolding run_statements
    run_statements-Outcome store session [] = nothing store session
    run_statements-Outcome store session (s ∷ ss) =
        first-Outcome store session s ss (λ store' session'. run_statements st store' session' ss)
          (λ store' session'. run_statements-Outcome store' session' ss)
          (execute_statement st store store session s) refl

    parsed-ScriptOutcome :
        (store : st.Store) (session : Session st) (r : Result ParseError (List Statement))
        → ScriptOutcome store session r (parsed_script st store session r)
    parsed-ScriptOutcome store session (ok ss) = run_statements-Outcome store session ss
    parsed-ScriptOutcome store session (err e) = refl
    parsed-ScriptOutcome store session panic = refl

    -- Over a storage engine that obeys `StorageLaws`, a script that does not parse answers with the
    -- parse error and leaves the session and the store as they are. The statements of one that
    -- parses run in order, each on the store and the session that the one in front of it leaves: if
    -- all succeed the answer has their results, and the store and session of the last. Otherwise
    -- the statements up to one succeed and that one's failure is the answer, with the session that
    -- it leaves. Where the failure is an error, the store is as the statements in front of it left
    -- it.
    pub execute_script-ScriptOutcome :
        (classes : CharClass) (store : st.Store) (session : Session st) (sql : Bytes)
        → ScriptOutcome store session
            (parse_script classes sql)
            (execute_script st classes store session sql)
    unfolding execute_script
    execute_script-ScriptOutcome classes store session sql =
        parsed-ScriptOutcome store session (parse_script classes sql)
