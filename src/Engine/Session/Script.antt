-- ===== src/Engine/Session/Script.antt =====
-- crates/engine/src/lib.rs: `execute` and `execute_script`. No other session commits in between.
use choam.Base.{List, [], ◌∷◌, Bytes, Result, ok, err, panic, ◌>>=◌}
use choam.Storage.{Storage}
use choam.Sql.Ast.{Statement}
use choam.Sql.Token.{ParseError}
use choam.Sql.Lexer.{CharClass}
use choam.Sql.Parser.Script.{parse, parse_script}
use choam.Engine.Error.{ExecError}
use choam.Engine.Query.{QueryResult}
use choam.Engine.Session.{Session, Answer, execute_statement}

module _ (st : Storage) where
  abbrev pub Answers : Type 0
  Answers = Result (ExecError st.StoreError) (List QueryResult) × Session st × st.Store

  abbrev pub before : QueryResult → Answers → Answers
  before r (rs, session, store) = (rs >>= (λ later. ok (r ∷ later)), session, store)

  abbrev pub then_rest : Answer st → (st.Store → Session st → Answers) → Answers
  then_rest (ok r, session, store) rest = before r (rest store session)
  then_rest (err e, session, store) rest = (err e, session, store)
  then_rest (panic, session, store) rest = (panic, session, store)

  -- `stmts.iter().map(...).collect()`, which stops at the first error
  unfoldable pub run_statements : st.Store → Session st → List Statement → Answers
  run_statements store session [] = (ok [], session, store)
  run_statements store session (s ∷ ss) =
      then_rest (execute_statement st store store session s)
        (λ store' session'. run_statements store' session' ss)

  abbrev pub parsed_script : st.Store → Session st → Result ParseError (List Statement) → Answers
  parsed_script store session (ok ss) = run_statements store session ss
  parsed_script store session (err e) = (err (ExecError.parse e), session, store)
  parsed_script store session panic = (panic, session, store)

  unfoldable pub execute_script : CharClass → st.Store → Session st → Bytes → Answers
  unfolding run_statements
  execute_script classes store session sql = parsed_script store session (parse_script classes sql)

  abbrev pub parsed_statement : st.Store → Session st → Result ParseError Statement → Answer st
  parsed_statement store session (ok s) = execute_statement st store store session s
  parsed_statement store session (err e) = (err (ExecError.parse e), session, store)
  parsed_statement store session panic = (panic, session, store)

  unfoldable pub execute : CharClass → st.Store → Session st → Bytes → Answer st
  execute classes store session sql = parsed_statement store session (parse classes sql)
