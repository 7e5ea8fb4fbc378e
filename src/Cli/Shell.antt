-- ===== src/Cli/Shell.antt =====
-- crates/cli/src/lib.rs: the shell, from lines of input to what it writes.
use choam.Base.{
  ℕ, zero, suc, not, Bool, true, false, ◌&&◌, ◌||◌, Option, none, some, List, [], ◌∷◌, ◌++◌, Bytes,
  Result, ok, err, panic, ◌>>=◌, length, is_empty, bytes_eq, starts_with, if◌then◌else◌, utf8,
}
use choam.Storage.{Storage}
use choam.Catalog.Tables.{TableHandle}
use choam.Txn.Error.{DbError}
use choam.Txn.Database
use choam.Sql.Lexer.{CharClass}
use choam.Sql.Ast.{Statement}
use choam.Sql.Token.{ParseError}
use choam.Sql.Display.{decimal}
use choam.Sql.Parser.Script.{parse}
use choam.Engine.Error.{ExecError}
use choam.Engine.Query.{QueryResult}
use choam.Engine.Session.{Session, execute_statement}
use choam.Cli.Chars.{trim, trim_start, split_whitespace}
use choam.Cli.Split.{split_statement}
use choam.Cli.Table.{format_table, describe, plural}

-- The texts of errors, which `thiserror` derives, and Rust's `{:?}` of a text.
pub record Texts (StoreError : Type 0) : Type 0 where
  pub parse_error : ParseError → Bytes
  pub exec_error : ExecError StoreError → Bytes
  pub db_error : DbError StoreError → Bytes
  pub quoted : Bytes → Bytes

-- No outcome of the code: the fuel of a loop was too small.
pub data OutOfFuel : Type 0 where
  out_of_fuel : OutOfFuel

module _ (st : Storage) (classes : CharClass) (texts : Texts st.StoreError) where
  -- The shell, the store it works on, and what it has written; the writes are taken to succeed.
  pub record Shell : Type 0 where
    pub store : st.Store
    pub session : Session st
    pub out : Bytes
    pub err_out : Bytes
    pub had_error : Bool

  abbrev pub Run : Type 0 → Type 0
  Run A = Result ⊥ A

  abbrev pub Loop : Type 0 → Type 0
  Loop A = Result OutOfFuel A

  abbrev pub within : {A : Type 0} → Run A → Loop A
  within (ok a) = ok a
  within (err e) = absurd e
  within panic = panic

  abbrev pub say : Shell → Bytes → Shell
  say sh text = record sh { out = sh.out ++ text }

  unfoldable pub fail : Shell → Bytes → Shell
  fail sh text = record sh {
    err_out = sh.err_out ++ (utf8 "error: " ++ (text ++ 10 ∷ []));
    had_error = true;
  }

  abbrev affected : Shell → QueryResult → Run Shell
  affected sh r = ok (
      say sh (
        decimal r.rows_affected ++ (utf8 " row" ++ (plural r.rows_affected ++ utf8 " affected\n"))))

  unfoldable pub report : Shell → Statement → QueryResult → Run Shell
  unfolding format_table decimal
  report sh (Statement.select _ _ _ _ _) r = do table ← format_table classes r; ok (say sh table)
  report sh (Statement.insert _ _ _) r = affected sh r
  report sh (Statement.update _ _ _) r = affected sh r
  report sh (Statement.delete _ _) r = affected sh r
  report sh _ r = ok (say sh (utf8 "OK\n"))

  -- The shell is the store's only user, so nothing changes it during a statement.
  unfoldable pub answered :
      Shell
      → Statement
      → Result (ExecError st.StoreError) QueryResult × Session st × st.Store
      → Run Shell
  unfolding fail report
  answered sh stmt (ok r, session, store) =
      report (record sh { session = session; store = store }) stmt r
  answered sh stmt (err e, session, store) =
      ok (fail (record sh { session = session; store = store }) (texts.exec_error e))
  answered sh stmt (panic, session, store) = panic

  unfoldable pub parsed : Shell → Result ParseError Statement → Run Shell
  unfolding fail answered
  parsed sh (ok stmt) = answered sh stmt (execute_statement st sh.store sh.store sh.session stmt)
  parsed sh (err e) = ok (fail sh (texts.parse_error e))
  parsed sh panic = panic

  unfoldable pub statement : Shell → Bytes → Run Shell
  unfolding parsed
  statement sh text = if is_empty (trim classes text) then ok sh else parsed sh (parse classes text)

  abbrev say_names : Shell → List TableHandle → Shell
  say_names sh [] = sh
  say_names sh (t ∷ ts) = say_names (say sh (t.schema.table_name ++ 10 ∷ [])) ts

  -- Each table that is wanted, and whether there was one.
  unfoldable pub say_schemas : Shell → Option Bytes → Bool → List TableHandle → Shell × Bool
  unfolding describe
  say_schemas sh want found [] = (sh, found)
  say_schemas sh none found (t ∷ ts) = say_schemas (say sh (describe t ++ 10 ∷ [])) none true ts
  say_schemas sh (some w) found (t ∷ ts) =
      let hit = bytes_eq t.schema.table_name w in
      say_schemas (if hit then say sh (describe t ++ 10 ∷ []) else sh) (some w) (found || hit) ts

  abbrev missing : Option Bytes → Shell × Bool → Shell
  missing (some w) (sh, false) = fail sh (utf8 "no such table " ++ texts.quoted w)
  missing _ (sh, found) = sh

  unfoldable pub tables_command :
      Shell → Result (DbError st.StoreError) (List TableHandle) → Run Shell
  unfolding fail
  tables_command sh (ok ts) = ok (say_names sh ts)
  tables_command sh (err e) = ok (fail sh (texts.db_error e))
  tables_command sh panic = panic

  abbrev second : List Bytes → Option Bytes
  second (a ∷ b ∷ words) = some b
  second _ = none

  unfoldable pub schema_command :
      Shell → Option Bytes → Result (DbError st.StoreError) (List TableHandle) → Run Shell
  unfolding fail say_schemas
  schema_command sh want (ok ts) = ok (missing want (say_schemas sh want false ts))
  schema_command sh want (err e) = ok (fail sh (texts.db_error e))
  schema_command sh want panic = panic

  unfoldable pub unknown_command : Shell → Bytes → Shell
  unfolding fail
  unknown_command sh text =
      fail sh (utf8 "unknown command " ++ (texts.quoted text ++ utf8 " (try .help)"))

  -- A dot command by its words; `false` tells the shell to stop.
  unfoldable pub command : Shell → Bytes → List Bytes → Run (Shell × Bool)
  unfolding tables_command schema_command unknown_command
  command sh text [] = ok (unknown_command sh text, true)
  command sh text (name ∷ words) =
      let tables = Database.list_tables st sh.store in
      if bytes_eq name (utf8 ".quit") || bytes_eq name (utf8 ".exit")
      then ok (sh, false)
      else if bytes_eq name (utf8 ".help")
      then ok (
        say sh (
            utf8
              "SQL statements end with `;`. Dot commands: .tables  .schema [table]  .help  .quit\n"),
        true,
      )
      else if bytes_eq name (utf8 ".tables")
      then (do sh' ← tables_command sh tables; ok (sh', true))
      else if bytes_eq name (utf8 ".schema")
      then (do sh' ← schema_command sh (second (name ∷ words)) tables; ok (sh', true))
      else ok (unknown_command sh text, true)

  unfoldable pub dot : Shell → Bytes → Run (Shell × Bool)
  unfolding command
  dot sh text = command sh text (split_whitespace classes text)

  abbrev pub split_or : {A : Type 0} → Option (Bytes × Bytes) → (Bytes → Bytes → A) → A → A
  split_or none found other = other
  split_or (some (stmt, rest)) found other = found stmt rest

  -- `while let Some((stmt, rest)) = split_statement(&buf)`: each round takes a semicolon.
  unfoldable pub drain : ℕ → Shell → Bytes → Loop (Shell × Bytes)
  unfolding statement
  drain zero sh buf = err out_of_fuel
  drain (suc fuel) sh buf =
      split_or (split_statement buf)
        (λ stmt rest. do sh' ← within (statement sh stmt); drain fuel sh' rest) (ok (sh, buf))

  abbrev prompt_text : Bytes → Bytes
  prompt_text buf = if is_empty (trim classes buf) then utf8 "choam> " else utf8 "   ...> "

  abbrev pub prompted : Bool → Shell → Bytes → Shell
  prompted true sh buf = say sh (prompt_text buf)
  prompted false sh buf = sh

  -- After the last line.
  unfoldable pub finish : Shell → Bytes → Run Shell
  unfolding statement
  finish sh buf = if not (is_empty (trim classes buf)) then statement sh buf else ok sh

  abbrev pub is_command : Bytes → Bytes → Bool
  is_command buf text =
      is_empty (trim classes buf) && starts_with (utf8 ".") (trim_start classes text)

  -- Each line with its line break, as `read_line` gives them.
  unfoldable pub run_lines : Bool → Shell → Bytes → List Bytes → Loop Shell
  unfolding finish dot drain
  run_lines prompt sh buf [] = within (finish (prompted prompt sh buf) buf)
  run_lines prompt sh buf (text ∷ lines) =
      let asked = prompted prompt sh buf in
      let commanded = (do
        (sh', goes_on) ← within (dot asked (trim classes text))
        let next = run_lines prompt sh' [] lines
        if goes_on then next else ok sh') in
      let read = (do
        (sh', rest) ← drain (suc (length (buf ++ text))) asked (buf ++ text)
        run_lines prompt sh' rest lines) in
      if is_command buf text then commanded else read

  abbrev pub opened : st.Store → Session st → Shell
  opened store session = record {
    store = store;
    session = session;
    out = [];
    err_out = [];
    had_error = false;
  }

  unfoldable pub run : Bool → st.Store → Session st → List Bytes → Loop Shell
  unfolding run_lines
  run prompt store session lines = run_lines prompt (opened store session) [] lines
