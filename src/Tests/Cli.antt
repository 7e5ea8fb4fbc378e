-- ===== src/Tests/Cli.antt =====
-- Runs of the shell's theorems and of a script.
use choam.Base.{Bytes, err, ◌++◌, ◌≡◌, ◌↔◌, refl, some, ◌∷◌, utf8}
use choam.Storage.Memory.{memory, memory_laws}
use choam.Cli.Split.{split_from, split_statement}
use choam.Cli.Split.Laws.{IsStatement, split_statement_iff}
use choam.Cli.Shell.{Texts}
use choam.Engine.Session.{new_session}
use choam.Engine.Session.Script.{run_statements, execute_script}
use choam.Engine.Session.Ran.{ScriptOutcome, execute_script-ScriptOutcome}
use choam.Engine.Session.{execute_statement}
use choam.Engine.Error.{already_in_transaction}
use choam.Sql.Parser.Script.{parse_script, statements, statements_at, skip_semicolons}
use choam.Sql.Parser.Statement.{statement}
use choam.Sql.Parser.{at_keyword, is_next}
use choam.Sql.Keyword.{eq_ignore_ascii_case}
use choam.Sql.Lexer.{
  lex, lex_from, lex_step, lex_other, symbol, word_len, char_len, code_point, long_code_point,
}
use choam.Tests.Fixtures.{ascii, one_table}

split_statement_iff_example :
    (split_statement (utf8 "a ';';b") ≡ some (utf8 "a ';'", utf8 "b"))
    ↔ ((utf8 "a ';';b" ≡ utf8 "a ';'" ++ 59 ∷ utf8 "b") × IsStatement (utf8 "a ';'"))
split_statement_iff_example = split_statement_iff (utf8 "a ';';b") (utf8 "a ';'") (utf8 "b")

split_run : split_statement (utf8 "a ';';b") ≡ some (utf8 "a ';'", utf8 "b")
unfolding split_statement split_from utf8
split_run = refl

abbrev texts : Texts memory.StoreError
texts = record {
  parse_error = λ e. utf8 "parse";
  exec_error = λ e. utf8 "exec";
  db_error = λ e. utf8 "db";
  quoted = λ w. w;
}

-- A transaction that is opened twice: the second BEGIN ends the script.
abbrev twice : Bytes
twice = utf8 "begin; begin; commit"

execute_script-ScriptOutcome_example :
    ScriptOutcome memory one_table
      (new_session memory)
      (parse_script ascii twice)
      (execute_script memory ascii one_table (new_session memory) twice)
execute_script-ScriptOutcome_example =
    execute_script-ScriptOutcome memory memory_laws ascii one_table (new_session memory) twice

script_run :
    (execute_script memory ascii one_table (new_session memory) twice).0
    ≡ err already_in_transaction
unfolding execute_script run_statements execute_statement parse_script statements statements_at
    skip_semicolons statement at_keyword eq_ignore_ascii_case is_next lex lex_from lex_step
    lex_other symbol word_len char_len code_point long_code_point utf8
script_run = refl
