-- ===== src/Sql/Parser/Script.antt =====
-- crates/sql/src/parser.rs: scripts, and single statements.
use choam.Base.{
  ℕ, zero, suc, Bool, true, List, [], ◌∷◌, Bytes, Result, ok, err, panic, ◌>>=◌, map_err, length,
  if◌then◌else◌, utf8,
}
use choam.Sql.Ast.{Statement}
use choam.Sql.Token.{Token, ParseError, another_statement, empty}
use choam.Sql.Lexer.{CharClass, lex}
use choam.Sql.Parser.{Tokens, unexpected, is_next}
use choam.Sql.Parser.Statement.{statement}

-- `while p.eat(&Token::Semicolon) {}`
unfoldable pub skip_semicolons : Tokens → Tokens
unfolding is_next
skip_semicolons [] = []
skip_semicolons (t ∷ ts) =
    let after = skip_semicolons ts in if is_next Token.semicolon (t ∷ ts) then after else t ∷ ts

-- `None | Some(Token::Semicolon)`
abbrev pub ends_statement : Tokens → Bool
ends_statement [] = true
ends_statement ((t, start) ∷ ts) = is_next Token.semicolon ((t, start) ∷ ts)

-- The body of the loop of `parse_script`, before a token or the end; `next` is the loop.
unfoldable pub statements_at :
    (Tokens → Result ParseError (List Statement)) → Tokens → Result ParseError (List Statement)
unfolding statement unexpected
statements_at next [] = ok []
statements_at next (t ∷ ts) = do
  (s, after) ← statement (t ∷ ts)
  let more = (do rest ← next after; ok (s ∷ rest))
  if ends_statement after then more else err (unexpected (utf8 "`;` or end of input") after)

-- The loop of `parse_script`; `fuel` bounds its statements.
unfoldable pub statements : ℕ → Tokens → Result ParseError (List Statement)
unfolding skip_semicolons statements_at
statements zero ts = panic
statements (suc fuel) ts = statements_at (statements fuel) (skip_semicolons ts)

unfoldable pub parse_script : CharClass → Bytes → Result ParseError (List Statement)
unfolding statements
parse_script chars sql = do
  ts ← map_err ParseError.lex (lex chars sql)
  statements (suc (length ts)) ts

abbrev pub only : List Statement → Result ParseError Statement
only [] = err empty
only (s ∷ []) = ok s
only (s ∷ s' ∷ ss) = err (ParseError.unexpected another_statement (utf8 "end of input") 0)

unfoldable pub parse : CharClass → Bytes → Result ParseError Statement
unfolding parse_script
parse chars sql = do stmts ← parse_script chars sql; only stmts
