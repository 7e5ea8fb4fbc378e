-- ===== src/Sql/Parser/Total/Script.antt =====
-- Every text is parsed or refused.
use choam.Base.{
  ℕ, zero, suc, ◌≤◌, ◌<◌, ◌≢◌, List, [], ◌∷◌, Bytes, Result, ok, err, panic, ◌>>=◌, map_err, length,
  arith, utf8,
}
use choam.Sql.Ast.{Statement}
use choam.Sql.Token.{LexError, ParseError}
use choam.Sql.Lexer.{CharClass, lex}
use choam.Sql.Lexer.Fuel.{LettersAreWordChars, lex-Answers}
use choam.Sql.Parser.{Tokens, unexpected}
use choam.Sql.Parser.Statement.{statement}
use choam.Sql.Parser.Script.{
  skip_semicolons, ends_statement, statements_at, statements, parse_script, only, parse,
}
use choam.Base.Done.{Done-bind, Done-if, Answers, Answers-bind, Answers-ne-panic}
use choam.Sql.Parser.Total.{Fewer}
use choam.Sql.Parser.Total.Statements.{statement-Done}

length-skip_semicolons : (ts : Tokens) → length (skip_semicolons ts) ≤ length ts
unfolding skip_semicolons
length-skip_semicolons [] = omega arith
length-skip_semicolons (t ∷ ts) = ground (arith, length-skip_semicolons ts)

statements_at-Answers :
    (next : Tokens → Result ParseError (List Statement)) (ts : Tokens)
    → ((rest : Tokens) → length rest < length ts → Answers (next rest))
    → Answers (statements_at next ts)
unfolding statements_at
statements_at-Answers next [] h = tt
statements_at-Answers next (t ∷ ts) h =
    Done-bind (Fewer (suc (length ts))) (λ x. Unit) (statement (t ∷ ts)) _ (statement-Done (t ∷ ts))
      λ p fewer.
        let more : Result ParseError (List Statement) = next p.1 >>= λ rest. ok (p.0 ∷ rest) in
        Done-if (λ x. Unit) (ends_statement p.1) more
          (err (unexpected (utf8 "`;` or end of input") p.1))
          (λ _. Done-bind (λ x. Unit) (λ x. Unit) (next p.1) _ (h p.1 fewer) (λ _ _. tt)) (λ _. tt)

statements-Answers : (fuel : ℕ) (ts : Tokens) → length ts < fuel → Answers (statements fuel ts)
unfolding statements
statements-Answers zero ts h = absurd (omega arith)
statements-Answers (suc fuel) ts h =
    let shorter = length-skip_semicolons ts in
    statements_at-Answers (statements fuel) (skip_semicolons ts)
      λ rest f. statements-Answers fuel rest (omega arith)

module _ (chars : CharClass) (letters : LettersAreWordChars chars) where
  pub parse_script-Answers : (sql : Bytes) → Answers (parse_script chars sql)
  unfolding parse_script
  parse_script-Answers sql =
      Answers-bind (map_err ParseError.lex (lex chars sql)) _
        (mapped (lex chars sql) (lex-Answers chars letters sql))
        (λ ts. statements-Answers (suc (length ts)) ts (omega arith))
    where
      mapped : (r : Result LexError Tokens) → Answers r → Answers (map_err ParseError.lex r)
      mapped (ok ts) h = tt
      mapped (err e) h = tt
      mapped panic h = absurd h

  -- Every text is parsed to a list of statements or refused with an error, for character classes in
  -- which every letter is a word character: the loops over the statements and inside them end
  -- within their fuel, and nothing panics.
  pub parse_script-ne-panic : (sql : Bytes) → parse_script chars sql ≢ panic
  parse_script-ne-panic sql = Answers-ne-panic (parse_script chars sql) (parse_script-Answers sql)

  -- Every text is parsed to one statement or refused with an error, for character classes in which
  -- every letter is a word character: the parser ends within its fuel, and nothing panics.
  pub parse-ne-panic : (sql : Bytes) → parse chars sql ≢ panic
  unfolding parse
  parse-ne-panic sql =
      Answers-ne-panic (parse_script chars sql >>= only)
        (Answers-bind (parse_script chars sql) only (parse_script-Answers sql) single)
    where
      single : (ss : List Statement) → Answers (only ss)
      single [] = tt
      single (s ∷ []) = tt
      single (s ∷ s' ∷ ss) = tt
