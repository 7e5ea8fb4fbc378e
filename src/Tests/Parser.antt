-- ===== src/Tests/Parser.antt =====
-- Runs of the lexer's and the parser's theorems, and of the parser.
use choam.Base.{◌≡◌, ◌≢◌, refl, true, none, some, [], ◌∷◌, ok, err, panic, utf8, arith}
use choam.Base.Int.{pos}
use choam.Sql.Ast.{Literal, BinaryOp, UnaryOp, Expr, Projection, Statement}
use choam.Sql.Lexer.{lex, lex_from}
use choam.Sql.Lexer.Fuel.{lex_enough}
use choam.Sql.Parser.Script.{parse_script, parse}
use choam.Sql.Parser.Total.Script.{parse_script-ne-panic, parse-ne-panic}
use choam.Sql.Token.{Token, ParseError, Found}
use choam.Sql.Lexer.{
  lex_step, lex_other, symbol, comparator, string_body, digits, word_len, char_len, code_point,
  long_code_point,
}
use choam.Sql.Keyword.{eq_ignore_ascii_case, keywords, is_any, is_keyword}
use choam.Sql.Parser.{
  unexpected, is_next, at_keyword, expect_keyword, ident, comma_list, ident_list,
}
use choam.Sql.Parser.Expr.{
  cmp_op, add_op, mul_op, chain, level, primary_word, primary, unary_expr, mul_expr, add_expr,
  cmp_chain, cmp_expr, not_expr, and_expr, or_expr, expr, expression,
}
use choam.Sql.Parser.Statement.{
  statement, select, projection, opt_where, order_by, direction, limit, limit_value,
}
use choam.Sql.Parser.Script.{skip_semicolons, statements_at, statements}
use choam.Sql.Display.{display}
use choam.Sql.RoundTrip.Whole.{IsParsedStatement, parse-display}
use choam.Tests.Fixtures.{ascii, ascii-DocumentedClasses, ascii-LettersAreWordChars}

lex_enough_example :
    (lex_from ascii 20 0 (utf8 "a <= 'b;'") ≡ lex ascii (utf8 "a <= 'b;'"))
    × (lex ascii (utf8 "a <= 'b;'") ≢ panic)
unfolding utf8
lex_enough_example = lex_enough ascii ascii-LettersAreWordChars (utf8 "a <= 'b;'") 20 (omega arith)

parse_script-ne-panic_example :
    parse_script ascii (utf8 "begin; select a from t where not a = 1;;") ≢ panic
parse_script-ne-panic_example =
    parse_script-ne-panic ascii ascii-LettersAreWordChars
      (utf8 "begin; select a from t where not a = 1;;")

parse-ne-panic_example : parse ascii (utf8 "delete from t where ((a") ≢ panic
parse-ne-panic_example =
    parse-ne-panic ascii ascii-LettersAreWordChars (utf8 "delete from t where ((a")

parse_run :
    parse ascii (utf8 "select a from t where not a + 1 = -b order by a desc;")
    ≡ ok (
        Statement.select
          (Projection.columns (utf8 "a" ∷ []))
          (utf8 "t")
          (some (
            Expr.unary UnaryOp.not_op (
              Expr.binary
                (Expr.binary
                  (Expr.column (utf8 "a"))
                  BinaryOp.add
                  (Expr.literal (Literal.integer (pos 1))))
                BinaryOp.eq
                (Expr.unary UnaryOp.neg (Expr.column (utf8 "b"))))))
          (some (record { column = utf8 "a"; descending = true }))
          none)
unfolding parse parse_script statements statements_at skip_semicolons statement at_keyword
    eq_ignore_ascii_case select projection ident_list comma_list ident is_keyword is_any keywords
    is_next expect_keyword opt_where order_by direction limit expression expr or_expr and_expr
    not_expr cmp_expr cmp_chain cmp_op add_expr add_op mul_expr mul_op unary_expr primary
    primary_word level chain lex lex_from lex_step lex_other symbol comparator string_body digits
    word_len char_len code_point long_code_point utf8
parse_run = refl

limit_at_end :
    parse ascii (utf8 "select * from t limit")
    ≡ err (ParseError.unexpected (Found.token (Token.word (utf8 "limit"))) (utf8 "an integer") 16)
unfolding parse parse_script statements statements_at skip_semicolons statement at_keyword
    eq_ignore_ascii_case select projection ident_list comma_list ident is_keyword is_any keywords
    is_next expect_keyword opt_where order_by direction limit limit_value unexpected lex lex_from
    lex_step lex_other symbol comparator string_body digits word_len char_len code_point
    long_code_point utf8
limit_at_end = refl

-- SELECT a FROM t WHERE ((a + 1) <> 'x') ORDER BY a DESC LIMIT 5
abbrev query : Statement
query =
    Statement.select (Projection.columns (utf8 "a" ∷ [])) (utf8 "t")
      (some (
        Expr.binary
          (Expr.binary (Expr.column (utf8 "a")) BinaryOp.add
            (Expr.literal (Literal.integer (pos 1))))
          BinaryOp.ne (Expr.literal (Literal.text (utf8 "x")))))
      (some (record { column = utf8 "a"; descending = true })) (some 5)

query-IsParsedStatement : IsParsedStatement ascii ascii-DocumentedClasses query
unfolding word_len char_len code_point is_keyword is_any keywords eq_ignore_ascii_case utf8
query-IsParsedStatement = (
  (((refl, refl), refl), tt),
  ((refl, refl), refl),
  (((refl, omega arith), tt), (((refl, refl), tt), tt)),
  ((refl, refl), refl),
  omega arith,
)

parse-display_example : parse ascii (display query) ≡ ok query
parse-display_example = parse-display ascii ascii-DocumentedClasses query query-IsParsedStatement
