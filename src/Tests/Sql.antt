-- ===== src/Tests/Sql.antt =====
-- Small runs of the lexer and of the text of statements.
use choam.Base.{◌≡◌, refl, true, some, [], ◌∷◌, ok, err, utf8}
use choam.Base.Int.{pos}
use choam.Sql.Ast.{Literal, UnaryOp, BinaryOp, Expr, Projection, Statement}
use choam.Sql.Token.{Token, unexpected_char, unterminated_string, integer_out_of_range}
use choam.Sql.Display.{
  display, display_expr, display_literal, display_op, display_filter, join, decimal, digits_onto,
  integer_text, double_quotes,
}
use choam.Sql.Lexer.{
  lex, lex_from, lex_step, lex_other, symbol, comparator, string_body, digits, word_len, char_len,
  code_point, long_code_point,
}
use choam.Tests.Fixtures.{ascii}

lex_run :
    lex ascii (utf8 "ab<=10 <>'x''y'")
    ≡ ok (
        (Token.word (utf8 "ab"), 0)
        ∷ (Token.le, 2)
        ∷ (Token.integer (pos 10), 4)
        ∷ (Token.ne, 7)
        ∷ (Token.str (utf8 "x'y"), 9)
        ∷ [])
unfolding lex lex_from lex_step lex_other symbol comparator string_body digits word_len char_len
    code_point long_code_point utf8
lex_run = refl

lex_errors :
    (lex ascii (utf8 "a !") ≡ err (unexpected_char 33 2))
    × (lex ascii (utf8 "a 'b") ≡ err (unterminated_string 2))
    × (lex ascii (utf8 "9223372036854775808") ≡ err (integer_out_of_range 0))
unfolding lex lex_from lex_step lex_other symbol comparator string_body digits word_len char_len
    code_point long_code_point utf8
lex_errors = (refl, refl, refl)

display_run :
    display (
      Statement.select Projection.all
        (utf8 "t")
        (some (
          Expr.binary
            (Expr.column (utf8 "n"))
            BinaryOp.ge
            (Expr.unary UnaryOp.neg (Expr.literal (Literal.integer (pos 120))))))
        (some (record { column = utf8 "n"; descending = true }))
        (some 10))
    ≡ utf8 "SELECT * FROM t WHERE (n >= (-120)) ORDER BY n DESC LIMIT 10"
unfolding display display_expr display_literal display_op display_filter join decimal digits_onto
    integer_text double_quotes utf8
display_run = refl
