-- ===== src/Sql/RoundTrip.antt =====
-- The tokens of a printed expression, and which expressions are read back.
pub mod Words
pub mod Levels
pub mod Lifts
pub mod Heads
pub mod Pairs
pub mod Exprs
pub mod Steps
pub mod Names
pub mod Numbers
pub mod Texts
pub mod Lexed
pub mod Pieces
pub mod Clauses
pub mod Changes
pub mod Inserts
pub mod Selects
pub mod Creates
pub mod Whole
use choam.Base.{
  ℕ, suc, ◌+◌, ◌^◌, ◌<◌, ◌≡◌, Bool, true, false, List, [], ◌∷◌, ◌++◌, Bytes, length, utf8,
}
use choam.Base.Int.{ℤ, pos, negsuc}
use choam.Sql.Ast.{Literal, UnaryOp, BinaryOp, Expr}
use choam.Sql.Token.{Token}
use choam.Sql.Keyword.{is_keyword}
use choam.Sql.Display.{display_expr, display_op}
use choam.Sql.Parser.{Tokens}
use choam.Sql.RoundTrip.Levels.{word_at, null_tokens}

unfoldable pub op_token : BinaryOp → Token
op_token BinaryOp.add = Token.plus
op_token BinaryOp.sub = Token.minus
op_token BinaryOp.mul = Token.star
op_token BinaryOp.div = Token.slash
op_token BinaryOp.eq = Token.eq
op_token BinaryOp.ne = Token.ne
op_token BinaryOp.lt = Token.lt
op_token BinaryOp.le = Token.le
op_token BinaryOp.gt = Token.gt
op_token BinaryOp.ge = Token.ge
op_token BinaryOp.and_op = Token.word (utf8 "AND")
op_token BinaryOp.or_op = Token.word (utf8 "OR")

-- The tokens of the text of an expression that starts at byte `start`, in front of `rest`.
unfoldable pub expr_tokens : ℕ → Expr → Tokens → Tokens
expr_tokens start (Expr.literal Literal.null) rest = word_at (utf8 "NULL") start ∷ rest
expr_tokens start (Expr.literal (Literal.integer (pos n))) rest =
    (Token.integer (pos n), start) ∷ rest
expr_tokens start (Expr.literal (Literal.integer (negsuc n))) rest =
    (Token.minus, start) ∷ (Token.integer (pos (suc n)), start + 1) ∷ rest
expr_tokens start (Expr.literal (Literal.text s)) rest = (Token.str s, start) ∷ rest
expr_tokens start (Expr.literal (Literal.boolean true)) rest = word_at (utf8 "TRUE") start ∷ rest
expr_tokens start (Expr.literal (Literal.boolean false)) rest = word_at (utf8 "FALSE") start ∷ rest
expr_tokens start (Expr.column c) rest = word_at c start ∷ rest
expr_tokens start (Expr.unary UnaryOp.neg e) rest =
    (Token.l_paren, start)
    ∷ (Token.minus, start + 1)
    ∷ expr_tokens (start + 2) e ((Token.r_paren, start + 2 + length (display_expr e)) ∷ rest)
expr_tokens start (Expr.unary UnaryOp.not_op e) rest =
    (Token.l_paren, start)
    ∷ word_at (utf8 "NOT") (start + 1)
    ∷ expr_tokens (start + 5) e ((Token.r_paren, start + 5 + length (display_expr e)) ∷ rest)
expr_tokens start (Expr.binary l op r) rest =
    let op_at = start + 2 + length (display_expr l) in
    let right_at = op_at + 1 + length (display_op op) in
    let close : Token × ℕ = (Token.r_paren, right_at + length (display_expr r)) in
    (Token.l_paren, start)
    ∷ expr_tokens (start + 1) l ((op_token op, op_at) ∷ expr_tokens right_at r (close ∷ rest))
expr_tokens start (Expr.is_null e negated) rest =
    (Token.l_paren, start)
    ∷ expr_tokens (start + 1) e (null_tokens (start + 2 + length (display_expr e)) negated rest)

-- What a parsed expression satisfies: an integer literal is not negative and fits an `i64`, and a
-- column's name is no keyword.
abbrev pub IsParsed : Expr → Type 0
IsParsed (Expr.literal (Literal.integer (pos n))) = n < 2 ^ 63
IsParsed (Expr.literal (Literal.integer (negsuc n))) = ⊥
IsParsed (Expr.literal _) = Unit
IsParsed (Expr.column c) = is_keyword c ≡ false
IsParsed (Expr.unary op e) = IsParsed e
IsParsed (Expr.binary l op r) = IsParsed l × IsParsed r
IsParsed (Expr.is_null e negated) = IsParsed e

-- How many pairs of parentheses the text has.
unfoldable pub parens_of : Expr → ℕ
parens_of (Expr.literal l) = 0
parens_of (Expr.column c) = 0
parens_of (Expr.unary op e) = suc (parens_of e)
parens_of (Expr.binary l op r) = suc (parens_of l + parens_of r)
parens_of (Expr.is_null e negated) = suc (parens_of e)
