-- ===== src/Sql/RoundTrip/Heads.antt =====
-- What the levels of the expression parser read, if `primary` reads a printed expression.
use choam.Base.{ℕ, ◌≡◌, refl, true, false, ok, utf8}
use choam.Base.Int.{pos, negsuc}
use choam.Sql.Ast.{Literal, UnaryOp, Expr}
use choam.Sql.Token.{Token}
use choam.Sql.Keyword.{eq_ignore_ascii_case, keywords}
use choam.Sql.Parser.{Tokens, Parse, at_keyword, is_next}
use choam.Sql.Parser.Expr.{primary, unary_expr, add_expr, not_expr, or_expr}
use choam.Sql.RoundTrip.{expr_tokens, IsParsed}
use choam.Sql.RoundTrip.Words.{not_reserved}
use choam.Sql.RoundTrip.Levels.{NoAdd, NoCmp, NoOr}
use choam.Sql.RoundTrip.Lifts.{unary_of_primary, add_of_unary, cmp_of_add, not_of_cmp, or_of_not}

no_minus :
    (start : ℕ) (e : Expr) (rest : Tokens)
    → IsParsed e
    → is_next Token.minus (expr_tokens start e rest) ≡ false
unfolding is_next expr_tokens
no_minus start (Expr.literal Literal.null) rest h = refl
no_minus start (Expr.literal (Literal.integer (pos n))) rest h = refl
no_minus start (Expr.literal (Literal.integer (negsuc n))) rest h = absurd h
no_minus start (Expr.literal (Literal.text s)) rest h = refl
no_minus start (Expr.literal (Literal.boolean true)) rest h = refl
no_minus start (Expr.literal (Literal.boolean false)) rest h = refl
no_minus start (Expr.column c) rest h = refl
no_minus start (Expr.unary UnaryOp.neg e) rest h = refl
no_minus start (Expr.unary UnaryOp.not_op e) rest h = refl
no_minus start (Expr.binary l op r) rest h = refl
no_minus start (Expr.is_null e negated) rest h = refl

pub no_not :
    (start : ℕ) (e : Expr) (rest : Tokens)
    → IsParsed e
    → at_keyword (utf8 "NOT") (expr_tokens start e rest) ≡ false
unfolding at_keyword eq_ignore_ascii_case expr_tokens utf8 keywords
no_not start (Expr.literal Literal.null) rest h = refl
no_not start (Expr.literal (Literal.integer (pos n))) rest h = refl
no_not start (Expr.literal (Literal.integer (negsuc n))) rest h = absurd h
no_not start (Expr.literal (Literal.text s)) rest h = refl
no_not start (Expr.literal (Literal.boolean true)) rest h = refl
no_not start (Expr.literal (Literal.boolean false)) rest h = refl
no_not start (Expr.column c) rest h = not_reserved c (utf8 "NOT") 13 h refl
no_not start (Expr.unary UnaryOp.neg e) rest h = refl
no_not start (Expr.unary UnaryOp.not_op e) rest h = refl
no_not start (Expr.binary l op r) rest h = refl
no_not start (Expr.is_null e negated) rest h = refl

-- The primary level reads the expression back, wherever its text starts.
abbrev pub Reads : (Tokens → Parse Expr) → Expr → Type 0
Reads inner e =
    (start : ℕ) (rest : Tokens) → primary inner (expr_tokens start e rest) ≡ ok (e, rest)

module _ (inner : Tokens → Parse Expr) (e : Expr) (parsed : IsParsed e)
    (reads : Reads inner e) where
  pub unary_reads :
      (start : ℕ) (rest : Tokens) → unary_expr inner (expr_tokens start e rest) ≡ ok (e, rest)
  unary_reads start rest =
      unary_of_primary inner (expr_tokens start e rest) rest e (no_minus start e rest parsed)
        (reads start rest)

  pub add_reads :
      (start : ℕ) (rest : Tokens)
      → NoAdd rest
      → add_expr inner (expr_tokens start e rest) ≡ ok (e, rest)
  add_reads start rest stop =
      add_of_unary inner (expr_tokens start e rest) rest e stop (unary_reads start rest)

  pub not_reads :
      (start : ℕ) (rest : Tokens)
      → NoCmp rest
      → not_expr inner (expr_tokens start e rest) ≡ ok (e, rest)
  not_reads start rest stop =
      not_of_cmp inner (expr_tokens start e rest) rest e (no_not start e rest parsed)
        (cmp_of_add inner (expr_tokens start e rest) rest e stop (add_reads start rest stop.0))

  pub or_reads :
      (start : ℕ) (rest : Tokens)
      → NoOr rest
      → or_expr inner (expr_tokens start e rest) ≡ ok (e, rest)
  or_reads start rest stop =
      or_of_not inner (expr_tokens start e rest) rest e stop (not_reads start rest stop.0.0)
