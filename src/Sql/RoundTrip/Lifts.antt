-- ===== src/Sql/RoundTrip/Lifts.antt =====
-- What one level of the expression parser reads, every level above it reads.
use choam.Base.{ℕ, ◌≡◌, refl, ◌∙◌, false, [], ◌∷◌, ok, utf8}
use choam.Sql.Ast.{UnaryOp, Expr}
use choam.Sql.Token.{Token}
use choam.Sql.Parser.{Tokens, Parse, at_keyword, is_next, expect}
use choam.Sql.Keyword.{eq_ignore_ascii_case}
use choam.Sql.Parser.Expr.{
  mul_op, add_op, cmp_op, primary, unary_expr, add_expr, cmp_expr, not_expr, or_expr,
}
use choam.Sql.RoundTrip.Levels.{
  NoAdd, NoCmp, NoOr, mul_stop, add_stop, cmp_stop, and_stop, or_stop, word_at,
}

module _ (inner : Tokens → Parse Expr) where
  unary_plain :
      (ts : Tokens) → is_next Token.minus ts ≡ false → unary_expr inner ts ≡ primary inner ts
  unfolding unary_expr
  unary_plain [] h = refl
  unary_plain (t ∷ ts) h = rw h

  not_plain :
      (ts : Tokens) → at_keyword (utf8 "NOT") ts ≡ false → not_expr inner ts ≡ cmp_expr inner ts
  unfolding not_expr
  not_plain [] h = refl
  not_plain (t ∷ ts) h = rw h

  module _ (ts rest : Tokens) (e : Expr) where
    pub unary_of_primary :
        is_next Token.minus ts ≡ false
        → primary inner ts ≡ ok (e, rest)
        → unary_expr inner ts ≡ ok (e, rest)
    unary_of_primary h read = unary_plain ts h ∙ read

    pub add_of_unary :
        NoAdd rest → unary_expr inner ts ≡ ok (e, rest) → add_expr inner ts ≡ ok (e, rest)
    add_of_unary (m, a) read = add_stop inner ts rest e (mul_stop inner ts rest e read m) a

    pub cmp_of_add :
        NoCmp rest → add_expr inner ts ≡ ok (e, rest) → cmp_expr inner ts ≡ ok (e, rest)
    cmp_of_add (a, is_free, c) read = cmp_stop inner ts rest e read is_free c

    pub not_of_cmp :
        at_keyword (utf8 "NOT") ts ≡ false
        → cmp_expr inner ts ≡ ok (e, rest)
        → not_expr inner ts ≡ ok (e, rest)
    not_of_cmp h read = not_plain ts h ∙ read

    pub or_of_not : NoOr rest → not_expr inner ts ≡ ok (e, rest) → or_expr inner ts ≡ ok (e, rest)
    or_of_not ((c, a), o) read = or_stop inner ts rest e (and_stop inner ts rest e read a) o

  pub minus_of_unary :
      (ts rest : Tokens) (start : ℕ) (e : Expr)
      → unary_expr inner ts ≡ ok (e, rest)
      → unary_expr inner ((Token.minus, start) ∷ ts) ≡ ok (Expr.unary UnaryOp.neg e, rest)
  unfolding unary_expr is_next
  minus_of_unary ts rest start e read = rw read

  pub not_not :
      (ts rest : Tokens) (start : ℕ) (e : Expr)
      → not_expr inner ts ≡ ok (e, rest)
      → not_expr inner (word_at (utf8 "NOT") start ∷ ts) ≡ ok (Expr.unary UnaryOp.not_op e, rest)
  unfolding not_expr at_keyword eq_ignore_ascii_case utf8
  not_not ts rest start e read = rw read

  pub primary_parens :
      (ts rest : Tokens) (start close : ℕ) (e : Expr)
      → inner ts ≡ ok (e, (Token.r_paren, close) ∷ rest)
      → primary inner ((Token.l_paren, start) ∷ ts) ≡ ok (e, rest)
  unfolding primary expect is_next
  primary_parens ts rest start close e read = rw read

-- A closing parenthesis ends every level.
pub r_paren-NoOr : (start : ℕ) (rest : Tokens) → NoOr ((Token.r_paren, start) ∷ rest)
unfolding mul_op add_op cmp_op at_keyword
r_paren-NoOr start rest = ((((refl, refl), refl, refl), refl), refl)
