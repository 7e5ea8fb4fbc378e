-- ===== src/Sql/RoundTrip/Pairs.antt =====
-- Between parentheses, the two operands of a printed operator and the operator are read back.
use choam.Base.{ℕ, ◌≡◌, refl, false, none, some, ◌∷◌, ok, utf8}
use choam.Sql.Ast.{BinaryOp, Expr}
use choam.Sql.Token.{Token}
use choam.Sql.Keyword.{eq_ignore_ascii_case}
use choam.Sql.Parser.{Tokens, Parse, at_keyword}
use choam.Sql.Parser.Expr.{
  keyword_op, cmp_op, add_op, mul_op, unary_expr, mul_expr, add_expr, cmp_expr, not_expr, and_expr,
  or_expr,
}
use choam.Sql.Parser.Total.Levels.{add_op-TakesToken, mul_op-TakesToken, keyword_op-TakesToken}
use choam.Sql.RoundTrip.{op_token, expr_tokens, IsParsed}
use choam.Sql.RoundTrip.Levels.{
  NoAdd, NoOr, level_step, mul_stop, add_stop, and_stop, or_stop, cmp_step,
}
use choam.Sql.RoundTrip.Lifts.{cmp_of_add, not_of_cmp, or_of_not, r_paren-NoOr}
use choam.Sql.RoundTrip.Heads.{Reads, no_not, unary_reads, add_reads, not_reads}

abbrev pub closing : ℕ → Tokens → Tokens
closing close rest = (Token.r_paren, close) ∷ rest

module _ (inner : Tokens → Parse Expr) (l r : Expr) (l_parsed : IsParsed l) (r_parsed : IsParsed r)
    (l_reads : Reads inner l) (r_reads : Reads inner r) (start op_at right_at close : ℕ)
    (rest : Tokens) where
  abbrev pub right : Tokens
  right = expr_tokens right_at r (closing close rest)

  abbrev pub behind : BinaryOp → Tokens
  behind op = (op_token op, op_at) ∷ right

  abbrev pub ReadsPair : (Tokens → Parse Expr) → BinaryOp → Type 0
  ReadsPair p op = p (expr_tokens start l (behind op)) ≡ ok (Expr.binary l op r, closing close rest)

  ends : NoOr (closing close rest)
  ends = r_paren-NoOr close rest

  mul_pair : (op : BinaryOp) → mul_op (behind op) ≡ some op → ReadsPair (mul_expr inner) op
  unfolding mul_expr
  mul_pair op at =
      level_step mul_op (unary_expr inner) (expr_tokens start l (behind op)) (behind op)
        (closing close rest) l r op mul_op-TakesToken
        (unary_reads inner l l_parsed l_reads start (behind op)) at
        (unary_reads inner r r_parsed r_reads right_at (closing close rest)) ends.0.0.0.0

  add_pair :
      (op : BinaryOp)
      → mul_op (behind op) ≡ none
      → add_op (behind op) ≡ some op
      → ReadsPair (add_expr inner) op
  unfolding add_expr
  add_pair op no_mul at =
      level_step add_op (mul_expr inner) (expr_tokens start l (behind op)) (behind op)
        (closing close rest) l r op add_op-TakesToken
        (mul_stop inner (expr_tokens start l (behind op)) (behind op) l
          (unary_reads inner l l_parsed l_reads start (behind op)) no_mul)
        at
        (mul_stop inner right (closing close rest) r
          (unary_reads inner r r_parsed r_reads right_at (closing close rest)) ends.0.0.0.0)
        ends.0.0.0.1

  cmp_pair :
      (op : BinaryOp)
      → NoAdd (behind op)
      → at_keyword (utf8 "IS") (behind op) ≡ false
      → cmp_op (behind op) ≡ some op
      → ReadsPair (cmp_expr inner) op
  cmp_pair op no_add no_is at =
      cmp_step inner (closing close rest) l r op (expr_tokens start l (behind op)) (behind op)
        (add_reads inner l l_parsed l_reads start (behind op) no_add) no_is at
        (add_reads inner r r_parsed r_reads right_at (closing close rest) ends.0.0.0) ends.0.0.1
        ends.0.0.2

  of_cmp : (op : BinaryOp) → ReadsPair (cmp_expr inner) op → ReadsPair (or_expr inner) op
  of_cmp op read =
      or_of_not inner (expr_tokens start l (behind op)) (closing close rest) (Expr.binary l op r)
        ends
        (not_of_cmp inner (expr_tokens start l (behind op)) (closing close rest)
          (Expr.binary l op r) (no_not start l (behind op) l_parsed) read)

  of_add : (op : BinaryOp) → ReadsPair (add_expr inner) op → ReadsPair (or_expr inner) op
  of_add op read = of_cmp op (
      cmp_of_add inner (expr_tokens start l (behind op)) (closing close rest) (Expr.binary l op r)
        ends.0.0 read)

  of_mul : (op : BinaryOp) → ReadsPair (mul_expr inner) op → ReadsPair (or_expr inner) op
  of_mul op read = of_add op (
      add_stop inner (expr_tokens start l (behind op)) (closing close rest) (Expr.binary l op r)
        read ends.0.0.0.1)

  of_compared :
      (op : BinaryOp)
      → NoAdd (behind op)
      → at_keyword (utf8 "IS") (behind op) ≡ false
      → cmp_op (behind op) ≡ some op
      → ReadsPair (or_expr inner) op
  of_compared op no_add no_is at = of_cmp op (cmp_pair op no_add no_is at)

  and_pair : ReadsPair (and_expr inner) BinaryOp.and_op
  unfolding and_expr op_token mul_op add_op cmp_op at_keyword eq_ignore_ascii_case utf8
  and_pair =
      level_step (keyword_op (utf8 "AND") BinaryOp.and_op) (not_expr inner)
        (expr_tokens start l (behind BinaryOp.and_op)) (behind BinaryOp.and_op) (closing close rest)
        l r BinaryOp.and_op (keyword_op-TakesToken (utf8 "AND") BinaryOp.and_op)
        (not_reads inner l l_parsed l_reads start (behind BinaryOp.and_op)
          ((refl, refl), refl, refl))
        refl (not_reads inner r r_parsed r_reads right_at (closing close rest) ends.0.0) refl

  or_pair : ReadsPair (or_expr inner) BinaryOp.or_op
  unfolding or_expr op_token mul_op add_op cmp_op at_keyword eq_ignore_ascii_case utf8
  or_pair =
      level_step (keyword_op (utf8 "OR") BinaryOp.or_op) (and_expr inner)
        (expr_tokens start l (behind BinaryOp.or_op)) (behind BinaryOp.or_op) (closing close rest) l
        r BinaryOp.or_op (keyword_op-TakesToken (utf8 "OR") BinaryOp.or_op)
        (and_stop inner (expr_tokens start l (behind BinaryOp.or_op)) (behind BinaryOp.or_op) l
          (not_reads inner l l_parsed l_reads start (behind BinaryOp.or_op)
            ((refl, refl), refl, refl))
          refl)
        refl
        (and_stop inner right (closing close rest) r
          (not_reads inner r r_parsed r_reads right_at (closing close rest) ends.0.0) ends.0.1)
        refl

  pub binary_reads : (op : BinaryOp) → ReadsPair (or_expr inner) op
  unfolding op_token mul_op add_op cmp_op at_keyword
  binary_reads BinaryOp.add = of_add BinaryOp.add (add_pair BinaryOp.add refl refl)
  binary_reads BinaryOp.sub = of_add BinaryOp.sub (add_pair BinaryOp.sub refl refl)
  binary_reads BinaryOp.mul = of_mul BinaryOp.mul (mul_pair BinaryOp.mul refl)
  binary_reads BinaryOp.div = of_mul BinaryOp.div (mul_pair BinaryOp.div refl)
  binary_reads BinaryOp.eq = of_compared BinaryOp.eq (refl, refl) refl refl
  binary_reads BinaryOp.ne = of_compared BinaryOp.ne (refl, refl) refl refl
  binary_reads BinaryOp.lt = of_compared BinaryOp.lt (refl, refl) refl refl
  binary_reads BinaryOp.le = of_compared BinaryOp.le (refl, refl) refl refl
  binary_reads BinaryOp.gt = of_compared BinaryOp.gt (refl, refl) refl refl
  binary_reads BinaryOp.ge = of_compared BinaryOp.ge (refl, refl) refl refl
  binary_reads BinaryOp.and_op =
      or_stop inner (expr_tokens start l (behind BinaryOp.and_op)) (closing close rest)
        (Expr.binary l BinaryOp.and_op r) and_pair ends.1
  binary_reads BinaryOp.or_op = or_pair
