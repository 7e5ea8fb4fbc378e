-- ===== src/Sql/Parser/Expr.antt =====
-- crates/sql/src/parser.rs: expressions, by precedence climbing. Each level takes the parser for
-- what stands in parentheses as a parameter.
use choam.Base.{
  ℕ, zero, suc, true, false, Option, none, some, [], ◌∷◌, Bytes, ok, err, panic, ◌>>=◌, length,
  if◌then◌else◌, utf8,
}
use choam.Sql.Ast.{Literal, UnaryOp, BinaryOp, Expr}
use choam.Sql.Token.{Token}
use choam.Sql.Keyword.{eq_ignore_ascii_case, is_keyword}
use choam.Sql.Parser.{Tokens, Parse, tail, unexpected, is_next, expect, at_keyword, expect_keyword}

abbrev pub keyword_op : Bytes → BinaryOp → Tokens → Option BinaryOp
keyword_op kw op ts = if at_keyword kw ts then some op else none

unfoldable pub cmp_op : Tokens → Option BinaryOp
cmp_op ((Token.eq, start) ∷ ts) = some BinaryOp.eq
cmp_op ((Token.ne, start) ∷ ts) = some BinaryOp.ne
cmp_op ((Token.lt, start) ∷ ts) = some BinaryOp.lt
cmp_op ((Token.le, start) ∷ ts) = some BinaryOp.le
cmp_op ((Token.gt, start) ∷ ts) = some BinaryOp.gt
cmp_op ((Token.ge, start) ∷ ts) = some BinaryOp.ge
cmp_op _ = none

unfoldable pub add_op : Tokens → Option BinaryOp
add_op ((Token.plus, start) ∷ ts) = some BinaryOp.add
add_op ((Token.minus, start) ∷ ts) = some BinaryOp.sub
add_op _ = none

unfoldable pub mul_op : Tokens → Option BinaryOp
mul_op ((Token.star, start) ∷ ts) = some BinaryOp.mul
mul_op ((Token.slash, start) ∷ ts) = some BinaryOp.div
mul_op _ = none

abbrev pub when_op : Option BinaryOp → (BinaryOp → Parse Expr) → Parse Expr → Parse Expr
when_op none next stop = stop
when_op (some op) next stop = next op

-- The loop of a left-associative level, from behind its first operand; `fuel` bounds its rounds.
unfoldable pub chain :
    (Tokens → Option BinaryOp) → (Tokens → Parse Expr) → ℕ → Expr → Tokens → Parse Expr
chain op_at operand zero left ts = panic
chain op_at operand (suc fuel) left ts =
    when_op (op_at ts)
      (λ op. do
        (right, after) ← operand (tail ts)
        chain op_at operand fuel (Expr.binary left op right) after)
      (ok (left, ts))

unfoldable pub level : (Tokens → Option BinaryOp) → (Tokens → Parse Expr) → Tokens → Parse Expr
unfolding chain
level op_at operand ts = do
  (left, after) ← operand ts
  chain op_at operand (suc (length after)) left after

module _ (parenthesized : Tokens → Parse Expr) where
  unfoldable pub primary_word : Bytes → Tokens → Tokens → Parse Expr
  primary_word w ts after =
      if eq_ignore_ascii_case w (utf8 "NULL")
      then ok (Expr.literal Literal.null, after)
      else if eq_ignore_ascii_case w (utf8 "TRUE")
      then ok (Expr.literal (Literal.boolean true), after)
      else if eq_ignore_ascii_case w (utf8 "FALSE")
      then ok (Expr.literal (Literal.boolean false), after)
      else if is_keyword w
      then err (unexpected (utf8 "an expression") ts)
      else ok (Expr.column w, after)

  unfoldable pub primary : Tokens → Parse Expr
  unfolding primary_word expect
  primary ((Token.integer n, start) ∷ ts) = ok (Expr.literal (Literal.integer n), ts)
  primary ((Token.str s, start) ∷ ts) = ok (Expr.literal (Literal.text s), ts)
  primary ((Token.l_paren, start) ∷ ts) = do
    (e, after) ← parenthesized ts
    closed ← expect Token.r_paren (utf8 "`)`") after
    ok (e, closed)
  primary ((Token.word w, start) ∷ ts) = primary_word w ((Token.word w, start) ∷ ts) ts
  primary ts = err (unexpected (utf8 "an expression") ts)

  unfoldable pub unary_expr : Tokens → Parse Expr
  unfolding primary is_next
  unary_expr [] = primary []
  unary_expr (t ∷ ts) =
      let negated = (do (e, after) ← unary_expr ts; ok (Expr.unary UnaryOp.neg e, after)) in
      if is_next Token.minus (t ∷ ts) then negated else primary (t ∷ ts)

  unfoldable pub mul_expr : Tokens → Parse Expr
  unfolding level unary_expr mul_op
  mul_expr ts = level mul_op unary_expr ts

  unfoldable pub add_expr : Tokens → Parse Expr
  unfolding level mul_expr add_op
  add_expr ts = level add_op mul_expr ts

  -- The loop of `cmp_expr` from behind its first operand.
  unfoldable pub cmp_chain : ℕ → Expr → Tokens → Parse Expr
  unfolding add_expr cmp_op at_keyword expect_keyword
  cmp_chain zero left ts = panic
  cmp_chain (suc fuel) left ts =
      let is_null = do
        let negated = at_keyword (utf8 "NOT") (tail ts)
        after ← expect_keyword (utf8 "NULL") (if negated then tail (tail ts) else tail ts)
        cmp_chain fuel (Expr.is_null left negated) after
      in let compared =
          when_op (cmp_op ts)
            (λ op. do
              (right, after) ← add_expr (tail ts)
              cmp_chain fuel (Expr.binary left op right) after)
            (ok (left, ts)) in
        if at_keyword (utf8 "IS") ts then is_null else compared

  unfoldable pub cmp_expr : Tokens → Parse Expr
  unfolding add_expr cmp_chain
  cmp_expr ts = do (left, after) ← add_expr ts; cmp_chain (suc (length after)) left after

  unfoldable pub not_expr : Tokens → Parse Expr
  unfolding cmp_expr at_keyword
  not_expr [] = cmp_expr []
  not_expr (t ∷ ts) =
      let inverted = (do (e, after) ← not_expr ts; ok (Expr.unary UnaryOp.not_op e, after)) in
      if at_keyword (utf8 "NOT") (t ∷ ts) then inverted else cmp_expr (t ∷ ts)

  unfoldable pub and_expr : Tokens → Parse Expr
  unfolding level not_expr
  and_expr ts = level (keyword_op (utf8 "AND") BinaryOp.and_op) not_expr ts

  unfoldable pub or_expr : Tokens → Parse Expr
  unfolding level and_expr
  or_expr ts = level (keyword_op (utf8 "OR") BinaryOp.or_op) and_expr ts

-- `fuel` bounds how deep parentheses are nested.
unfoldable pub expr : ℕ → Tokens → Parse Expr
expr zero ts = panic
expr (suc fuel) ts = or_expr (expr fuel) ts

-- The parser's `expr`: no expression has more parentheses than tokens.
unfoldable pub expression : Tokens → Parse Expr
unfolding expr
expression ts = expr (suc (length ts)) ts
