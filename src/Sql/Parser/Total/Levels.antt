-- ===== src/Sql/Parser/Total/Levels.antt =====
-- Every level of the expression parser answers, and takes at least one token.
use choam.Base.{
  ℕ, zero, suc, ◌<◌, ◌≡◌, refl, Bool, true, false, Option, none, some, [], ◌∷◌, Bytes, ok, err,
  ◌>>=◌, length, arith, if◌then◌else◌, utf8,
}
use choam.Sql.Ast.{Literal, Expr, BinaryOp, UnaryOp}
use choam.Sql.Token.{Token}
use choam.Sql.Keyword.{is_keyword, eq_ignore_ascii_case}
use choam.Sql.Parser.{Tokens, Parse, tail, unexpected, is_next, expect, at_keyword, expect_keyword}
use choam.Sql.Parser.Expr.{
  keyword_op, cmp_op, add_op, mul_op, when_op, chain, level, primary_word, primary, unary_expr,
  mul_expr, add_expr, cmp_chain, cmp_expr, not_expr, and_expr, or_expr, expr, expression,
}
use choam.Base.Done.{Done, Done-bind, Done-weaken, Done-if}
use choam.Sql.Parser.Total.{
  Fewer, Short, tail-Short, at_keyword-Short, expect-Done, expect_keyword-Done,
}

-- A parser that answers on fewer than `n` tokens, and takes at least one.
abbrev pub Reads : {A : Type 0} → ℕ → (Tokens → Parse A) → Type 0
Reads n p = (ts : Tokens) → length ts < n → Done (Fewer (length ts)) (p ts)

-- An operator stands in front of its right operand.
abbrev pub TakesToken : (Tokens → Option BinaryOp) → Type 0
TakesToken op_at = op_at [] ≡ none

pub cmp_op-TakesToken : TakesToken cmp_op
unfolding cmp_op
cmp_op-TakesToken = refl

pub add_op-TakesToken : TakesToken add_op
unfolding add_op
add_op-TakesToken = refl

pub mul_op-TakesToken : TakesToken mul_op
unfolding mul_op
mul_op-TakesToken = refl

pub keyword_op-TakesToken : (kw : Bytes) (op : BinaryOp) → TakesToken (keyword_op kw op)
unfolding at_keyword
keyword_op-TakesToken kw op = refl

pub when_op-Done :
    (P : Expr × Tokens → Type 0) (o : Option BinaryOp) (next : BinaryOp → Parse Expr)
    (stop : Parse Expr)
    → ((op : BinaryOp) → o ≡ some op → Done P (next op))
    → Done P stop
    → Done P (when_op o next stop)
when_op-Done P none next stop h k = k
when_op-Done P (some op) next stop h k = h op refl

taken :
    (op_at : Tokens → Option BinaryOp) (ts : Tokens) (op : BinaryOp)
    → TakesToken op_at
    → op_at ts ≡ some op
    → Short (length ts) (tail ts)
taken op_at [] op h e = cc
taken op_at (t ∷ ts) op h e = omega arith

module _ (n : ℕ) (op_at : Tokens → Option BinaryOp) (operand : Tokens → Parse Expr)
    (takes : TakesToken op_at) (reads : Reads n operand) where
  chain-Done :
      (fuel : ℕ) (left : Expr) (ts : Tokens)
      → length ts < fuel
      → length ts < n
      → Done (Fewer (suc (length ts))) (chain op_at operand fuel left ts)
  unfolding chain
  chain-Done zero left ts h k = absurd (omega arith)
  chain-Done (suc fuel) left ts h k =
      when_op-Done (Fewer (suc (length ts))) (op_at ts) _ _
        (λ op at.
          let shorter = taken op_at ts op takes at in
          Done-bind (Fewer (length (tail ts))) (Fewer (suc (length ts))) (operand (tail ts)) _
            (reads (tail ts) (omega arith))
            (λ p fewer.
              Done-weaken (Fewer (suc (length p.1))) (Fewer (suc (length ts)))
                (chain op_at operand fuel (Expr.binary left op p.0) p.1)
                (chain-Done fuel (Expr.binary left op p.0) p.1 (omega arith) (omega arith))
                (λ q fewest. omega arith)))
        (omega arith)

  level-Done : Reads n (level op_at operand)
  unfolding level
  level-Done ts k =
      Done-bind (Fewer (length ts)) (Fewer (length ts)) (operand ts) _ (reads ts k) λ p fewer.
        Done-weaken (Fewer (suc (length p.1))) (Fewer (length ts))
          (chain op_at operand (suc (length p.1)) p.0 p.1)
          (chain-Done (suc (length p.1)) p.0 p.1 (omega arith) (omega arith))
          (λ q fewest. omega arith)

not_taken :
    (b : Bool) (ts : Tokens) (m : ℕ) → length ts < m → length (if b then tail ts else ts) < m
not_taken true ts m h = let shorter = tail-Short ts in omega arith
not_taken false ts m h = h

module _ (n : ℕ) (inner : Tokens → Parse Expr) (reads : Reads n inner) where
  primary_word-Done :
      (w : Bytes) (ts after : Tokens)
      → Short (length ts) after
      → Done (Fewer (length ts)) (primary_word inner w ts after)
  unfolding primary_word
  primary_word-Done w ts after h =
      let P = Fewer {A = Expr} (length ts) in
      let column =
        if is_keyword w
        then err (unexpected (utf8 "an expression") ts)
        else ok (Expr.column w, after) in
      let no =
        if eq_ignore_ascii_case w (utf8 "FALSE")
        then ok (Expr.literal (Literal.boolean false), after)
        else column in
      let yes₁ =
        if eq_ignore_ascii_case w (utf8 "TRUE")
        then ok (Expr.literal (Literal.boolean true), after)
        else no in
      Done-if P (eq_ignore_ascii_case w (utf8 "NULL")) (ok (Expr.literal Literal.null, after)) yes₁
        (λ _. h)
        λ _.
          Done-if P (eq_ignore_ascii_case w (utf8 "TRUE"))
            (ok (Expr.literal (Literal.boolean true), after)) no (λ _. h)
            λ _.
              Done-if P (eq_ignore_ascii_case w (utf8 "FALSE"))
                (ok (Expr.literal (Literal.boolean false), after)) column (λ _. h)
                λ _.
                  Done-if P (is_keyword w) (err (unexpected (utf8 "an expression") ts))
                    (ok (Expr.column w, after)) (λ _. tt) (λ _. h)

  primary-Done : Reads (suc n) (primary inner)
  unfolding primary
  primary-Done [] h = tt
  primary-Done ((Token.integer k, start) ∷ ts) h = omega arith
  primary-Done ((Token.str s, start) ∷ ts) h = omega arith
  primary-Done ((Token.word w, start) ∷ ts) h =
      primary_word-Done w ((Token.word w, start) ∷ ts) ts (omega arith)
  primary-Done ((Token.l_paren, start) ∷ ts) h =
      Done-bind (Fewer (length ts)) (Fewer (suc (length ts))) (inner ts) _ (reads ts (omega arith))
        λ p fewer.
          Done-bind (Short (length p.1)) (Fewer (suc (length ts)))
            (expect Token.r_paren (utf8 "`)`") p.1) _ (expect-Done Token.r_paren (utf8 "`)`") p.1)
            (λ closed shorter. omega arith)
  primary-Done ((t, start) ∷ ts) h = tt

  unary_expr-Done : Reads (suc n) (unary_expr inner)
  unfolding unary_expr
  unary_expr-Done [] h = primary-Done [] h
  unary_expr-Done (t ∷ ts) h =
      let wrap : Expr × Tokens → Parse Expr = λ p. ok (Expr.unary UnaryOp.neg p.0, p.1) in
      Done-if (Fewer {A = Expr} (suc (length ts))) (is_next Token.minus (t ∷ ts))
        (unary_expr inner ts >>= wrap) (primary inner (t ∷ ts))
        (λ minus.
          Done-bind (Fewer {A = Expr} (length ts)) (Fewer {A = Expr} (suc (length ts)))
            (unary_expr inner ts) wrap (unary_expr-Done ts (omega arith)) (λ p fewer. omega arith))
        (λ other. primary-Done (t ∷ ts) h)

  mul_expr-Done : Reads (suc n) (mul_expr inner)
  unfolding mul_expr
  mul_expr-Done = level-Done (suc n) mul_op (unary_expr inner) mul_op-TakesToken unary_expr-Done

  add_expr-Done : Reads (suc n) (add_expr inner)
  unfolding add_expr
  add_expr-Done = level-Done (suc n) add_op (mul_expr inner) add_op-TakesToken mul_expr-Done

  cmp_chain-Done :
      (fuel : ℕ) (left : Expr) (ts : Tokens)
      → length ts < fuel
      → length ts < suc n
      → Done (Fewer (suc (length ts))) (cmp_chain inner fuel left ts)
  unfolding cmp_chain
  cmp_chain-Done zero left ts h k = absurd (omega arith)
  cmp_chain-Done (suc fuel) left ts h k =
      Done-if (Fewer (suc (length ts))) _ _ _
        (λ is.
          let shorter = at_keyword-Short (utf8 "IS") ts is in
          let negated = at_keyword (utf8 "NOT") (tail ts) in
          let null_at = if negated then tail (tail ts) else tail ts in
          let behind : length null_at < length ts =
            not_taken negated (tail ts) (length ts) shorter in
          Done-bind (Short (length null_at)) (Fewer (suc (length ts)))
            (expect_keyword (utf8 "NULL") null_at) _ (expect_keyword-Done (utf8 "NULL") null_at)
            (λ after fewer.
              Done-weaken (Fewer (suc (length after))) (Fewer (suc (length ts)))
                (cmp_chain inner fuel (Expr.is_null left negated) after)
                (cmp_chain-Done fuel (Expr.is_null left negated) after (omega arith) (omega arith))
                (λ q fewest. omega arith)))
        (λ other.
          when_op-Done (Fewer (suc (length ts))) (cmp_op ts) _ _
            (λ op at.
              let shorter = taken cmp_op ts op cmp_op-TakesToken at in
              Done-bind (Fewer (length (tail ts))) (Fewer (suc (length ts)))
                (add_expr inner (tail ts)) _ (add_expr-Done (tail ts) (omega arith))
                (λ p fewer.
                  Done-weaken (Fewer (suc (length p.1))) (Fewer (suc (length ts)))
                    (cmp_chain inner fuel (Expr.binary left op p.0) p.1)
                    (cmp_chain-Done fuel (Expr.binary left op p.0) p.1 (omega arith) (omega arith))
                    (λ q fewest. omega arith)))
            (omega arith))

  cmp_expr-Done : Reads (suc n) (cmp_expr inner)
  unfolding cmp_expr
  cmp_expr-Done ts h =
      Done-bind (Fewer (length ts)) (Fewer (length ts)) (add_expr inner ts) _ (add_expr-Done ts h)
        λ p fewer.
          Done-weaken (Fewer (suc (length p.1))) (Fewer (length ts))
            (cmp_chain inner (suc (length p.1)) p.0 p.1)
            (cmp_chain-Done (suc (length p.1)) p.0 p.1 (omega arith) (omega arith))
            (λ q fewest. omega arith)

  not_expr-Done : Reads (suc n) (not_expr inner)
  unfolding not_expr
  not_expr-Done [] h = cmp_expr-Done [] h
  not_expr-Done (t ∷ ts) h =
      let wrap : Expr × Tokens → Parse Expr = λ p. ok (Expr.unary UnaryOp.not_op p.0, p.1) in
      Done-if (Fewer {A = Expr} (suc (length ts))) (at_keyword (utf8 "NOT") (t ∷ ts))
        (not_expr inner ts >>= wrap) (cmp_expr inner (t ∷ ts))
        (λ inverted.
          Done-bind (Fewer {A = Expr} (length ts)) (Fewer {A = Expr} (suc (length ts)))
            (not_expr inner ts) wrap (not_expr-Done ts (omega arith)) (λ p fewer. omega arith))
        (λ other. cmp_expr-Done (t ∷ ts) h)

  and_expr-Done : Reads (suc n) (and_expr inner)
  unfolding and_expr
  and_expr-Done =
      level-Done (suc n) (keyword_op (utf8 "AND") BinaryOp.and_op) (not_expr inner)
        (keyword_op-TakesToken (utf8 "AND") BinaryOp.and_op) not_expr-Done

  pub or_expr-Done : Reads (suc n) (or_expr inner)
  unfolding or_expr
  or_expr-Done =
      level-Done (suc n) (keyword_op (utf8 "OR") BinaryOp.or_op) (and_expr inner)
        (keyword_op-TakesToken (utf8 "OR") BinaryOp.or_op) and_expr-Done

-- With more fuel than tokens an expression is read or refused, and takes at least one token.
pub expr-Done : (fuel : ℕ) → Reads fuel (expr fuel)
unfolding expr
expr-Done zero ts h = absurd (omega arith)
expr-Done (suc fuel) ts h = or_expr-Done fuel (expr fuel) (expr-Done fuel) ts h

pub expression-Done : (ts : Tokens) → Done (Fewer (length ts)) (expression ts)
unfolding expression
expression-Done ts = expr-Done (suc (length ts)) ts (omega arith)
