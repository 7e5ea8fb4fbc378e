-- ===== src/Sql/RoundTrip/Exprs.antt =====
-- The expression parser reads the tokens of a printed expression back.
use choam.Base.{
  ℕ, zero, suc, ◌+◌, ◌≤◌, ◌≡◌, refl, Bool, true, false, ◌∷◌, Bytes, ok, length, utf8, arith,
}
use choam.Base.Int.{pos, negsuc}
use choam.Sql.Ast.{Literal, UnaryOp, Expr}
use choam.Sql.Token.{Token}
use choam.Sql.Keyword.{eq_ignore_ascii_case, is_keyword, keywords}
use choam.Sql.Display.{display_expr, display_op}
use choam.Sql.Parser.{Tokens, Parse, at_keyword}
use choam.Sql.Parser.Expr.{add_op, mul_op, primary, primary_word, or_expr, expr, expression}
use choam.Sql.RoundTrip.{op_token, expr_tokens, IsParsed, parens_of}
use choam.Sql.RoundTrip.Words.{not_reserved}
use choam.Sql.RoundTrip.Levels.{word_at, null_tokens, null_end, NoAdd, NoOr, null_step}
use choam.Sql.RoundTrip.Lifts.{
  add_of_unary, cmp_of_add, not_of_cmp, or_of_not, minus_of_unary, not_not, primary_parens,
  r_paren-NoOr,
}
use choam.Sql.RoundTrip.Heads.{Reads, no_not, unary_reads, add_reads, not_reads, or_reads}
use choam.Sql.RoundTrip.Pairs.{closing, binary_reads}

minus_no_not :
    (start : ℕ) (ts : Tokens) → at_keyword (utf8 "NOT") ((Token.minus, start) ∷ ts) ≡ false
unfolding at_keyword
minus_no_not start ts = refl

null_NoAdd : (start : ℕ) (negated : Bool) (rest : Tokens) → NoAdd (null_tokens start negated rest)
unfolding null_tokens mul_op add_op
null_NoAdd start false rest = (refl, refl)
null_NoAdd start true rest = (refl, refl)

module _ (inner : Tokens → Parse Expr) (e : Expr) (parsed : IsParsed e) (reads : Reads inner e)
    (start close : ℕ) (rest : Tokens) where
  neg_reads :
      (at : ℕ)
      → or_expr inner ((Token.minus, at) ∷ expr_tokens start e (closing close rest))
        ≡ ok (Expr.unary UnaryOp.neg e, closing close rest)
  neg_reads at =
      let ends = r_paren-NoOr close rest in
      let ts : Tokens = (Token.minus, at) ∷ expr_tokens start e (closing close rest) in
      let negated : Expr = Expr.unary UnaryOp.neg e in
      or_of_not inner ts (closing close rest) negated ends (
        not_of_cmp inner ts (closing close rest) negated
          (minus_no_not at (expr_tokens start e (closing close rest)))
          (cmp_of_add inner ts (closing close rest) negated ends.0.0 (
            add_of_unary inner ts (closing close rest) negated ends.0.0.0 (
              minus_of_unary inner (expr_tokens start e (closing close rest)) (closing close rest)
                at e (unary_reads inner e parsed reads start (closing close rest))))))

  not_op_reads :
      (at : ℕ)
      → or_expr inner (word_at (utf8 "NOT") at ∷ expr_tokens start e (closing close rest))
        ≡ ok (Expr.unary UnaryOp.not_op e, closing close rest)
  not_op_reads at =
      let ends = r_paren-NoOr close rest in
      or_of_not inner (word_at (utf8 "NOT") at ∷ expr_tokens start e (closing close rest))
        (closing close rest) (Expr.unary UnaryOp.not_op e) ends
        (not_not inner (expr_tokens start e (closing close rest)) (closing close rest) at e
          (not_reads inner e parsed reads start (closing close rest) ends.0.0))

  null_reads :
      (at : ℕ) (negated : Bool)
      → or_expr inner (expr_tokens start e (null_tokens at negated rest))
        ≡ ok (Expr.is_null e negated, closing (null_end at negated) rest)
  null_reads at negated =
      let after : Tokens = null_tokens at negated rest in
      let ts : Tokens = expr_tokens start e after in
      or_of_not inner ts (closing (null_end at negated) rest) (Expr.is_null e negated)
        (r_paren-NoOr (null_end at negated) rest)
        (not_of_cmp inner ts (closing (null_end at negated) rest) (Expr.is_null e negated)
          (no_not start e after parsed)
          (null_step inner at rest e ts negated
            (add_reads inner e parsed reads start after (null_NoAdd at negated rest))))

column-Reads :
    (inner : Tokens → Parse Expr) (c : Bytes) → is_keyword c ≡ false → Reads inner (Expr.column c)
unfolding primary primary_word expr_tokens keywords
column-Reads inner c h start rest = rw (
  not_reserved c (utf8 "NULL") 14 h refl,
  not_reserved c (utf8 "TRUE") 26 h refl,
  not_reserved c (utf8 "FALSE") 27 h refl,
  h,
)

literal-Reads :
    (inner : Tokens → Parse Expr) (v : Literal)
    → IsParsed (Expr.literal v)
    → Reads inner (Expr.literal v)
unfolding primary primary_word expr_tokens eq_ignore_ascii_case utf8
literal-Reads inner Literal.null h start rest = refl
literal-Reads inner (Literal.integer (pos n)) h start rest = refl
literal-Reads inner (Literal.integer (negsuc n)) h start rest = absurd h
literal-Reads inner (Literal.text s) h start rest = refl
literal-Reads inner (Literal.boolean true) h start rest = refl
literal-Reads inner (Literal.boolean false) h start rest = refl

-- Parentheses are read with one more step of fuel than their contents.
parens_read :
    (fuel : ℕ) (ts : Tokens) (start close : ℕ) (rest : Tokens) (e : Expr)
    → or_expr (expr fuel) ts ≡ ok (e, closing close rest)
    → primary (expr (suc fuel)) ((Token.l_paren, start) ∷ ts) ≡ ok (e, rest)
unfolding expr
parens_read fuel ts start close rest e read =
    primary_parens (expr (suc fuel)) ts rest start close e read

primary-Reads : (fuel : ℕ) (e : Expr) → IsParsed e → parens_of e ≤ fuel → Reads (expr fuel) e
unfolding expr_tokens parens_of
primary-Reads fuel (Expr.literal v) h enough start rest = literal-Reads (expr fuel) v h start rest
primary-Reads fuel (Expr.column c) h enough start rest = column-Reads (expr fuel) c h start rest
primary-Reads zero (Expr.unary op e) h enough start rest = absurd (omega arith)
primary-Reads (suc fuel) (Expr.unary UnaryOp.neg e) h enough start rest =
    let close : ℕ = start + 2 + length (display_expr e) in
    parens_read fuel _ start close rest (Expr.unary UnaryOp.neg e) (
      neg_reads (expr fuel) e h (primary-Reads fuel e h (omega arith)) (start + 2) close rest
        (start + 1))
primary-Reads (suc fuel) (Expr.unary UnaryOp.not_op e) h enough start rest =
    let close : ℕ = start + 5 + length (display_expr e) in
    parens_read fuel _ start close rest (Expr.unary UnaryOp.not_op e) (
      not_op_reads (expr fuel) e h (primary-Reads fuel e h (omega arith)) (start + 5) close rest
        (start + 1))
primary-Reads zero (Expr.binary l op r) h enough start rest = absurd (omega arith)
primary-Reads (suc fuel) (Expr.binary l op r) h enough start rest =
    let op_at : ℕ = start + 2 + length (display_expr l) in
    let right_at : ℕ = op_at + 1 + length (display_op op) in
    let close : ℕ = right_at + length (display_expr r) in
    parens_read fuel _ start close rest (Expr.binary l op r) (
      binary_reads (expr fuel) l r h.0 h.1 (primary-Reads fuel l h.0 (omega arith))
        (primary-Reads fuel r h.1 (omega arith)) (start + 1) op_at right_at close rest op)
primary-Reads zero (Expr.is_null e negated) h enough start rest = absurd (omega arith)
primary-Reads (suc fuel) (Expr.is_null e negated) h enough start rest =
    let at : ℕ = start + 2 + length (display_expr e) in
    parens_read fuel _ start (null_end at negated) rest (Expr.is_null e negated) (
      null_reads (expr fuel) e h (primary-Reads fuel e h (omega arith)) (start + 1) 0 rest at
        negated)

length-null_tokens :
    (start : ℕ) (negated : Bool) (rest : Tokens)
    → length rest ≤ length (null_tokens start negated rest)
unfolding null_tokens
length-null_tokens start false rest = omega arith
length-null_tokens start true rest = omega arith

-- Every pair of parentheses has a token of its own.
parens_of_le :
    (start : ℕ) (e : Expr) (rest : Tokens)
    → parens_of e + length rest ≤ length (expr_tokens start e rest)
unfolding expr_tokens parens_of
parens_of_le start (Expr.literal Literal.null) rest = omega arith
parens_of_le start (Expr.literal (Literal.integer (pos n))) rest = omega arith
parens_of_le start (Expr.literal (Literal.integer (negsuc n))) rest = omega arith
parens_of_le start (Expr.literal (Literal.text s)) rest = omega arith
parens_of_le start (Expr.literal (Literal.boolean true)) rest = omega arith
parens_of_le start (Expr.literal (Literal.boolean false)) rest = omega arith
parens_of_le start (Expr.column c) rest = omega arith
parens_of_le start (Expr.unary UnaryOp.neg e) rest =
    let close : Token × ℕ = (Token.r_paren, start + 2 + length (display_expr e)) in
    omega (arith, parens_of_le (start + 2) e (close ∷ rest))
parens_of_le start (Expr.unary UnaryOp.not_op e) rest =
    let close : Token × ℕ = (Token.r_paren, start + 5 + length (display_expr e)) in
    omega (arith, parens_of_le (start + 5) e (close ∷ rest))
parens_of_le start (Expr.binary l op r) rest =
    let op_at : ℕ = start + 2 + length (display_expr l) in
    let right_at : ℕ = op_at + 1 + length (display_op op) in
    let stop : Tokens = (Token.r_paren, right_at + length (display_expr r)) ∷ rest in
    omega (
      arith,
      parens_of_le (start + 1) l ((op_token op, op_at) ∷ expr_tokens right_at r stop),
      parens_of_le right_at r stop,
    )
parens_of_le start (Expr.is_null e negated) rest =
    let at : ℕ = start + 2 + length (display_expr e) in
    omega (
      arith,
      parens_of_le (start + 1) e (null_tokens at negated rest),
      length-null_tokens at negated rest,
    )

-- In front of tokens that no operator starts, the parser reads the tokens of an expression as it.
pub expression-expr_tokens :
    (start : ℕ) (e : Expr) (rest : Tokens)
    → IsParsed e
    → NoOr rest
    → expression (expr_tokens start e rest) ≡ ok (e, rest)
unfolding expression
expression-expr_tokens start e rest h stop =
    let fuel : ℕ = length (expr_tokens start e rest) in
    let enough = parens_of_le start e rest in
    or_reads (expr fuel) e h (primary-Reads fuel e h (omega (arith, enough))) start rest stop
