-- ===== src/Sql/RoundTrip/Levels.antt =====
-- What a level of the expression parser reads, from what the level below it reads.
use choam.Base.{
  ◌+◌, ℕ, suc, ◌≡◌, refl, Bool, true, false, Option, none, some, [], ◌∷◌, Bytes, ok, length, utf8,
  if◌then◌else◌,
}
use choam.Sql.Ast.{BinaryOp, Expr}
use choam.Sql.Token.{Token}
use choam.Sql.Parser.{Tokens, Parse, tail, at_keyword, expect_keyword}
use choam.Sql.Parser.Expr.{
  chain, level, cmp_op, add_op, mul_op, keyword_op, mul_expr, add_expr, cmp_chain, cmp_expr,
  not_expr, and_expr, or_expr, unary_expr,
}
use choam.Sql.Parser.Total.Levels.{TakesToken, cmp_op-TakesToken}
use choam.Sql.Keyword.{eq_ignore_ascii_case}

abbrev pub word_at : Bytes → ℕ → Token × ℕ
word_at w start = (Token.word w, start)

module _ (op_at : Tokens → Option BinaryOp) (operand : Tokens → Parse Expr) where
  pub level_stop :
      (ts rest : Tokens) (e : Expr)
      → operand ts ≡ ok (e, rest)
      → op_at rest ≡ none
      → level op_at operand ts ≡ ok (e, rest)
  unfolding level chain
  level_stop ts rest e read stop = rw (read, stop)

  pub level_step :
      (ts after rest : Tokens) (l r : Expr) (op : BinaryOp)
      → TakesToken op_at
      → operand ts ≡ ok (l, after)
      → op_at after ≡ some op
      → operand (tail after) ≡ ok (r, rest)
      → op_at rest ≡ none
      → level op_at operand ts ≡ ok (Expr.binary l op r, rest)
  unfolding level chain
  level_step ts [] rest l r op takes read at right stop = cc
  level_step ts (t ∷ after) rest l r op takes read at right stop = rw (read, at, right, stop)

-- No operator of a level, or of one that binds more tightly, comes next.
abbrev pub NoMul : Tokens → Type 0
NoMul rest = mul_op rest ≡ none

abbrev pub NoAdd : Tokens → Type 0
NoAdd rest = NoMul rest × (add_op rest ≡ none)

abbrev pub NoCmp : Tokens → Type 0
NoCmp rest = (NoAdd rest) × (at_keyword (utf8 "IS") rest ≡ false) × (cmp_op rest ≡ none)

abbrev pub NoAnd : Tokens → Type 0
NoAnd rest = (NoCmp rest) × (at_keyword (utf8 "AND") rest ≡ false)

abbrev pub NoOr : Tokens → Type 0
NoOr rest = (NoAnd rest) × (at_keyword (utf8 "OR") rest ≡ false)

module _ (inner : Tokens → Parse Expr) (ts rest : Tokens) (e : Expr) where
  pub mul_stop : unary_expr inner ts ≡ ok (e, rest) → NoMul rest → mul_expr inner ts ≡ ok (e, rest)
  unfolding mul_expr
  mul_stop = level_stop mul_op (unary_expr inner) ts rest e

  pub add_stop :
      mul_expr inner ts ≡ ok (e, rest) → add_op rest ≡ none → add_expr inner ts ≡ ok (e, rest)
  unfolding add_expr
  add_stop = level_stop add_op (mul_expr inner) ts rest e

  pub cmp_stop :
      add_expr inner ts ≡ ok (e, rest)
      → at_keyword (utf8 "IS") rest ≡ false
      → cmp_op rest ≡ none
      → cmp_expr inner ts ≡ ok (e, rest)
  unfolding cmp_expr cmp_chain
  cmp_stop read no_is stop = rw (read, no_is, stop)

  pub and_stop :
      not_expr inner ts ≡ ok (e, rest)
      → at_keyword (utf8 "AND") rest ≡ false
      → and_expr inner ts ≡ ok (e, rest)
  unfolding and_expr
  and_stop read stop =
      level_stop (keyword_op (utf8 "AND") BinaryOp.and_op) (not_expr inner) ts rest e read (rw stop)

  pub or_stop :
      and_expr inner ts ≡ ok (e, rest)
      → at_keyword (utf8 "OR") rest ≡ false
      → or_expr inner ts ≡ ok (e, rest)
  unfolding or_expr
  or_stop read stop =
      level_stop (keyword_op (utf8 "OR") BinaryOp.or_op) (and_expr inner) ts rest e read (rw stop)

module _ (inner : Tokens → Parse Expr) (rest : Tokens) (l r : Expr) (op : BinaryOp) where
  cmp_more :
      (fuel : ℕ) (after : Tokens)
      → at_keyword (utf8 "IS") after ≡ false
      → cmp_op after ≡ some op
      → add_expr inner (tail after) ≡ ok (r, rest)
      → at_keyword (utf8 "IS") rest ≡ false
      → cmp_op rest ≡ none
      → cmp_chain inner (suc (suc fuel)) l after ≡ ok (Expr.binary l op r, rest)
  unfolding cmp_chain
  cmp_more fuel after no_is at right no_is' stop = rw (no_is, at, right, no_is', stop)

  cmp_more_at :
      (after : Tokens)
      → at_keyword (utf8 "IS") after ≡ false
      → cmp_op after ≡ some op
      → add_expr inner (tail after) ≡ ok (r, rest)
      → at_keyword (utf8 "IS") rest ≡ false
      → cmp_op rest ≡ none
      → cmp_chain inner (suc (length after)) l after ≡ ok (Expr.binary l op r, rest)
  cmp_more_at [] no_is at right no_is' stop = let nothing = cmp_op-TakesToken in cc
  cmp_more_at (t ∷ after) no_is at right no_is' stop =
      cmp_more (length after) (t ∷ after) no_is at right no_is' stop

  pub cmp_step :
      (ts after : Tokens)
      → add_expr inner ts ≡ ok (l, after)
      → at_keyword (utf8 "IS") after ≡ false
      → cmp_op after ≡ some op
      → add_expr inner (tail after) ≡ ok (r, rest)
      → at_keyword (utf8 "IS") rest ≡ false
      → cmp_op rest ≡ none
      → cmp_expr inner ts ≡ ok (Expr.binary l op r, rest)
  unfolding cmp_expr
  cmp_step ts after read no_is at right no_is' stop =
      rw read (cmp_more_at after no_is at right no_is' stop)

-- The tokens of IS NULL or IS NOT NULL and a closing parenthesis, in front of `rest`.
unfoldable pub null_tokens : ℕ → Bool → Tokens → Tokens
null_tokens start false rest =
    word_at (utf8 "IS") start
    ∷ word_at (utf8 "NULL") (start + 3)
    ∷ (Token.r_paren, start + 7)
    ∷ rest
null_tokens start true rest =
    word_at (utf8 "IS") start
    ∷ word_at (utf8 "NOT") (start + 3)
    ∷ word_at (utf8 "NULL") (start + 7)
    ∷ (Token.r_paren, start + 11)
    ∷ rest

abbrev pub null_end : ℕ → Bool → ℕ
null_end start negated = if negated then start + 11 else start + 7

module _ (inner : Tokens → Parse Expr) (start : ℕ) (rest : Tokens) (e : Expr) where
  null_chain :
      (negated : Bool)
      → cmp_chain inner
          (suc (length (null_tokens start negated rest)))
          e
          (null_tokens start negated rest)
        ≡ ok (Expr.is_null e negated, (Token.r_paren, null_end start negated) ∷ rest)
  unfolding cmp_chain null_tokens cmp_op at_keyword expect_keyword eq_ignore_ascii_case utf8
  null_chain false = refl
  null_chain true = refl

  pub null_step :
      (ts : Tokens) (negated : Bool)
      → add_expr inner ts ≡ ok (e, null_tokens start negated rest)
      → cmp_expr inner ts
        ≡ ok (Expr.is_null e negated, (Token.r_paren, null_end start negated) ∷ rest)
  unfolding cmp_expr
  null_step ts negated read = rw read (null_chain negated)
