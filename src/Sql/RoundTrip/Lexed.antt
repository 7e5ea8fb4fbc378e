-- ===== src/Sql/RoundTrip/Lexed.antt =====
-- The lexer reads the text of an expression as the tokens of the expression.
use choam.Base.{
  ℕ, suc, ◌+◌, ◌≡◌, refl, true, false, [], ◌∷◌, ◌++◌, Bytes, length, arith, append_assoc,
  length-append, utf8,
}
use choam.Base.Int.{pos, negsuc}
use choam.Sql.Ast.{Literal, UnaryOp, Expr}
use choam.Sql.Token.{Token}
use choam.Sql.Display.{double_quotes, integer_text, display_literal, display_op, display_expr}
use choam.Sql.Lexer.{CharClass}
use choam.Sql.Parser.{Tokens}
use choam.Sql.RoundTrip.{op_token, expr_tokens, IsParsed}
use choam.Sql.RoundTrip.Levels.{word_at, null_tokens}
use choam.Sql.RoundTrip.Steps.{Stops, DocumentedClasses, space-Lexed, string-Lexed}
use choam.Sql.RoundTrip.Names.{IsWord, word-Lexed}
use choam.Sql.RoundTrip.Numbers.{decimal-Lexed}
use choam.Sql.RoundTrip.Texts.{
  At, moved, open_paren, close_paren, minus, spaced_word, op_lexed, are_letters, Stops-no_quote,
}

-- The text between and behind the parentheses of a binary operator.
pair_text :
    (l op r tail : Bytes)
    → (((l ++ 32 ∷ (op ++ 32 ∷ r)) ++ 41 ∷ []) ++ tail) ≡ l ++ 32 ∷ (op ++ 32 ∷ (r ++ 41 ∷ tail))
pair_text l op r tail = simp append_assoc

pair_length :
    (l op r : Bytes)
    → length ((l ++ 32 ∷ (op ++ 32 ∷ r)) ++ 41 ∷ []) ≡ length l + length op + length r + 3
pair_length l op r = omega (
  arith,
  length-append (l ++ 32 ∷ (op ++ 32 ∷ r)) (41 ∷ []),
  length-append l (32 ∷ (op ++ 32 ∷ r)),
  length-append op (32 ∷ r),
)

module _ (chars : CharClass) (documented : DocumentedClasses chars) where
  -- Every column's name is a word.
  abbrev pub HasWords : Expr → Type 0
  HasWords (Expr.literal v) = Unit
  HasWords (Expr.column c) = IsWord chars documented c
  HasWords (Expr.unary op e) = HasWords e
  HasWords (Expr.binary l op r) = HasWords l × HasWords r
  HasWords (Expr.is_null e negated) = HasWords e

  abbrev Place : ℕ → Bytes → Tokens → Type 0
  Place = At chars documented

  spaced :
      (start : ℕ) (bs : Bytes) (out : Tokens) → Place (start + 1) bs out → Place start (32 ∷ bs) out
  spaced = space-Lexed chars documented

  literal_lexed :
      (start : ℕ) (v : Literal) (tail : Bytes) (out : Tokens)
      → IsParsed (Expr.literal v)
      → Stops tail
      → Place (start + length (display_literal v)) tail out
      → Place start (display_literal v ++ tail) (expr_tokens start (Expr.literal v) out)
  unfolding display_literal integer_text expr_tokens utf8
  literal_lexed start Literal.null tail out h stops later =
      spaced_word chars documented start 78 (85 ∷ 76 ∷ 76 ∷ []) tail out refl stops later
  literal_lexed start (Literal.integer (pos n)) tail out h stops later =
      decimal-Lexed chars documented start n tail out h stops later
  literal_lexed start (Literal.integer (negsuc n)) tail out h stops later = absurd h
  literal_lexed start (Literal.text s) tail out h stops later =
      rw (append_assoc (double_quotes s) (39 ∷ []) tail)
        (string-Lexed chars documented start s tail out (Stops-no_quote tail stops) later)
  literal_lexed start (Literal.boolean true) tail out h stops later =
      spaced_word chars documented start 84 (82 ∷ 85 ∷ 69 ∷ []) tail out refl stops later
  literal_lexed start (Literal.boolean false) tail out h stops later =
      spaced_word chars documented start 70 (65 ∷ 76 ∷ 83 ∷ 69 ∷ []) tail out refl stops later

  same_text :
      (start : ℕ) (a b : Bytes) (out : Tokens) → a ≡ b → Place start b out → Place start a out
  same_text start a b out h later = rw h later

  -- A closing parenthesis at `at`, and the text behind it.
  pub closed :
      (at behind : ℕ) (tail : Bytes) (out : Tokens)
      → behind ≡ at + 1
      → Place behind tail out
      → Place at (41 ∷ tail) ((Token.r_paren, at) ∷ out)
  closed at behind tail out h later =
      close_paren chars documented at tail out
        (moved chars documented behind (at + 1) tail out h later)

  -- A keyword at `at`, a space, and what stands at `then`.
  pub keyword :
      (at b : ℕ) (w : Bytes) (behind : ℕ) (tail : Bytes) (out : Tokens)
      → are_letters (b ∷ w) ≡ true
      → behind ≡ at + 2 + length w
      → Place behind tail out
      → Place at (b ∷ (w ++ 32 ∷ tail)) (word_at (b ∷ w) at ∷ out)
  keyword at b w behind tail out letters h later =
      spaced_word chars documented at b w (32 ∷ tail) out letters refl (
        spaced (at + suc (length w)) tail out
          (moved chars documented behind (at + suc (length w) + 1) tail out (omega arith) later))

  null_word :
      (at close behind : ℕ) (tail : Bytes) (out : Tokens)
      → close ≡ at + 4
      → behind ≡ close + 1
      → Place behind tail out
      → Place at (utf8 "NULL)" ++ tail) (word_at (utf8 "NULL") at ∷ (Token.r_paren, close) ∷ out)
  unfolding utf8
  null_word at close behind tail out h k later =
      spaced_word chars documented at 78 (85 ∷ 76 ∷ 76 ∷ []) (41 ∷ tail) _ refl refl (
        moved chars documented close (at + 4) (41 ∷ tail) _ h
          (closed close behind tail out k later))

  null_lexed :
      (at behind : ℕ) (tail : Bytes) (out : Tokens)
      → behind ≡ at + 8
      → Place behind tail out
      → Place at (utf8 "IS NULL)" ++ tail) (null_tokens at false out)
  unfolding null_tokens utf8
  null_lexed at behind tail out h later =
      keyword at 73 (83 ∷ []) (at + 3) (utf8 "NULL)" ++ tail) _ refl (omega arith)
        (null_word (at + 3) (at + 7) behind tail out (omega arith) (omega arith) later)

  not_null_lexed :
      (at behind : ℕ) (tail : Bytes) (out : Tokens)
      → behind ≡ at + 12
      → Place behind tail out
      → Place at (utf8 "IS NOT NULL)" ++ tail) (null_tokens at true out)
  unfolding null_tokens utf8
  not_null_lexed at behind tail out h later =
      keyword at 73 (83 ∷ []) (at + 3) (utf8 "NOT NULL)" ++ tail) _ refl (omega arith) (
        keyword (at + 3) 78 (79 ∷ 84 ∷ []) (at + 7) (utf8 "NULL)" ++ tail) _ refl (omega arith)
          (null_word (at + 7) (at + 11) behind tail out (omega arith) (omega arith) later))

  pub display_expr-Lexed :
      (start : ℕ) (e : Expr) (tail : Bytes) (out : Tokens)
      → IsParsed e
      → HasWords e
      → Stops tail
      → Place (start + length (display_expr e)) tail out
      → Place start (display_expr e ++ tail) (expr_tokens start e out)
  unfolding display_expr expr_tokens utf8
  display_expr-Lexed start (Expr.literal v) tail out h w stops later =
      literal_lexed start v tail out h stops later
  display_expr-Lexed start (Expr.column c) tail out h w stops later =
      word-Lexed chars documented start c tail out w stops later
  display_expr-Lexed start (Expr.unary UnaryOp.neg e) tail out h w stops later =
      let text = display_expr e in
      let close : ℕ = start + 2 + length text in
      let out' : Tokens = (Token.r_paren, close) ∷ out in
      let inside : Place (start + 2) (text ++ 41 ∷ tail) (expr_tokens (start + 2) e out') =
        display_expr-Lexed (start + 2) e (41 ∷ tail) out' h w refl
          (closed close _ tail out (omega (arith, length-append text (41 ∷ []))) later) in
      rw (append_assoc text (41 ∷ []) tail) (
        open_paren chars documented start _ _ (
          minus chars documented (start + 1) _ _ (
            moved chars documented (start + 2) (start + 1 + 1) (text ++ 41 ∷ tail)
              (expr_tokens (start + 2) e out') (omega arith) inside)))
  display_expr-Lexed start (Expr.unary UnaryOp.not_op e) tail out h w stops later =
      let text = display_expr e in
      let close : ℕ = start + 5 + length text in
      let out' : Tokens = (Token.r_paren, close) ∷ out in
      let inside : Place (start + 5) (text ++ 41 ∷ tail) (expr_tokens (start + 5) e out') =
        display_expr-Lexed (start + 5) e (41 ∷ tail) out' h w refl
          (closed close _ tail out (omega (arith, length-append text (41 ∷ []))) later) in
      rw (append_assoc text (41 ∷ []) tail) (
        open_paren chars documented start _ _ (
          keyword (start + 1) 78 (79 ∷ 84 ∷ []) (start + 5) (text ++ 41 ∷ tail) _ refl (omega arith)
            inside))
  display_expr-Lexed start (Expr.binary l op r) tail out h w stops later =
      let left = display_expr l in
      let right = display_expr r in
      let op_text = display_op op in
      let op_at : ℕ = start + 2 + length left in
      let right_at : ℕ = op_at + 1 + length op_text in
      let close : ℕ = right_at + length right in
      let last : Tokens = (Token.r_paren, close) ∷ out in
      let second : Bytes = op_text ++ 32 ∷ (right ++ 41 ∷ tail) in
      let ending : Place close (41 ∷ tail) last =
        closed close _ tail out (omega (arith, pair_length left op_text right)) later in
      let operand : Place right_at (right ++ 41 ∷ tail) (expr_tokens right_at r last) =
        display_expr-Lexed right_at r (41 ∷ tail) last h.1 w.1 refl ending in
      let operator : Place op_at second ((op_token op, op_at) ∷ expr_tokens right_at r last) =
        op_lexed chars documented op_at op (right ++ 41 ∷ tail) (expr_tokens right_at r last) (
          spaced (op_at + length op_text) (right ++ 41 ∷ tail) _ (
            moved chars documented right_at (op_at + length op_text + 1) _ _ (omega arith)
              operand)) in
      rw (pair_text left op_text right tail) (
        open_paren chars documented start _ _ (
          display_expr-Lexed (start + 1) l (32 ∷ second) _ h.0 w.0 refl (
            spaced (start + 1 + length left) second _ (
              moved chars documented op_at (start + 1 + length left + 1) second _ (omega arith)
                operator))))
  display_expr-Lexed start (Expr.is_null e false) tail out h w stops later =
      let text = display_expr e in
      let at : ℕ = start + 2 + length text in
      let word = utf8 " IS NULL" in
      let behind =
        null_lexed at _ tail out
          (omega (arith, length-append (text ++ word) (41 ∷ []), length-append text word)) later in
      rw (append_assoc (text ++ word) (41 ∷ []) tail, append_assoc text word (41 ∷ tail))
        (open_paren chars documented start _ _ (
          display_expr-Lexed (start + 1) e _ (null_tokens at false out) h w refl (
            spaced (start + 1 + length text) _ _
              (moved chars documented at (start + 1 + length text + 1) _ _ (omega arith) behind))))
  display_expr-Lexed start (Expr.is_null e true) tail out h w stops later =
      let text = display_expr e in
      let at : ℕ = start + 2 + length text in
      let word = utf8 " IS NOT NULL" in
      let behind =
        not_null_lexed at _ tail out
          (omega (arith, length-append (text ++ word) (41 ∷ []), length-append text word)) later in
      rw (append_assoc (text ++ word) (41 ∷ []) tail, append_assoc text word (41 ∷ tail))
        (open_paren chars documented start _ _ (
          display_expr-Lexed (start + 1) e _ (null_tokens at true out) h w refl (
            spaced (start + 1 + length text) _ _
              (moved chars documented at (start + 1 + length text + 1) _ _ (omega arith) behind))))
