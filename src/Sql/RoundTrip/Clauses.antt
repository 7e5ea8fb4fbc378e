-- ===== src/Sql/RoundTrip/Clauses.antt =====
-- WHERE, ORDER BY and LIMIT are read back.
use choam.Base.{
  ℕ, ◌+◌, ◌<◌, ◌^◌, ◌≡◌, refl, ap, ◌∙◌, Bool, true, false, Option, none, some, [], ◌∷◌, ◌++◌, Bytes,
  Result, ok, ◌>>=◌, length, arith, append_assoc, length-append, utf8, if◌then◌else◌,
}
use choam.Base.Int.{pos, i64_as_u64}
use choam.Sql.Ast.{Expr, OrderBy}
use choam.Sql.Token.{Token}
use choam.Sql.Keyword.{eq_ignore_ascii_case}
use choam.Sql.Display.{display_expr, display_filter, display_order, display_limit}
use choam.Sql.Lexer.{CharClass}
use choam.Sql.Parser.{Tokens, Parse, is_next, at_keyword, expect_keyword, ident}
use choam.Sql.Parser.Expr.{mul_op, add_op, cmp_op, expression}
use choam.Sql.Parser.Statement.{opt_where, direction, order_by, limit_value, limit}
use choam.Sql.RoundTrip.Levels.{NoOr, word_at}
use choam.Sql.RoundTrip.Steps.{Stops, DocumentedClasses, Lexed, space-Lexed}
use choam.Sql.RoundTrip.Numbers.{decimal-Lexed}
use choam.Sql.RoundTrip.Texts.{moved, spaced_word}
use choam.Sql.RoundTrip.Lexed.{keyword}
use choam.Sql.RoundTrip.Pieces.{IsName, ident-ReadBack, IsExpr, expression-ReadBack}

pub bind_ok :
    {E X Y : Type 0} {r : Result E X} {x : X} (k : X → Result E Y) → r ≡ ok x → (r >>= k) ≡ k x
bind_ok k h = ap (λ r. r >>= k) h

-- Nothing of an expression comes next, nor a comma.
abbrev pub NoItem : Tokens → Type 0
NoItem ts = NoOr ts × (is_next Token.comma ts ≡ false)

abbrev pub NoFilter : Tokens → Type 0
NoFilter ts = NoItem ts × (at_keyword (utf8 "WHERE") ts ≡ false)

abbrev pub NoOrder : Tokens → Type 0
NoOrder ts = (NoFilter ts) × (at_keyword (utf8 "ORDER") ts ≡ false)

abbrev pub NoLimit : Tokens → Type 0
NoLimit ts = (NoOrder ts) × (at_keyword (utf8 "LIMIT") ts ≡ false)

pub end-NoLimit : NoLimit []
unfolding at_keyword mul_op add_op cmp_op is_next
end-NoLimit = ((((((((refl, refl), refl, refl), refl), refl), refl), refl), refl), refl)

limit-NoOrder : (start : ℕ) (ts : Tokens) → NoOrder (word_at (utf8 "LIMIT") start ∷ ts)
unfolding at_keyword mul_op add_op cmp_op eq_ignore_ascii_case is_next utf8
limit-NoOrder start ts = (((((((refl, refl), refl, refl), refl), refl), refl), refl), refl)

order-NoFilter : (start : ℕ) (ts : Tokens) → NoFilter (word_at (utf8 "ORDER") start ∷ ts)
unfolding at_keyword mul_op add_op cmp_op eq_ignore_ascii_case is_next utf8
order-NoFilter start ts = ((((((refl, refl), refl, refl), refl), refl), refl), refl)

where-NoItem : (start : ℕ) (ts : Tokens) → NoItem (word_at (utf8 "WHERE") start ∷ ts)
unfolding at_keyword mul_op add_op cmp_op eq_ignore_ascii_case is_next utf8
where-NoItem start ts = (((((refl, refl), refl, refl), refl), refl), refl)

module _ (chars : CharClass) (documented : DocumentedClasses chars) where
  abbrev pub Place : ℕ → Bytes → Tokens → Type 0
  Place = Lexed chars documented

  -- A clause that may be missing: `Out` holds of the tokens behind it and `Good` of its own.
  abbrev pub ClauseBack :
      {A : Type 0} → (Tokens → Parse A) → (Tokens → Type 0) → (Tokens → Type 0) → Bytes → A → Type 0
  ClauseBack p Out Good text x =
      (start : ℕ) (tail : Bytes) (out : Tokens)
      → Stops tail
      → Out out
      → Place (start + length text) tail out
      → (ts : Tokens) × Place start (text ++ tail) ts × (p ts ≡ ok (x, out)) × Good ts

  abbrev pub MaybeExpr : Option Expr → Type 0
  MaybeExpr none = Unit
  MaybeExpr (some e) = IsExpr chars documented e

  where_read :
      (start : ℕ) (e : Expr) (ts out : Tokens)
      → expression ts ≡ ok (e, out)
      → opt_where (word_at (utf8 "WHERE") start ∷ ts) ≡ ok (some e, out)
  unfolding opt_where at_keyword eq_ignore_ascii_case utf8
  where_read start e ts out read = bind_ok _ read

  no_where : (ts : Tokens) → at_keyword (utf8 "WHERE") ts ≡ false → opt_where ts ≡ ok (none, ts)
  unfolding opt_where
  no_where ts h = rw h

  pub filter-ClauseBack :
      (w : Option Expr) → MaybeExpr w → ClauseBack opt_where NoFilter NoItem (display_filter w) w
  unfolding display_filter utf8
  filter-ClauseBack none h start tail out stops fine later =
      (out, moved chars documented _ _ tail out (omega arith) later, no_where out fine.1, fine.0)
  filter-ClauseBack (some e) h start tail out stops fine later =
      let (ts, lexed, read) =
        expression-ReadBack chars documented e h (start + 7) tail out stops fine.0.0
          (moved chars documented _ _ tail out (omega arith) later) in
      (
        word_at (utf8 "WHERE") (start + 1) ∷ ts,
        space-Lexed chars documented start _ _ (
            keyword chars documented (start + 1) 87 (72 ∷ 69 ∷ 82 ∷ 69 ∷ []) (start + 7)
              (display_expr e ++ tail) ts refl (omega arith) lexed),
        where_read (start + 1) e ts out read,
        where-NoItem (start + 1) ts,
      )

  abbrev pub MaybeOrder : Option OrderBy → Type 0
  MaybeOrder none = Unit
  MaybeOrder (some o) = IsName chars documented o.column

  direction_read :
      (start : ℕ) (ts : Tokens) (descending : Bool)
      → direction (word_at (if descending then utf8 "DESC" else utf8 "ASC") start ∷ ts)
        ≡ (descending, ts)
  unfolding direction at_keyword eq_ignore_ascii_case utf8
  direction_read start ts true = refl
  direction_read start ts false = refl

  order_read :
      (start by_at at : ℕ) (o : OrderBy) (ts out : Tokens)
      → ident (utf8 "column name") ts
        ≡ ok (o.column, word_at (if o.descending then utf8 "DESC" else utf8 "ASC") at ∷ out)
      → order_by (word_at (utf8 "ORDER") start ∷ word_at (utf8 "BY") by_at ∷ ts) ≡ ok (some o, out)
  unfolding order_by at_keyword expect_keyword eq_ignore_ascii_case utf8
  order_read start by_at at o ts out read =
      bind_ok _ read
      ∙ ap (λ d. ok (some (record { column = o.column; descending = d.0 }), d.1))
          (direction_read at out o.descending)

  no_order : (ts : Tokens) → at_keyword (utf8 "ORDER") ts ≡ false → order_by ts ≡ ok (none, ts)
  unfolding order_by
  no_order ts h = rw h

  direction_lexed :
      (start : ℕ) (descending : Bool) (tail : Bytes) (out : Tokens)
      → Stops tail
      → Place (start + length (if descending then utf8 " DESC" else utf8 " ASC")) tail out
      → Place start
          ((if descending then utf8 " DESC" else utf8 " ASC") ++ tail)
          (word_at (if descending then utf8 "DESC" else utf8 "ASC") (start + 1) ∷ out)
  unfolding utf8
  direction_lexed start true tail out stops later = space-Lexed chars documented start _ _ (
      spaced_word chars documented (start + 1) 68 (69 ∷ 83 ∷ 67 ∷ []) tail out refl stops
        (moved chars documented _ _ tail out (omega arith) later))
  direction_lexed start false tail out stops later = space-Lexed chars documented start _ _ (
      spaced_word chars documented (start + 1) 65 (83 ∷ 67 ∷ []) tail out refl stops
        (moved chars documented _ _ tail out (omega arith) later))

  direction_Stops :
      (descending : Bool) (tail : Bytes)
      → Stops ((if descending then utf8 " DESC" else utf8 " ASC") ++ tail)
  unfolding utf8
  direction_Stops true tail = refl
  direction_Stops false tail = refl

  pub order-ClauseBack :
      (o : Option OrderBy) → MaybeOrder o → ClauseBack order_by NoOrder NoFilter (display_order o) o
  unfolding utf8
  order-ClauseBack none h start tail out stops fine later =
      (out, moved chars documented _ _ tail out (omega arith) later, no_order out fine.1, fine.0)
  order-ClauseBack (some o) h start tail out stops fine later =
      let dir : Bytes = if o.descending then utf8 " DESC" else utf8 " ASC" in
      let at : ℕ = start + 10 + length o.column in
      let last : Tokens =
        word_at (if o.descending then utf8 "DESC" else utf8 "ASC") (at + 1) ∷ out in
      let (ts, lexed, read) =
        ident-ReadBack chars documented (utf8 "column name") o.column h (start + 10) (dir ++ tail)
          last (direction_Stops o.descending tail) tt
          (direction_lexed at o.descending tail out stops (
            moved chars documented _ _ tail out (omega (arith, length-append o.column dir))
              later)) in
      (
        word_at (utf8 "ORDER") (start + 1) ∷ word_at (utf8 "BY") (start + 7) ∷ ts,
        space-Lexed chars documented start _ _ (
            keyword chars documented (start + 1) 79 (82 ∷ 68 ∷ 69 ∷ 82 ∷ []) (start + 7) _ _ refl
              (omega arith)
              (keyword chars documented (start + 7) 66 (89 ∷ []) (start + 10) _ ts refl
                (omega arith) (rw (append_assoc o.column dir tail) lexed))),
        order_read (start + 1) (start + 7) (at + 1) o ts out read,
        order-NoFilter (start + 1) _,
      )

  abbrev pub MaybeLimit : Option ℕ → Type 0
  MaybeLimit none = Unit
  MaybeLimit (some n) = n < 2 ^ 63

  as_u64 : (n : ℕ) → n < 2 ^ 63 → i64_as_u64 (pos n) ≡ n
  unfolding i64_as_u64
  as_u64 n h = omega arith

  limit_read :
      (start at n : ℕ) (out : Tokens)
      → n < 2 ^ 63
      → limit (word_at (utf8 "LIMIT") start ∷ (Token.integer (pos n), at) ∷ out) ≡ ok (some n, out)
  unfolding limit limit_value at_keyword eq_ignore_ascii_case utf8
  limit_read start at n out h = ap (λ k. ok (some k, out)) (as_u64 n h)

  no_limit : (ts : Tokens) → at_keyword (utf8 "LIMIT") ts ≡ false → limit ts ≡ ok (none, ts)
  unfolding limit
  no_limit ts h = rw h

  pub limit-ClauseBack :
      (n : Option ℕ) → MaybeLimit n → ClauseBack limit NoLimit NoOrder (display_limit n) n
  unfolding utf8
  limit-ClauseBack none h start tail out stops fine later =
      (out, moved chars documented _ _ tail out (omega arith) later, no_limit out fine.1, fine.0)
  limit-ClauseBack (some n) h start tail out stops fine later = (
    word_at (utf8 "LIMIT") (start + 1) ∷ (Token.integer (pos n), start + 7) ∷ out,
    space-Lexed chars documented start _ _ (
        keyword chars documented (start + 1) 76 (73 ∷ 77 ∷ 73 ∷ 84 ∷ []) (start + 7) _ _ refl
          (omega arith)
          (decimal-Lexed chars documented (start + 7) n tail out h stops
            (moved chars documented _ _ tail out (omega arith) later))),
    limit_read (start + 1) (start + 7) n out h,
    limit-NoOrder (start + 1) _,
  )

pub filter_Stops : (w : Option Expr) (tail : Bytes) → Stops tail → Stops (display_filter w ++ tail)
unfolding display_filter utf8
filter_Stops none tail h = h
filter_Stops (some e) tail h = refl

pub order_Stops : (o : Option OrderBy) (tail : Bytes) → Stops tail → Stops (display_order o ++ tail)
unfolding utf8
order_Stops none tail h = h
order_Stops (some o) tail h = refl

pub limit_Stops : (n : Option ℕ) (tail : Bytes) → Stops tail → Stops (display_limit n ++ tail)
unfolding utf8
limit_Stops none tail h = h
limit_Stops (some n) tail h = refl
