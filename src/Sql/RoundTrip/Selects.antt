-- ===== src/Sql/RoundTrip/Selects.antt =====
-- SELECT is read back.
use choam.Base.{
  ℕ, ◌+◌, ◌≡◌, refl, ◌∙◌, false, Option, List, [], ◌∷◌, ◌++◌, Bytes, ok, length, arith,
  append_assoc, length-append, utf8,
}
use choam.Sql.Ast.{Expr, Projection, OrderBy, Statement}
use choam.Sql.Token.{Token}
use choam.Sql.Keyword.{eq_ignore_ascii_case}
use choam.Sql.Display.{display, display_projection, display_filter, display_order, display_limit}
use choam.Sql.Lexer.{CharClass, symbol}
use choam.Sql.Parser.{Tokens, is_next, at_keyword, expect_keyword, ident, comma_list, ident_list}
use choam.Sql.Parser.Statement.{statement, projection, opt_where, order_by, limit, select}
use choam.Sql.RoundTrip.Levels.{word_at}
use choam.Sql.RoundTrip.Steps.{DocumentedClasses, space-Lexed, symbol-Lexed}
use choam.Sql.RoundTrip.Texts.{moved}
use choam.Sql.RoundTrip.Lexed.{keyword}
use choam.Sql.RoundTrip.Pieces.{ReadBack, IsName, ident-ReadBack, OneOrMore, ident_list-ReadBack}
use choam.Sql.RoundTrip.Clauses.{
  bind_ok, NoLimit, MaybeExpr, MaybeOrder, MaybeLimit, filter-ClauseBack, order-ClauseBack,
  limit-ClauseBack, filter_Stops, order_Stops, limit_Stops,
}

-- A list of names does not start with `*`.
no_star :
    (what : Bytes) (names : List Bytes) (ts out : Tokens)
    → ident_list what ts ≡ ok (names, out)
    → is_next Token.star ts ≡ false
unfolding ident_list comma_list ident is_next
no_star what names [] out h = refl
no_star what names ((Token.star, start) ∷ ts) out h = cc
no_star what names ((t, start) ∷ ts) out h = refl

columns_read :
    (columns : List Bytes) (ts out : Tokens)
    → ident_list (utf8 "column name or `*`") ts ≡ ok (columns, out)
    → projection ts ≡ ok (Projection.columns columns, out)
unfolding projection
columns_read columns ts out read =
    rw (no_star (utf8 "column name or `*`") columns ts out read) (bind_ok _ read)

star_read : (at : ℕ) (ts : Tokens) → projection ((Token.star, at) ∷ ts) ≡ ok (Projection.all, ts)
unfolding projection is_next
star_read at ts = refl

select_read :
    (start at : ℕ) (picked : Projection) (table : Bytes) (filter : Option Expr)
    (order : Option OrderBy) (count : Option ℕ) (t1 t2 t3 t4 t5 out : Tokens)
    → projection t1 ≡ ok (picked, word_at (utf8 "FROM") at ∷ t2)
    → ident (utf8 "table name") t2 ≡ ok (table, t3)
    → opt_where t3 ≡ ok (filter, t4)
    → order_by t4 ≡ ok (order, t5)
    → limit t5 ≡ ok (count, out)
    → statement (word_at (utf8 "SELECT") start ∷ t1)
      ≡ ok (Statement.select picked table filter order count, out)
unfolding statement select expect_keyword at_keyword eq_ignore_ascii_case utf8
select_read start at picked table filter order count t1 t2 t3 t4 t5 out projected named filtered
      ordered limited =
    bind_ok _ projected
    ∙ bind_ok _ named
    ∙ bind_ok _ filtered
    ∙ bind_ok _ ordered
    ∙ bind_ok _ limited

select_text :
    (P table F O L tail : Bytes)
    → ((P ++ 32 ∷ 70 ∷ 82 ∷ 79 ∷ 77 ∷ 32 ∷ (table ++ (F ++ (O ++ L)))) ++ tail)
      ≡ P ++ 32 ∷ 70 ∷ 82 ∷ 79 ∷ 77 ∷ 32 ∷ (table ++ (F ++ (O ++ (L ++ tail))))
select_text P table F O L tail = simp append_assoc

module _ (chars : CharClass) (documented : DocumentedClasses chars) where
  abbrev pub IsProjection : Projection → Type 0
  IsProjection Projection.all = Unit
  IsProjection (Projection.columns names) = OneOrMore (IsName chars documented) names

  projection-ReadBack :
      (picked : Projection)
      → IsProjection picked
      → ReadBack chars documented projection
          (λ out. is_next Token.comma out ≡ false)
          (display_projection picked)
          picked
  unfolding symbol utf8
  projection-ReadBack Projection.all h start tail out stops fine later = (
    (Token.star, start) ∷ out,
    symbol-Lexed chars documented start 42 tail Token.star out (omega arith) (omega arith) refl
        later,
    star_read start out,
  )
  projection-ReadBack (Projection.columns names) h start tail out stops fine later =
      let (ts, lexed, read) =
        ident_list-ReadBack chars documented (utf8 "column name or `*`") names h start tail out
          stops fine later in
      (ts, lexed, columns_read names ts out read)

  from-no_comma :
      (at : ℕ) (ts : Tokens) → is_next Token.comma (word_at (utf8 "FROM") at ∷ ts) ≡ false
  unfolding is_next
  from-no_comma at ts = refl

  pub select-ReadBack :
      (picked : Projection) (table : Bytes) (filter : Option Expr) (order : Option OrderBy)
      (count : Option ℕ)
      → IsProjection picked
      → IsName chars documented table
      → MaybeExpr chars documented filter
      → MaybeOrder chars documented order
      → MaybeLimit chars documented count
      → ReadBack chars documented statement NoLimit
          (display (Statement.select picked table filter order count))
          (Statement.select picked table filter order count)
  unfolding display utf8
  select-ReadBack picked table filter order count projected name expr column small start tail out
        stops fine later =
      let P = display_projection picked in
      let F = display_filter filter in
      let O = display_order order in
      let L = display_limit count in
      let FROM : Bytes = 32 ∷ 70 ∷ 82 ∷ 79 ∷ 77 ∷ 32 ∷ [] in
      let from_at : ℕ = start + 7 + length P + 1 in
      let filter_at : ℕ = from_at + 5 + length table in
      let order_at : ℕ = filter_at + length F in
      let limit_at : ℕ = order_at + length O in
      let (t5, limit_lexed, limited, no_order) =
        limit-ClauseBack chars documented count small limit_at tail out stops fine (
          moved chars documented _ _ tail out
            (omega (
              arith,
              length-append P (FROM ++ (table ++ (F ++ (O ++ L)))),
              length-append table (F ++ (O ++ L)),
              length-append F (O ++ L),
              length-append O L,
            ))
            later) in
      let limit_stops = limit_Stops count tail stops in
      let (t4, order_lexed, ordered, no_filter) =
        order-ClauseBack chars documented order column order_at (L ++ tail) t5 limit_stops no_order
          limit_lexed in
      let order_stops = order_Stops order (L ++ tail) limit_stops in
      let (t3, filter_lexed, filtered, any) =
        filter-ClauseBack chars documented filter expr filter_at (O ++ (L ++ tail)) t4 order_stops
          no_filter order_lexed in
      let filter_stops = filter_Stops filter (O ++ (L ++ tail)) order_stops in
      let (t2, table_lexed, named) =
        ident-ReadBack chars documented (utf8 "table name") table name (from_at + 5)
          (F ++ (O ++ (L ++ tail))) t3 filter_stops tt filter_lexed in
      let behind : Bytes = table ++ (F ++ (O ++ (L ++ tail))) in
      let (t1, lexed, picked_as) =
        projection-ReadBack picked projected (start + 7) (FROM ++ behind)
          (word_at (utf8 "FROM") from_at ∷ t2) refl (from-no_comma from_at t2)
          (space-Lexed chars documented (start + 7 + length P) _ _ (
            keyword chars documented from_at 70 (82 ∷ 79 ∷ 77 ∷ []) (from_at + 5) behind t2 refl
              (omega arith) table_lexed)) in
      (
        word_at (utf8 "SELECT") start ∷ t1,
        keyword chars documented start 83 (69 ∷ 76 ∷ 69 ∷ 67 ∷ 84 ∷ []) (start + 7) _ t1 refl
            (omega arith) (rw (select_text P table F O L tail) lexed),
        select_read start from_at picked table filter order count t1 t2 t3 t4 t5 out picked_as named
            filtered ordered limited,
      )
