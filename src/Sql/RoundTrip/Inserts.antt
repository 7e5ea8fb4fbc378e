-- ===== src/Sql/RoundTrip/Inserts.antt =====
-- INSERT is read back.
use choam.Base.{
  ℕ, suc, ◌+◌, ◌≡◌, refl, ◌∙◌, false, Option, none, some, List, [], ◌∷◌, ◌++◌, Bytes, ok, length,
  arith, append_assoc, length-append, utf8,
}
use mathlib.Core.List.{map}
use choam.Sql.Ast.{Expr, Statement}
use choam.Sql.Token.{Token}
use choam.Sql.Keyword.{eq_ignore_ascii_case}
use choam.Sql.Display.{display, display_expr, display_columns, parens, join}
use choam.Sql.Lexer.{CharClass}
use choam.Sql.Parser.{
  Tokens, is_next, at_keyword, expect_keyword, expect, ident, comma_list, ident_list,
}
use choam.Sql.Parser.Expr.{expression}
use choam.Sql.Parser.Statement.{statement, insert_columns, values_row, insert}
use choam.Sql.Parser.Total.Levels.{expression-Done}
use choam.Sql.Parser.Total.Statements.{values_row-Done}
use choam.Sql.RoundTrip.Levels.{NoOr, word_at}
use choam.Sql.RoundTrip.Lifts.{r_paren-NoOr}
use choam.Sql.RoundTrip.Steps.{Stops, DocumentedClasses, space-Lexed}
use choam.Sql.RoundTrip.Texts.{moved, open_paren}
use choam.Sql.RoundTrip.Lexed.{keyword, closed}
use choam.Sql.RoundTrip.Pieces.{
  ReadBack, Anything, IsName, ident-ReadBack, IsExpr, expression-ReadBack, OneOrMore, listed,
  ident_list-ReadBack,
}
use choam.Sql.RoundTrip.Clauses.{bind_ok, ClauseBack, NoItem}
use choam.Sql.RoundTrip.Changes.{comma-NoOr}

row_read :
    (start close : ℕ) (row : List Expr) (ts out : Tokens)
    → comma_list expression (suc (length ts)) ts ≡ ok (row, (Token.r_paren, close) ∷ out)
    → values_row ((Token.l_paren, start) ∷ ts) ≡ ok (row, out)
unfolding values_row expect is_next
row_read start close row ts out read = bind_ok _ read

columns_read :
    (start close : ℕ) (columns : List Bytes) (ts out : Tokens)
    → ident_list (utf8 "column name") ts ≡ ok (columns, (Token.r_paren, close) ∷ out)
    → insert_columns ((Token.l_paren, start) ∷ ts) ≡ ok (some columns, out)
unfolding insert_columns expect is_next
columns_read start close columns ts out read = bind_ok _ read

no_columns : (ts : Tokens) → is_next Token.l_paren ts ≡ false → insert_columns ts ≡ ok (none, ts)
unfolding insert_columns
no_columns ts h = rw h

insert_read :
    (start into at : ℕ) (table : Bytes) (columns : Option (List Bytes)) (rows : List (List Expr))
    (ts left after out : Tokens)
    → ident (utf8 "table name") ts ≡ ok (table, left)
    → insert_columns left ≡ ok (columns, word_at (utf8 "VALUES") at ∷ after)
    → comma_list values_row (suc (length after)) after ≡ ok (rows, out)
    → statement (word_at (utf8 "INSERT") start ∷ word_at (utf8 "INTO") into ∷ ts)
      ≡ ok (Statement.insert table columns rows, out)
unfolding statement insert expect_keyword at_keyword eq_ignore_ascii_case utf8
insert_read start into at table columns rows ts left after out named picked listed_as =
    bind_ok _ named ∙ bind_ok _ picked ∙ bind_ok _ listed_as

close-no_comma : (at : ℕ) (ts : Tokens) → is_next Token.comma ((Token.r_paren, at) ∷ ts) ≡ false
unfolding is_next
close-no_comma at ts = refl

values-no_paren :
    (at : ℕ) (ts : Tokens) → is_next Token.l_paren (word_at (utf8 "VALUES") at ∷ ts) ≡ false
unfolding is_next
values-no_paren at ts = refl

module _ (chars : CharClass) (documented : DocumentedClasses chars) where
  abbrev pub IsRow : List Expr → Type 0
  IsRow row = OneOrMore (IsExpr chars documented) row

  abbrev display_row : List Expr → Bytes
  display_row row = parens (join (map display_expr row))

  row-ReadBack :
      (row : List Expr)
      → IsRow row
      → ReadBack chars documented values_row Anything (display_row row) row
  unfolding utf8
  row-ReadBack row exprs start tail out stops fine later =
      let list = join (map display_expr row) in
      let close : ℕ = start + 1 + length list in
      let (ts, lexed, read) =
        listed chars documented expression NoOr display_expr comma-NoOr expression-Done
          (IsExpr chars documented) (expression-ReadBack chars documented) row exprs (start + 1)
          (41 ∷ tail) ((Token.r_paren, close) ∷ out) refl
          (r_paren-NoOr close out, close-no_comma close out)
          (closed chars documented close _ tail out (omega (arith, length-append list (41 ∷ [])))
            later) in
      (
        (Token.l_paren, start) ∷ ts,
        rw (append_assoc list (41 ∷ []) tail)
            (open_paren chars documented start (list ++ 41 ∷ tail) ts lexed),
        row_read start close row ts out read,
      )

  abbrev pub MaybeNames : Option (List Bytes) → Type 0
  MaybeNames none = Unit
  MaybeNames (some names) = OneOrMore (IsName chars documented) names

  columns-ClauseBack :
      (columns : Option (List Bytes))
      → MaybeNames columns
      → ClauseBack chars documented insert_columns
          (λ out. is_next Token.l_paren out ≡ false)
          Anything
          (display_columns columns)
          columns
  unfolding utf8
  columns-ClauseBack none h start tail out stops fine later =
      (out, moved chars documented _ _ tail out (omega arith) later, no_columns out fine, tt)
  columns-ClauseBack (some columns) h start tail out stops fine later =
      let list = join columns in
      let close : ℕ = start + 2 + length list in
      let (ts, lexed, read) =
        ident_list-ReadBack chars documented (utf8 "column name") columns h (start + 2) (41 ∷ tail)
          ((Token.r_paren, close) ∷ out) refl (close-no_comma close out)
          (closed chars documented close _ tail out (omega (arith, length-append list (41 ∷ [])))
            later) in
      (
        (Token.l_paren, start + 1) ∷ ts,
        rw (append_assoc list (41 ∷ []) tail) (
            space-Lexed chars documented start _ _ (
              open_paren chars documented (start + 1) (list ++ 41 ∷ tail) ts
                (moved chars documented (start + 2) (start + 1 + 1) _ ts (omega arith) lexed))),
        columns_read (start + 1) close columns ts out read,
        tt,
      )

  columns_Stops :
      (columns : Option (List Bytes)) (tail : Bytes)
      → Stops tail
      → Stops (display_columns columns ++ tail)
  unfolding utf8
  columns_Stops none tail h = h
  columns_Stops (some columns) tail h = refl

  pub insert-ReadBack :
      (table : Bytes) (columns : Option (List Bytes)) (rows : List (List Expr))
      → IsName chars documented table
      → MaybeNames columns
      → OneOrMore IsRow rows
      → ReadBack chars documented statement NoItem
          (display (Statement.insert table columns rows))
          (Statement.insert table columns rows)
  unfolding display utf8
  insert-ReadBack table columns rows name names all start tail out stops fine later =
      let picked = display_columns columns in
      let list = join (map display_row rows) in
      let behind : Bytes = 32 ∷ 86 ∷ 65 ∷ 76 ∷ 85 ∷ 69 ∷ 83 ∷ 32 ∷ (list ++ tail) in
      let columns_at : ℕ = start + 12 + length table in
      let values_at : ℕ = columns_at + length picked + 1 in
      let (rows_ts, rows_lexed, rows_read) =
        listed chars documented values_row Anything display_row (λ at ts. tt) values_row-Done IsRow
          row-ReadBack rows all (values_at + 7) tail out stops (tt, fine.1)
          (moved chars documented _ _ tail out
            (omega (
              arith,
              length-append picked (32 ∷ 86 ∷ 65 ∷ 76 ∷ 85 ∷ 69 ∷ 83 ∷ 32 ∷ list),
              length-append table (picked ++ 32 ∷ 86 ∷ 65 ∷ 76 ∷ 85 ∷ 69 ∷ 83 ∷ 32 ∷ list),
            ))
            later) in
      let values_ts : Tokens = word_at (utf8 "VALUES") values_at ∷ rows_ts in
      let (left, left_lexed, columns_as, any) =
        columns-ClauseBack columns names columns_at behind values_ts refl
          (values-no_paren values_at rows_ts)
          (space-Lexed chars documented (columns_at + length picked) _ _ (
            keyword chars documented values_at 86 (65 ∷ 76 ∷ 85 ∷ 69 ∷ 83 ∷ []) (values_at + 7) _
              rows_ts refl (omega arith) rows_lexed)) in
      let (ts, lexed, named) =
        ident-ReadBack chars documented (utf8 "table name") table name (start + 12)
          (picked ++ behind) left (columns_Stops columns behind refl) tt left_lexed in
      (
        word_at (utf8 "INSERT") start ∷ word_at (utf8 "INTO") (start + 7) ∷ ts,
        keyword chars documented start 73 (78 ∷ 83 ∷ 69 ∷ 82 ∷ 84 ∷ []) (start + 7) _ _ refl
            (omega arith)
            (keyword chars documented (start + 7) 73 (78 ∷ 84 ∷ 79 ∷ []) (start + 12) _ ts refl
              (omega arith)
              (rw
                (
                  append_assoc table (picked ++ 32 ∷ 86 ∷ 65 ∷ 76 ∷ 85 ∷ 69 ∷ 83 ∷ 32 ∷ list) tail,
                  append_assoc picked (32 ∷ 86 ∷ 65 ∷ 76 ∷ 85 ∷ 69 ∷ 83 ∷ 32 ∷ list) tail,
                )
                lexed)),
        insert_read start (start + 7) values_at table columns rows ts left rows_ts out named
            columns_as rows_read,
      )
