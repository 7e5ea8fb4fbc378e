-- ===== src/Sql/RoundTrip/Changes.antt =====
-- DELETE, UPDATE and INSERT are read back.
use choam.Base.{
  ℕ, suc, ◌+◌, ◌≡◌, refl, ◌∙◌, Option, List, [], ◌∷◌, ◌++◌, Bytes, ok, length, arith, append_assoc,
  length-append, utf8,
}
use mathlib.Core.List.{map}
use choam.Sql.Ast.{Expr, Statement}
use choam.Sql.Token.{Token}
use choam.Sql.Keyword.{eq_ignore_ascii_case}
use choam.Sql.Display.{display, display_expr, display_filter, display_assignment, join}
use choam.Sql.Lexer.{CharClass, symbol}
use choam.Sql.Parser.{Tokens, is_next, at_keyword, expect_keyword, expect, ident, comma_list}
use choam.Sql.Parser.Expr.{mul_op, add_op, cmp_op, expression}
use choam.Sql.Parser.Statement.{statement, opt_where, delete, assignment, update}
use choam.Sql.Parser.Total.Statements.{assignment-Done}
use choam.Sql.RoundTrip.Levels.{NoOr, word_at}
use choam.Sql.RoundTrip.Steps.{DocumentedClasses, space-Lexed, symbol-Lexed}
use choam.Sql.RoundTrip.Texts.{moved}
use choam.Sql.RoundTrip.Lexed.{keyword}
use choam.Sql.RoundTrip.Pieces.{
  ReadBack, IsName, ident-ReadBack, IsExpr, expression-ReadBack, OneOrMore, listed,
}
use choam.Sql.RoundTrip.Clauses.{bind_ok, NoFilter, MaybeExpr, filter-ClauseBack, filter_Stops}

delete_read :
    (start at : ℕ) (table : Bytes) (filter : Option Expr) (ts left out : Tokens)
    → ident (utf8 "table name") ts ≡ ok (table, left)
    → opt_where left ≡ ok (filter, out)
    → statement (word_at (utf8 "DELETE") start ∷ word_at (utf8 "FROM") at ∷ ts)
      ≡ ok (Statement.delete table filter, out)
unfolding statement delete expect_keyword at_keyword eq_ignore_ascii_case utf8
delete_read start at table filter ts left out named filtered = bind_ok _ named ∙ bind_ok _ filtered

assignment_read :
    (at : ℕ) (column : Bytes) (e : Expr) (ts after out : Tokens)
    → ident (utf8 "column name") ts ≡ ok (column, (Token.eq, at) ∷ after)
    → expression after ≡ ok (e, out)
    → assignment ts ≡ ok ((column, e), out)
unfolding assignment expect is_next
assignment_read at column e ts after out named read = bind_ok _ named ∙ bind_ok _ read

update_read :
    (start at : ℕ) (table : Bytes) (assignments : List (Bytes × Expr)) (filter : Option Expr)
    (ts after left out : Tokens)
    → ident (utf8 "table name") ts ≡ ok (table, word_at (utf8 "SET") at ∷ after)
    → comma_list assignment (suc (length after)) after ≡ ok (assignments, left)
    → opt_where left ≡ ok (filter, out)
    → statement (word_at (utf8 "UPDATE") start ∷ ts)
      ≡ ok (Statement.update table assignments filter, out)
unfolding statement update expect_keyword at_keyword eq_ignore_ascii_case utf8
update_read start at table assignments filter ts after left out named assigned filtered =
    bind_ok _ named ∙ bind_ok _ assigned ∙ bind_ok _ filtered

pub comma-NoOr : (at : ℕ) (ts : Tokens) → NoOr ((Token.comma, at) ∷ ts)
unfolding mul_op add_op cmp_op at_keyword
comma-NoOr at ts = ((((refl, refl), refl, refl), refl), refl)

module _ (chars : CharClass) (documented : DocumentedClasses chars) where
  pub delete-ReadBack :
      (table : Bytes) (filter : Option Expr)
      → IsName chars documented table
      → MaybeExpr chars documented filter
      → ReadBack chars documented statement NoFilter
          (display (Statement.delete table filter))
          (Statement.delete table filter)
  unfolding display utf8
  delete-ReadBack table filter name expr start tail out stops fine later =
      let clause = display_filter filter in
      let (left, left_lexed, filtered, any) =
        filter-ClauseBack chars documented filter expr (start + 12 + length table) tail out stops
          fine
          (moved chars documented _ _ tail out (omega (arith, length-append table clause)) later) in
      let (ts, lexed, named) =
        ident-ReadBack chars documented (utf8 "table name") table name (start + 12) (clause ++ tail)
          left (filter_Stops filter tail stops) tt left_lexed in
      (
        word_at (utf8 "DELETE") start ∷ word_at (utf8 "FROM") (start + 7) ∷ ts,
        keyword chars documented start 68 (69 ∷ 76 ∷ 69 ∷ 84 ∷ 69 ∷ []) (start + 7) _ _ refl
            (omega arith)
            (keyword chars documented (start + 7) 70 (82 ∷ 79 ∷ 77 ∷ []) (start + 12) _ ts refl
              (omega arith) (rw (append_assoc table clause tail) lexed)),
        delete_read start (start + 7) table filter ts left out named filtered,
      )

  abbrev pub IsAssignment : Bytes × Expr → Type 0
  IsAssignment (column, e) = IsName chars documented column × IsExpr chars documented e

  assignment-ReadBack :
      (x : Bytes × Expr)
      → IsAssignment x
      → ReadBack chars documented assignment NoOr (display_assignment x) x
  unfolding symbol utf8
  assignment-ReadBack (column, e) (name, expr) start tail out stops fine later =
      let at : ℕ = start + length column in
      let text = display_expr e in
      let (ts, lexed, read) =
        expression-ReadBack chars documented e expr (at + 3) tail out stops fine (
          moved chars documented _ _ tail out
            (omega (arith, length-append column (32 ∷ 61 ∷ 32 ∷ text))) later) in
      let (ts', lexed', named) =
        ident-ReadBack chars documented (utf8 "column name") column name start
          (32 ∷ 61 ∷ 32 ∷ (text ++ tail)) ((Token.eq, at + 1) ∷ ts) refl tt
          (space-Lexed chars documented at _ _ (
            symbol-Lexed chars documented (at + 1) 61 (32 ∷ (text ++ tail)) Token.eq ts
              (omega arith) (omega arith) refl
              (space-Lexed chars documented (at + 1 + 1) (text ++ tail) ts
                (moved chars documented (at + 3) (at + 1 + 1 + 1) _ ts (omega arith) lexed)))) in
      (
        ts',
        rw (append_assoc column (32 ∷ 61 ∷ 32 ∷ text) tail) lexed',
        assignment_read (at + 1) column e ts' ts out named read,
      )

  pub update-ReadBack :
      (table : Bytes) (assignments : List (Bytes × Expr)) (filter : Option Expr)
      → IsName chars documented table
      → OneOrMore IsAssignment assignments
      → MaybeExpr chars documented filter
      → ReadBack chars documented statement NoFilter
          (display (Statement.update table assignments filter))
          (Statement.update table assignments filter)
  unfolding display utf8
  update-ReadBack table assignments filter name assigned expr start tail out stops fine later =
      let clause = display_filter filter in
      let list = join (map display_assignment assignments) in
      let list_at : ℕ = start + 12 + length table in
      let (left, left_lexed, filtered, good) =
        filter-ClauseBack chars documented filter expr (list_at + length list) tail out stops fine (
          moved chars documented _ _ tail out
            (omega (
              arith,
              length-append list clause,
              length-append table (32 ∷ 83 ∷ 69 ∷ 84 ∷ 32 ∷ (list ++ clause)),
            ))
            later) in
      let (items, items_lexed, listed_as) =
        listed chars documented assignment NoOr display_assignment comma-NoOr assignment-Done
          IsAssignment assignment-ReadBack assignments assigned list_at (clause ++ tail) left
          (filter_Stops filter tail stops) good left_lexed in
      let set_at : ℕ = start + 7 + length table + 1 in
      let (ts, lexed, named) =
        ident-ReadBack chars documented (utf8 "table name") table name (start + 7)
          (32 ∷ 83 ∷ 69 ∷ 84 ∷ 32 ∷ (list ++ (clause ++ tail)))
          (word_at (utf8 "SET") set_at ∷ items) refl tt
          (space-Lexed chars documented (start + 7 + length table) _ _ (
            keyword chars documented set_at 83 (69 ∷ 84 ∷ []) list_at (list ++ (clause ++ tail))
              items refl (omega arith) items_lexed)) in
      (
        word_at (utf8 "UPDATE") start ∷ ts,
        keyword chars documented start 85 (80 ∷ 68 ∷ 65 ∷ 84 ∷ 69 ∷ []) (start + 7) _ ts refl
            (omega arith)
            (rw
              (
                append_assoc table (32 ∷ 83 ∷ 69 ∷ 84 ∷ 32 ∷ (list ++ clause)) tail,
                append_assoc list clause tail,
              )
              lexed),
        update_read start set_at table assignments filter ts items left out named listed_as
            filtered,
      )
