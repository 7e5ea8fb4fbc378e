-- ===== src/Sql/Parser/Statement.antt =====
-- crates/sql/src/parser.rs: statements.
use choam.Base.{
  ℕ, zero, suc, Bool, true, false, Option, none, some, List, [], ◌∷◌, Bytes, ok, err, panic, ◌>>=◌,
  length, if◌then◌else◌, utf8,
}
use choam.Base.Int.{i64_as_u64}
use choam.Row.Value.{ColumnType}
use choam.Sql.Ast.{Expr, ColumnSpec, Projection, OrderBy, Statement}
use choam.Sql.Token.{Token}
use choam.Sql.Parser.{
  Tokens, Parse, tail, unexpected, is_next, expect, at_keyword, expect_keyword, ident, comma_list,
  ident_list,
}
use choam.Sql.Parser.Expr.{expression}

unfoldable pub column_type : Tokens → Parse ColumnType
unfolding at_keyword unexpected
column_type ts =
    if at_keyword (utf8 "INTEGER") ts
    then ok (ColumnType.integer, tail ts)
    else if at_keyword (utf8 "TEXT") ts
    then ok (ColumnType.text, tail ts)
    else if at_keyword (utf8 "BYTES") ts
    then ok (ColumnType.bytes, tail ts)
    else if at_keyword (utf8 "BOOLEAN") ts
    then ok (ColumnType.boolean, tail ts)
    else err (unexpected (utf8 "a column type (INTEGER, TEXT, BYTES, BOOLEAN)") ts)

-- The loop over PRIMARY KEY and NOT NULL; each round takes two tokens.
unfoldable pub constraints : ℕ → Bool → Bool → Tokens → Parse (Bool × Bool)
unfolding at_keyword expect_keyword
constraints zero primary_key not_null ts = panic
constraints (suc fuel) primary_key not_null ts =
    let keyed = (do
      after ← expect_keyword (utf8 "KEY") (tail ts)
      constraints fuel true not_null after) in
    let filled = (do
      after ← expect_keyword (utf8 "NULL") (tail ts)
      constraints fuel primary_key true after) in
    if at_keyword (utf8 "PRIMARY") ts
    then keyed
    else if at_keyword (utf8 "NOT") ts
    then filled
    else ok ((primary_key, not_null), ts)

unfoldable pub column_spec : Tokens → Parse ColumnSpec
unfolding ident column_type constraints
column_spec ts = do
  (name, after) ← ident (utf8 "column name") ts
  (ty, left) ← column_type after
  ((primary_key, not_null), rest) ← constraints (suc (length left)) false false left
  ok (record { name = name; ty = ty; primary_key = primary_key; not_null = not_null }, rest)

unfoldable pub create_table : Tokens → Parse Statement
unfolding expect_keyword ident expect comma_list column_spec
create_table ts = do
  named ← expect_keyword (utf8 "TABLE") ts
  (name, after) ← ident (utf8 "table name") named
  opened ← expect Token.l_paren (utf8 "`(`") after
  (columns, left) ← comma_list column_spec (suc (length opened)) opened
  closed ← expect Token.r_paren (utf8 "`)` or `,`") left
  ok (Statement.create_table name columns, closed)

unfoldable pub insert_columns : Tokens → Parse (Option (List Bytes))
unfolding is_next ident_list expect
insert_columns ts =
    let listed = (do
      (columns, left) ← ident_list (utf8 "column name") (tail ts)
      closed ← expect Token.r_paren (utf8 "`)`") left
      ok (some columns, closed)) in
    if is_next Token.l_paren ts then listed else ok (none, ts)

unfoldable pub values_row : Tokens → Parse (List Expr)
unfolding expect comma_list expression
values_row ts = do
  opened ← expect Token.l_paren (utf8 "`(`") ts
  (row, left) ← comma_list expression (suc (length opened)) opened
  closed ← expect Token.r_paren (utf8 "`)` or `,`") left
  ok (row, closed)

unfoldable pub insert : Tokens → Parse Statement
unfolding expect_keyword ident insert_columns comma_list values_row
insert ts = do
  into ← expect_keyword (utf8 "INTO") ts
  (table, after) ← ident (utf8 "table name") into
  (columns, left) ← insert_columns after
  valued ← expect_keyword (utf8 "VALUES") left
  (rows, rest) ← comma_list values_row (suc (length valued)) valued
  ok (Statement.insert table columns rows, rest)

unfoldable pub opt_where : Tokens → Parse (Option Expr)
unfolding at_keyword expression
opt_where ts =
    let filtered = (do (e, left) ← expression (tail ts); ok (some e, left)) in
    if at_keyword (utf8 "WHERE") ts then filtered else ok (none, ts)

unfoldable pub projection : Tokens → Parse Projection
unfolding is_next ident_list
projection ts =
    let named = (do
      (columns, left) ← ident_list (utf8 "column name or `*`") ts
      ok (Projection.columns columns, left)) in
    if is_next Token.star ts then ok (Projection.all, tail ts) else named

-- DESC, or ASC, or neither.
unfoldable pub direction : Tokens → Bool × Tokens
unfolding at_keyword
direction ts =
    if at_keyword (utf8 "DESC") ts
    then (true, tail ts)
    else if at_keyword (utf8 "ASC") ts
    then (false, tail ts)
    else (false, ts)

unfoldable pub order_by : Tokens → Parse (Option OrderBy)
unfolding at_keyword expect_keyword ident direction
order_by ts =
    let ordered = (do
      by ← expect_keyword (utf8 "BY") (tail ts)
      (column, left) ← ident (utf8 "column name") by
      let (descending, rest) = direction left
      ok (some (record { column = column; descending = descending }), rest)) in
    if at_keyword (utf8 "ORDER") ts then ordered else ok (none, ts)

-- What follows LIMIT. `advance` stays at the end of the input, and the error steps back by one token
-- all the same: at the end it is reported at LIMIT itself.
unfoldable pub limit_value : Tokens → Tokens → Parse (Option ℕ)
unfolding unexpected
limit_value limit_at ((Token.integer n, start) ∷ ts) = ok (some (i64_as_u64 n), ts)
limit_value limit_at [] = err (unexpected (utf8 "an integer") limit_at)
limit_value limit_at ts = err (unexpected (utf8 "an integer") ts)

unfoldable pub limit : Tokens → Parse (Option ℕ)
unfolding at_keyword limit_value
limit ts = if at_keyword (utf8 "LIMIT") ts then limit_value ts (tail ts) else ok (none, ts)

unfoldable pub select : Tokens → Parse Statement
unfolding projection expect_keyword ident opt_where order_by limit
select ts = do
  (picked, after) ← projection ts
  from ← expect_keyword (utf8 "FROM") after
  (table, left) ← ident (utf8 "table name") from
  (filter, filtered) ← opt_where left
  (order, ordered) ← order_by filtered
  (count, rest) ← limit ordered
  ok (Statement.select picked table filter order count, rest)

unfoldable pub assignment : Tokens → Parse (Bytes × Expr)
unfolding ident expect expression
assignment ts = do
  (column, after) ← ident (utf8 "column name") ts
  assigned ← expect Token.eq (utf8 "`=`") after
  (e, rest) ← expression assigned
  ok ((column, e), rest)

unfoldable pub update : Tokens → Parse Statement
unfolding ident expect_keyword comma_list assignment opt_where
update ts = do
  (table, after) ← ident (utf8 "table name") ts
  set ← expect_keyword (utf8 "SET") after
  (assignments, left) ← comma_list assignment (suc (length set)) set
  (filter, rest) ← opt_where left
  ok (Statement.update table assignments filter, rest)

unfoldable pub delete : Tokens → Parse Statement
unfolding expect_keyword ident opt_where
delete ts = do
  from ← expect_keyword (utf8 "FROM") ts
  (table, after) ← ident (utf8 "table name") from
  (filter, rest) ← opt_where after
  ok (Statement.delete table filter, rest)

unfoldable pub statement : Tokens → Parse Statement
unfolding at_keyword unexpected create_table insert select update delete
statement ts =
    if at_keyword (utf8 "CREATE") ts
    then create_table (tail ts)
    else if at_keyword (utf8 "INSERT") ts
    then insert (tail ts)
    else if at_keyword (utf8 "SELECT") ts
    then select (tail ts)
    else if at_keyword (utf8 "UPDATE") ts
    then update (tail ts)
    else if at_keyword (utf8 "DELETE") ts
    then delete (tail ts)
    else if at_keyword (utf8 "BEGIN") ts
    then ok (Statement.begin, tail ts)
    else if at_keyword (utf8 "COMMIT") ts
    then ok (Statement.commit, tail ts)
    else if at_keyword (utf8 "ROLLBACK") ts
    then ok (Statement.rollback, tail ts)
    else err (unexpected (utf8 "a statement") ts)
