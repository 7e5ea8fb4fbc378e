-- ===== src/Sql/Parser/Total/Statements.antt =====
-- Every statement is read or refused, and so is every script: no loop runs out of fuel.
use choam.Base.{
  ℕ, zero, suc, ◌<◌, Bool, true, false, Option, none, some, List, [], ◌∷◌, Bytes, ok, err, ◌>>=◌,
  length, arith, if◌then◌else◌, utf8,
}
use choam.Row.Value.{ColumnType}
use choam.Sql.Ast.{Expr, Projection, OrderBy, Statement}
use choam.Sql.Token.{Token}
use choam.Sql.Parser.{
  Tokens, Parse, tail, unexpected, is_next, expect, at_keyword, expect_keyword, ident, comma_list,
  ident_list,
}
use choam.Sql.Parser.Expr.{expression}
use choam.Sql.Parser.Statement.{
  column_type, constraints, column_spec, create_table, insert_columns, values_row, insert,
  opt_where, projection, direction, order_by, limit_value, limit, select, assignment, update,
  delete, statement,
}
use choam.Base.Done.{Done, Done-bind, Done-weaken, Done-if}
use choam.Sql.Parser.Total.{
  Fewer, Short, tail-Short, is_next-Short, at_keyword-Short, expect-Done, expect_keyword-Done,
  ident-Done, comma_list-Done, ident_list-Done,
}
use choam.Sql.Parser.Total.Levels.{expression-Done}

-- One token is taken before the rest of a rule.
module _ {B : Type 0} (n : ℕ) where
  then_keyword :
      (kw : Bytes) (ts : Tokens) (k : Tokens → Parse B)
      → ((rest : Tokens) → length rest < length ts → Done (Fewer n) (k rest))
      → Done (Fewer n) (expect_keyword kw ts >>= k)
  then_keyword kw ts k next =
      Done-bind (Short (length ts)) (Fewer n) (expect_keyword kw ts) k (expect_keyword-Done kw ts)
        next

  then_token :
      (want : Token) (what : Bytes) (ts : Tokens) (k : Tokens → Parse B)
      → ((rest : Tokens) → length rest < length ts → Done (Fewer n) (k rest))
      → Done (Fewer n) (expect want what ts >>= k)
  then_token want what ts k next =
      Done-bind (Short (length ts)) (Fewer n) (expect want what ts) k (expect-Done want what ts)
        next

  then_part :
      {A : Type 0} (m : ℕ) (r : Parse A) (k : A × Tokens → Parse B)
      → Done (Fewer m) r
      → ((p : A × Tokens) → length p.1 < m → Done (Fewer n) (k p))
      → Done (Fewer n) (r >>= k)
  then_part m r k h next = Done-bind (Fewer m) (Fewer n) r k h next

-- A part that may take no token.
abbrev Optional : {A : Type 0} → (Tokens → Parse A) → Type 0
Optional p = (ts : Tokens) → Done (Fewer (suc (length ts))) (p ts)

abbrev pub Part : {A : Type 0} → (Tokens → Parse A) → Type 0
Part p = (ts : Tokens) → Done (Fewer (length ts)) (p ts)

opt_where-Done : Optional opt_where
unfolding opt_where
opt_where-Done ts =
    let wrap : Expr × Tokens → Parse (Option Expr) = λ p. ok (some p.0, p.1) in
    Done-if (Fewer {A = Option Expr} (suc (length ts))) (at_keyword (utf8 "WHERE") ts)
      (expression (tail ts) >>= wrap) (ok (none, ts))
      (λ where_at.
        let shorter = at_keyword-Short (utf8 "WHERE") ts where_at in
        then_part (suc (length ts)) (length (tail ts)) (expression (tail ts)) wrap
          (expression-Done (tail ts)) (λ p fewer. omega arith))
      (λ _. omega arith)

column_type-Done : Part column_type
unfolding column_type
column_type-Done ts =
    let P = Fewer {A = ColumnType} (length ts) in
    let none_of = err (unexpected (utf8 "a column type (INTEGER, TEXT, BYTES, BOOLEAN)") ts) in
    let boolean =
      if at_keyword (utf8 "BOOLEAN") ts then ok (ColumnType.boolean, tail ts) else none_of in
    let bytes = if at_keyword (utf8 "BYTES") ts then ok (ColumnType.bytes, tail ts) else boolean in
    let text = if at_keyword (utf8 "TEXT") ts then ok (ColumnType.text, tail ts) else bytes in
    Done-if P (at_keyword (utf8 "INTEGER") ts) (ok (ColumnType.integer, tail ts)) text
      (at_keyword-Short (utf8 "INTEGER") ts)
      λ _.
        Done-if P (at_keyword (utf8 "TEXT") ts) (ok (ColumnType.text, tail ts)) bytes
          (at_keyword-Short (utf8 "TEXT") ts)
          λ _.
            Done-if P (at_keyword (utf8 "BYTES") ts) (ok (ColumnType.bytes, tail ts)) boolean
              (at_keyword-Short (utf8 "BYTES") ts)
              λ _.
                Done-if P (at_keyword (utf8 "BOOLEAN") ts) (ok (ColumnType.boolean, tail ts))
                  none_of (at_keyword-Short (utf8 "BOOLEAN") ts) (λ _. tt)

constraints-Done :
    (fuel : ℕ) (pk nn : Bool) (ts : Tokens)
    → length ts < fuel
    → Done (Fewer (suc (length ts))) (constraints fuel pk nn ts)
unfolding constraints
constraints-Done zero pk nn ts h = absurd (omega arith)
constraints-Done (suc fuel) pk nn ts h =
    let P = Fewer {A = Bool × Bool} (suc (length ts)) in
    let filled = expect_keyword (utf8 "NULL") (tail ts) >>= constraints fuel pk true in
    let stop : Parse (Bool × Bool) = ok ((pk, nn), ts) in
    Done-if P (at_keyword (utf8 "PRIMARY") ts)
      (expect_keyword (utf8 "KEY") (tail ts) >>= constraints fuel true nn)
      (if at_keyword (utf8 "NOT") ts then filled else stop)
      (λ at.
        let shorter = at_keyword-Short (utf8 "PRIMARY") ts at in
        then_keyword (suc (length ts)) (utf8 "KEY") (tail ts) (constraints fuel true nn)
          λ rest fewer.
            Done-weaken (Fewer (suc (length rest))) P (constraints fuel true nn rest)
              (constraints-Done fuel true nn rest (omega arith)) (λ q fewest. omega arith))
      λ _.
        Done-if P (at_keyword (utf8 "NOT") ts) filled stop
          (λ at.
            let shorter = at_keyword-Short (utf8 "NOT") ts at in
            then_keyword (suc (length ts)) (utf8 "NULL") (tail ts) (constraints fuel pk true)
              λ rest fewer.
                Done-weaken (Fewer (suc (length rest))) P (constraints fuel pk true rest)
                  (constraints-Done fuel pk true rest (omega arith)) (λ q fewest. omega arith))
          (λ _. omega arith)

pub column_spec-Done : Part column_spec
unfolding column_spec
column_spec-Done ts =
    then_part (length ts) (length ts) (ident (utf8 "column name") ts) _
      (ident-Done (utf8 "column name") ts)
      λ p f. then_part (length ts) (length p.1) (column_type p.1) _ (column_type-Done p.1) λ q g.
        then_part (length ts) (suc (length q.1)) (constraints (suc (length q.1)) false false q.1) _
          (constraints-Done (suc (length q.1)) false false q.1 (omega arith)) (λ r h. omega arith)

create_table-Done : Part create_table
unfolding create_table
create_table-Done ts = then_keyword (length ts) (utf8 "TABLE") ts _ λ named f.
    then_part (length ts) (length named) (ident (utf8 "table name") named) _
      (ident-Done (utf8 "table name") named)
      λ p g. then_token (length ts) Token.l_paren (utf8 "`(`") p.1 _ λ opened h.
        then_part (length ts) (length opened) (comma_list column_spec (suc (length opened)) opened)
          _
          (comma_list-Done column_spec column_spec-Done (suc (length opened)) opened (omega arith))
          λ q i.
            then_token (length ts) Token.r_paren (utf8 "`)` or `,`") q.1 _ (λ closed j. omega arith)

insert_columns-Done : Optional insert_columns
unfolding insert_columns
insert_columns-Done ts =
    let close : List Bytes × Tokens → Parse (Option (List Bytes)) =
      λ p. expect Token.r_paren (utf8 "`)`") p.1 >>= λ closed. ok (some p.0, closed) in
    Done-if (Fewer {A = Option (List Bytes)} (suc (length ts))) (is_next Token.l_paren ts)
      (ident_list (utf8 "column name") (tail ts) >>= close) (ok (none, ts))
      (λ at.
        let shorter = is_next-Short Token.l_paren ts at in
        then_part (suc (length ts)) (length (tail ts)) (ident_list (utf8 "column name") (tail ts))
          close (ident_list-Done (utf8 "column name") (tail ts))
          λ p f.
            then_token (suc (length ts)) Token.r_paren (utf8 "`)`") p.1 _ (λ closed j. omega arith))
      (λ _. omega arith)

pub values_row-Done : Part values_row
unfolding values_row
values_row-Done ts = then_token (length ts) Token.l_paren (utf8 "`(`") ts _ λ opened h.
    then_part (length ts) (length opened) (comma_list expression (suc (length opened)) opened) _
      (comma_list-Done expression expression-Done (suc (length opened)) opened (omega arith))
      λ q i.
        then_token (length ts) Token.r_paren (utf8 "`)` or `,`") q.1 _ (λ closed j. omega arith)

insert-Done : Part insert
unfolding insert
insert-Done ts = then_keyword (length ts) (utf8 "INTO") ts _ λ into f.
    then_part (length ts) (length into) (ident (utf8 "table name") into) _
      (ident-Done (utf8 "table name") into)
      λ p g.
        then_part (length ts) (suc (length p.1)) (insert_columns p.1) _ (insert_columns-Done p.1)
          λ q h. then_keyword (length ts) (utf8 "VALUES") q.1 _ λ valued i.
            then_part (length ts) (length valued)
              (comma_list values_row (suc (length valued)) valued) _
              (comma_list-Done values_row values_row-Done (suc (length valued)) valued
                (omega arith))
              (λ r j. omega arith)

projection-Done : Part projection
unfolding projection
projection-Done ts =
    let wrap : List Bytes × Tokens → Parse Projection = λ p. ok (Projection.columns p.0, p.1) in
    let what = utf8 "column name or `*`" in
    Done-if (Fewer {A = Projection} (length ts)) (is_next Token.star ts)
      (ok (Projection.all, tail ts)) (ident_list what ts >>= wrap) (is_next-Short Token.star ts)
      (λ _.
        then_part (length ts) (length ts) (ident_list what ts) wrap (ident_list-Done what ts)
          (λ p f. f))

length-direction : (ts : Tokens) → length (direction ts).1 < suc (length ts)
unfolding direction
length-direction ts = ground (arith, tail-Short ts)

order_by-Done : Optional order_by
unfolding order_by
order_by-Done ts =
    let wrap : Bytes × Tokens → Parse (Option OrderBy) =
      λ p. ok (some (record { column = p.0; descending = (direction p.1).0 }), (direction p.1).1) in
    let named : Tokens → Parse (Option OrderBy) = λ by. ident (utf8 "column name") by >>= wrap in
    Done-if (Fewer {A = Option OrderBy} (suc (length ts))) (at_keyword (utf8 "ORDER") ts)
      (expect_keyword (utf8 "BY") (tail ts) >>= named) (ok (none, ts))
      (λ at.
        let shorter = at_keyword-Short (utf8 "ORDER") ts at in
        then_keyword (suc (length ts)) (utf8 "BY") (tail ts) named λ by f.
          then_part (suc (length ts)) (length by) (ident (utf8 "column name") by) wrap
            (ident-Done (utf8 "column name") by) (λ p g. omega (arith, length-direction p.1)))
      (λ _. omega arith)

limit_value-Done : (at ts : Tokens) → Done (Fewer (suc (length ts))) (limit_value at ts)
unfolding limit_value
limit_value-Done at [] = tt
limit_value-Done at ((Token.integer n, start) ∷ ts) = omega arith
limit_value-Done at ((t, start) ∷ ts) = tt

limit-Done : Optional limit
unfolding limit
limit-Done ts =
    Done-if (Fewer {A = Option ℕ} (suc (length ts))) (at_keyword (utf8 "LIMIT") ts)
      (limit_value ts (tail ts)) (ok (none, ts))
      (λ at.
        let shorter = at_keyword-Short (utf8 "LIMIT") ts at in
        Done-weaken (Fewer (suc (length (tail ts)))) (Fewer (suc (length ts)))
          (limit_value ts (tail ts)) (limit_value-Done ts (tail ts)) (λ p f. omega arith))
      (λ _. omega arith)

select-Done : Part select
unfolding select
select-Done ts = then_part (length ts) (length ts) (projection ts) _ (projection-Done ts) λ p f.
    then_keyword (length ts) (utf8 "FROM") p.1 _ λ from g.
      then_part (length ts) (length from) (ident (utf8 "table name") from) _
        (ident-Done (utf8 "table name") from)
        λ q h.
          then_part (length ts) (suc (length q.1)) (opt_where q.1) _ (opt_where-Done q.1) λ r i.
            then_part (length ts) (suc (length r.1)) (order_by r.1) _ (order_by-Done r.1) λ s j.
              then_part (length ts) (suc (length s.1)) (limit s.1) _ (limit-Done s.1)
                (λ t k. omega arith)

pub assignment-Done : Part assignment
unfolding assignment
assignment-Done ts =
    then_part (length ts) (length ts) (ident (utf8 "column name") ts) _
      (ident-Done (utf8 "column name") ts)
      λ p f. then_token (length ts) Token.eq (utf8 "`=`") p.1 _ λ assigned g.
        then_part (length ts) (length assigned) (expression assigned) _ (expression-Done assigned)
          (λ q h. omega arith)

update-Done : Part update
unfolding update
update-Done ts =
    then_part (length ts) (length ts) (ident (utf8 "table name") ts) _
      (ident-Done (utf8 "table name") ts)
      λ p f. then_keyword (length ts) (utf8 "SET") p.1 _ λ set g.
        then_part (length ts) (length set) (comma_list assignment (suc (length set)) set) _
          (comma_list-Done assignment assignment-Done (suc (length set)) set (omega arith))
          λ q h.
            then_part (length ts) (suc (length q.1)) (opt_where q.1) _ (opt_where-Done q.1)
              (λ r i. omega arith)

delete-Done : Part delete
unfolding delete
delete-Done ts = then_keyword (length ts) (utf8 "FROM") ts _ λ from f.
    then_part (length ts) (length from) (ident (utf8 "table name") from) _
      (ident-Done (utf8 "table name") from)
      λ p g.
        then_part (length ts) (suc (length p.1)) (opt_where p.1) _ (opt_where-Done p.1)
          (λ q h. omega arith)

-- A rule that starts with a keyword, and the rules tried after it.
rule-Done :
    (kw : Bytes) (ts : Tokens) (rule : Tokens → Parse Statement) (others : Parse Statement)
    → Optional rule
    → Done (Fewer (length ts)) others
    → Done (Fewer (length ts)) (if at_keyword kw ts then rule (tail ts) else others)
rule-Done kw ts rule others h k =
    Done-if (Fewer (length ts)) (at_keyword kw ts) (rule (tail ts)) others
      (λ at.
        let shorter = at_keyword-Short kw ts at in
        Done-weaken (Fewer (suc (length (tail ts)))) (Fewer (length ts)) (rule (tail ts))
          (h (tail ts)) (λ p f. omega arith))
      (λ _. k)

weaken : {A : Type 0} (p : Tokens → Parse A) → Part p → Optional p
weaken p h ts =
    Done-weaken (Fewer (length ts)) (Fewer (suc (length ts))) (p ts) (h ts) (λ q f. omega arith)

pub statement-Done : Part statement
unfolding statement
statement-Done ts =
    rule-Done (utf8 "CREATE") ts create_table _ (weaken create_table create_table-Done) (
      rule-Done (utf8 "INSERT") ts insert _ (weaken insert insert-Done) (
        rule-Done (utf8 "SELECT") ts select _ (weaken select select-Done) (
          rule-Done (utf8 "UPDATE") ts update _ (weaken update update-Done) (
            rule-Done (utf8 "DELETE") ts delete _ (weaken delete delete-Done) (
              rule-Done (utf8 "BEGIN") ts (λ rest. ok (Statement.begin, rest)) _
                (λ rest. omega arith)
                (rule-Done (utf8 "COMMIT") ts (λ rest. ok (Statement.commit, rest)) _
                  (λ rest. omega arith)
                  (rule-Done (utf8 "ROLLBACK") ts (λ rest. ok (Statement.rollback, rest)) _
                    (λ rest. omega arith) tt)))))))
