-- ===== src/Sql/Display.antt =====
-- crates/sql/src/ast.rs: `Display`, the text of a statement.
use choam.Base.{
  ℕ, zero, suc, ◌+◌, ◌/◌, ◌%◌, ◌==◌, Bool, true, false, Option, none, some, List, [], ◌∷◌, ◌++◌,
  Bytes, utf8, if◌then◌else◌,
}
use mathlib.Core.List.{map}
use choam.Base.Int.{ℤ, pos, negsuc}
use choam.Row.Value.{ColumnType}
use choam.Sql.Ast.{Literal, UnaryOp, BinaryOp, Expr, ColumnSpec, Projection, OrderBy, Statement}

unfoldable pub type_name : ColumnType → Bytes
type_name ColumnType.integer = utf8 "INTEGER"
type_name ColumnType.text = utf8 "TEXT"
type_name ColumnType.bytes = utf8 "BYTES"
type_name ColumnType.boolean = utf8 "BOOLEAN"

-- The decimal digits of a number in front of `out`; `fuel` bounds how many there are.
unfoldable pub digits_onto : ℕ → ℕ → Bytes → Bytes
digits_onto zero n out = out
digits_onto (suc fuel) n out =
    let more = digits_onto fuel (n / 10) ((48 + n % 10) ∷ out) in
    if n / 10 == 0 then (48 + n % 10) ∷ out else more

-- A number below 10 ^ 20, which every `i64` and `u64` is.
unfoldable pub decimal : ℕ → Bytes
unfolding digits_onto
decimal n = digits_onto 20 n []

unfoldable pub integer_text : ℤ → Bytes
unfolding decimal
integer_text (pos n) = decimal n
integer_text (negsuc n) = 45 ∷ decimal (suc n)

-- `s.replace('\'', "''")`
unfoldable pub double_quotes : Bytes → Bytes
double_quotes [] = []
double_quotes (b ∷ bs) = if b == 39 then 39 ∷ 39 ∷ double_quotes bs else b ∷ double_quotes bs

unfoldable pub display_literal : Literal → Bytes
unfolding integer_text double_quotes
display_literal Literal.null = utf8 "NULL"
display_literal (Literal.integer n) = integer_text n
display_literal (Literal.text s) = 39 ∷ (double_quotes s ++ 39 ∷ [])
display_literal (Literal.boolean true) = utf8 "TRUE"
display_literal (Literal.boolean false) = utf8 "FALSE"

unfoldable pub display_op : BinaryOp → Bytes
display_op BinaryOp.add = utf8 "+"
display_op BinaryOp.sub = utf8 "-"
display_op BinaryOp.mul = utf8 "*"
display_op BinaryOp.div = utf8 "/"
display_op BinaryOp.eq = utf8 "="
display_op BinaryOp.ne = utf8 "<>"
display_op BinaryOp.lt = utf8 "<"
display_op BinaryOp.le = utf8 "<="
display_op BinaryOp.gt = utf8 ">"
display_op BinaryOp.ge = utf8 ">="
display_op BinaryOp.and_op = utf8 "AND"
display_op BinaryOp.or_op = utf8 "OR"

abbrev pub parens : Bytes → Bytes
parens bs = utf8 "(" ++ (bs ++ utf8 ")")

unfoldable pub display_expr : Expr → Bytes
unfolding display_literal display_op
display_expr (Expr.literal l) = display_literal l
display_expr (Expr.column c) = c
display_expr (Expr.unary UnaryOp.neg e) = parens (utf8 "-" ++ display_expr e)
display_expr (Expr.unary UnaryOp.not_op e) = parens (utf8 "NOT " ++ display_expr e)
display_expr (Expr.binary l op r) =
    parens (display_expr l ++ (utf8 " " ++ (display_op op ++ (utf8 " " ++ display_expr r))))
display_expr (Expr.is_null e false) = parens (display_expr e ++ utf8 " IS NULL")
display_expr (Expr.is_null e true) = parens (display_expr e ++ utf8 " IS NOT NULL")

-- `items.join(", ")`
unfoldable pub join : List Bytes → Bytes
join [] = []
join (x ∷ []) = x
join (x ∷ y ∷ xs) = x ++ (utf8 ", " ++ join (y ∷ xs))

abbrev pub text_if : Bool → Bytes → Bytes
text_if true bs = bs
text_if false bs = []

unfoldable pub display_column : ColumnSpec → Bytes
unfolding type_name
display_column c =
    c.name
    ++ (utf8 " "
        ++ (type_name c.ty
            ++ (text_if c.primary_key (utf8 " PRIMARY KEY")
                ++ text_if c.not_null (utf8 " NOT NULL"))))

unfoldable pub display_filter : Option Expr → Bytes
unfolding display_expr
display_filter none = []
display_filter (some w) = utf8 " WHERE " ++ display_expr w

abbrev pub display_columns : Option (List Bytes) → Bytes
display_columns none = []
display_columns (some cols) = utf8 " " ++ parens (join cols)

abbrev pub display_projection : Projection → Bytes
display_projection Projection.all = utf8 "*"
display_projection (Projection.columns c) = join c

abbrev pub display_order : Option OrderBy → Bytes
display_order none = []
display_order (some o) =
    utf8 " ORDER BY " ++ (o.column ++ (if o.descending then utf8 " DESC" else utf8 " ASC"))

abbrev pub display_limit : Option ℕ → Bytes
display_limit none = []
display_limit (some n) = utf8 " LIMIT " ++ decimal n

abbrev pub display_assignment : Bytes × Expr → Bytes
display_assignment (c, e) = c ++ (utf8 " = " ++ display_expr e)

unfoldable pub display : Statement → Bytes
unfolding display_expr display_column display_filter join decimal
display (Statement.create_table name columns) =
    utf8 "CREATE TABLE " ++ (name ++ (utf8 " " ++ parens (join (map display_column columns))))
display (Statement.insert table columns rows) =
    utf8 "INSERT INTO "
    ++ (table
        ++ (display_columns columns
            ++ (utf8 " VALUES " ++ join (map (λ row. parens (join (map display_expr row))) rows))))
display (Statement.select projection table filter order_by limit) =
    utf8 "SELECT "
    ++ (display_projection projection
        ++ (utf8 " FROM "
            ++ (table
                ++ (display_filter filter ++ (display_order order_by ++ display_limit limit)))))
display (Statement.update table assignments filter) =
    utf8 "UPDATE "
    ++ (table
        ++ (utf8 " SET " ++ (join (map display_assignment assignments) ++ display_filter filter)))
display (Statement.delete table filter) = utf8 "DELETE FROM " ++ (table ++ display_filter filter)
display Statement.begin = utf8 "BEGIN"
display Statement.commit = utf8 "COMMIT"
display Statement.rollback = utf8 "ROLLBACK"
