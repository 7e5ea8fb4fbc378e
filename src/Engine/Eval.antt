-- ===== src/Engine/Eval.antt =====
-- crates/engine/src/eval.rs: evaluation with three-valued logic.
pub mod Check
pub mod Operators
pub mod Safety
pub mod Logic
use Prim.Native.Nat.{Ordering}
use choam.Base.{
  ℕ, suc, Bool, true, false, not, ◌&&◌, ◌||◌, Option, none, some, List, [], ◌∷◌, ◌++◌, Bytes,
  Result, ok, err, panic, ◌>>=◌, ok_or, index, if◌then◌else◌, bytes_eq, utf8,
}
use mathlib.Core.Option
use choam.Base.Int.{
  ℤ, is_zero, checked_add, checked_sub, checked_mul, checked_div, checked_neg, compare_ℤ,
}
use choam.Base.Order.{compare_bytes, compare_bool}
use choam.Row.Value.{Value, ColumnType, is_null}
use choam.Row.Schema.{ColumnDef, Schema}
use choam.Sql.Ast.{Literal, UnaryOp, BinaryOp, Expr}
use choam.Engine.Error.{
  ExecError, message, unknown_column, type_mismatch, division_by_zero, integer_overflow,
}

-- The schema and the row that columns are read from, if there is a row.
abbrev pub RowCtx : Type 0
RowCtx = Option (Schema × List Value)

unfoldable pub type_name : Value → Bytes
type_name Value.null = utf8 "NULL"
type_name (Value.integer _) = utf8 "INTEGER"
type_name (Value.text _) = utf8 "TEXT"
type_name (Value.bytes _) = utf8 "BYTES"
type_name (Value.boolean _) = utf8 "BOOLEAN"

unfoldable pub mismatch : {S : Type 0} → Bytes → Value → Option Value → ExecError S
mismatch op a (some b) =
    type_mismatch
      (message (op ++ (utf8 " cannot combine " ++ (type_name a ++ (utf8 " and " ++ type_name b)))))
mismatch op a none = type_mismatch (message (op ++ (utf8 " cannot be applied to " ++ type_name a)))

-- `columns.iter().position(|c| c.name == name)`
unfoldable pub position : Bytes → List ColumnDef → Option ℕ
position name [] = none
position name (c ∷ cs) =
    let later = Option.map suc (position name cs) in if bytes_eq c.name name then some 0 else later

-- `columns.iter().find(|c| c.name == name)`
unfoldable pub find_column : Bytes → List ColumnDef → Option ColumnDef
find_column name [] = none
find_column name (c ∷ cs) =
    let later = find_column name cs in if bytes_eq c.name name then some c else later

unfoldable pub literal_value : Literal → Value
literal_value Literal.null = Value.null
literal_value (Literal.integer n) = Value.integer n
literal_value (Literal.text s) = Value.text s
literal_value (Literal.boolean b) = Value.boolean b

-- Orders two values of one type; `none` if the types differ.
unfoldable pub compare_values : Value → Value → Option Ordering
compare_values (Value.integer x) (Value.integer y) = some (compare_ℤ x y)
compare_values (Value.text x) (Value.text y) = some (compare_bytes x y)
compare_values (Value.bytes x) (Value.bytes y) = some (compare_bytes x y)
compare_values (Value.boolean x) (Value.boolean y) = some (compare_bool x y)
compare_values _ _ = none

abbrev pub and_logic : Option Bool → Option Bool → Option Bool
and_logic (some false) y = some false
and_logic (some true) (some true) = some true
and_logic (some true) (some false) = some false
and_logic (some true) none = none
and_logic none (some false) = some false
and_logic none (some true) = none
and_logic none none = none

abbrev pub or_logic : Option Bool → Option Bool → Option Bool
or_logic (some true) y = some true
or_logic (some false) (some false) = some false
or_logic (some false) (some true) = some true
or_logic (some false) none = none
or_logic none (some true) = some true
or_logic none (some false) = none
or_logic none none = none

abbrev pub from_logic : Option Bool → Value
from_logic none = Value.null
from_logic (some b) = Value.boolean b

-- The three groups of operators that `binary` tells apart.
pub data OpClass : Type 0 where
  logical arithmetical comparing : OpClass

unfoldable pub op_class : BinaryOp → OpClass
op_class BinaryOp.and_op = OpClass.logical
op_class BinaryOp.or_op = OpClass.logical
op_class BinaryOp.add = OpClass.arithmetical
op_class BinaryOp.sub = OpClass.arithmetical
op_class BinaryOp.mul = OpClass.arithmetical
op_class BinaryOp.div = OpClass.arithmetical
op_class _ = OpClass.comparing

abbrev pub is_lt : Ordering → Bool
is_lt Ordering.lt = true
is_lt _ = false

abbrev pub is_eq : Ordering → Bool
is_eq Ordering.eq = true
is_eq _ = false

abbrev pub is_gt : Ordering → Bool
is_gt Ordering.gt = true
is_gt _ = false

-- The truth of a comparison operator at an order.
unfoldable pub holds : BinaryOp → Ordering → Bool
holds BinaryOp.eq ord = is_eq ord
holds BinaryOp.ne ord = not (is_eq ord)
holds BinaryOp.lt ord = is_lt ord
holds BinaryOp.le ord = not (is_gt ord)
holds BinaryOp.gt ord = is_gt ord
holds _ ord = not (is_lt ord)

-- `!=` on booleans
abbrev pub differs : Bool → Bool → Bool
differs true b = not b
differs false b = b

module _ {S : Type 0} where
  unfoldable pub as_bool : Bytes → Value → Result (ExecError S) (Option Bool)
  as_bool op (Value.boolean x) = ok (some x)
  as_bool op Value.null = ok none
  as_bool op other = err (mismatch op other none)

  unfoldable pub as_value : Option ℤ → Result (ExecError S) Value
  as_value none = err integer_overflow
  as_value (some z) = ok (Value.integer z)

  unfoldable pub arith_op : BinaryOp → ℤ → ℤ → Result (ExecError S) Value
  unfolding as_value
  arith_op BinaryOp.add x y = as_value (checked_add x y)
  arith_op BinaryOp.sub x y = as_value (checked_sub x y)
  arith_op BinaryOp.mul x y = as_value (checked_mul x y)
  arith_op _ x y = if is_zero y then err division_by_zero else as_value (checked_div x y)

  unfoldable pub arithmetic : BinaryOp → Value → Value → Result (ExecError S) Value
  unfolding arith_op
  arithmetic op Value.null b = ok Value.null
  arithmetic op a Value.null = ok Value.null
  arithmetic op (Value.integer x) (Value.integer y) = arith_op op x y
  arithmetic op a b = err (mismatch (utf8 "arithmetic") a (some b))

  unfoldable pub comparison : BinaryOp → Value → Value → Result (ExecError S) Value
  comparison op Value.null b = ok Value.null
  comparison op a Value.null = ok Value.null
  comparison op a b = do
    ord ← ok_or (mismatch (utf8 "comparison") a (some b)) (compare_values a b)
    ok (Value.boolean (holds op ord))

  unfoldable pub logic : BinaryOp → Value → Value → Result (ExecError S) Value
  unfolding as_bool
  logic BinaryOp.and_op a b = do
    x ← as_bool (utf8 "AND") a
    y ← as_bool (utf8 "AND") b
    ok (from_logic (and_logic x y))
  logic _ a b = do
    x ← as_bool (utf8 "OR") a
    y ← as_bool (utf8 "OR") b
    ok (from_logic (or_logic x y))

  unfoldable pub binary_of : OpClass → BinaryOp → Value → Value → Result (ExecError S) Value
  unfolding logic arithmetic comparison
  binary_of OpClass.logical op a b = logic op a b
  binary_of OpClass.arithmetical op a b = arithmetic op a b
  binary_of OpClass.comparing op a b = comparison op a b

  unfoldable pub binary : BinaryOp → Value → Value → Result (ExecError S) Value
  unfolding binary_of
  binary op a b = binary_of (op_class op) op a b

  unfoldable pub unary : UnaryOp → Value → Result (ExecError S) Value
  unary op Value.null = ok Value.null
  unary UnaryOp.neg (Value.integer n) = as_value (checked_neg n)
  unary UnaryOp.not_op (Value.boolean b) = ok (Value.boolean (not b))
  unary UnaryOp.neg other = err (mismatch (utf8 "unary -") other none)
  unary UnaryOp.not_op other = err (mismatch (utf8 "NOT") other none)

  unfoldable pub column_value : Bytes → RowCtx → Result (ExecError S) Value
  unfolding position
  column_value name none = err (unknown_column name)
  column_value name (some (schema, row)) = do
    i ← ok_or (unknown_column name) (position name schema.columns)
    index row i

  -- Both operands are evaluated, the left one first.
  unfoldable pub eval : Expr → RowCtx → Result (ExecError S) Value
  unfolding literal_value column_value unary binary
  eval (Expr.literal l) ctx = ok (literal_value l)
  eval (Expr.column name) ctx = column_value name ctx
  eval (Expr.is_null e negated) ctx = do
    v ← eval e ctx
    ok (Value.boolean (differs (is_null v) negated))
  eval (Expr.unary op e) ctx = do v ← eval e ctx; unary op v
  eval (Expr.binary l op r) ctx = do a ← eval l ctx; b ← eval r ctx; binary op a b

  -- A WHERE clause keeps a row only if it evaluates to TRUE.
  unfoldable pub kept : Value → Result (ExecError S) Bool
  kept (Value.boolean b) = ok b
  kept Value.null = ok false
  kept other = err (type_mismatch (message (utf8 "WHERE must be boolean, got " ++ type_name other)))

  unfoldable pub keeps_row : Option Expr → Schema → List Value → Result (ExecError S) Bool
  unfolding kept
  keeps_row none schema row = ok true
  keeps_row (some f) schema row = do v ← eval f (some (schema, row)); kept v
