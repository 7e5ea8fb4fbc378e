-- ===== src/Engine/Eval/Check.antt =====
-- crates/engine/src/eval.rs: the static type check of expressions and WHERE clauses.
use mathlib.Core.Option
use choam.Base.{
  Bool, true, false, ◌||◌, ◌&&◌, Option, none, some, ◌++◌, Bytes, Result, ok, err, ◌>>=◌, ok_or,
  if◌then◌else◌, utf8,
}
use choam.Row.Value.{ColumnType}
use choam.Row.Schema.{Schema}
use choam.Sql.Ast.{Literal, UnaryOp, BinaryOp, Expr}
use choam.Engine.Error.{ExecError, message, unknown_column, type_mismatch}
use choam.Engine.Eval.{find_column, OpClass, op_class}

-- `null` is the type of a bare NULL, which goes with every type.
pub data Ty : Type 0 where
  null integer text bytes boolean : Ty

unfoldable pub ty_name : Ty → Bytes
ty_name Ty.null = utf8 "NULL"
ty_name Ty.integer = utf8 "INTEGER"
ty_name Ty.text = utf8 "TEXT"
ty_name Ty.bytes = utf8 "BYTES"
ty_name Ty.boolean = utf8 "BOOLEAN"

-- `impl From<ColumnType> for Ty`
abbrev pub from_column : ColumnType → Ty
from_column ColumnType.integer = Ty.integer
from_column ColumnType.text = Ty.text
from_column ColumnType.bytes = Ty.bytes
from_column ColumnType.boolean = Ty.boolean

abbrev pub ty_eq : Ty → Ty → Bool
ty_eq Ty.null Ty.null = true
ty_eq Ty.integer Ty.integer = true
ty_eq Ty.text Ty.text = true
ty_eq Ty.bytes Ty.bytes = true
ty_eq Ty.boolean Ty.boolean = true
ty_eq _ _ = false

abbrev pub is : Ty → Ty → Bool
is t want = ty_eq t want || ty_eq t Ty.null

abbrev pub literal_ty : Literal → Ty
literal_ty Literal.null = Ty.null
literal_ty (Literal.integer _) = Ty.integer
literal_ty (Literal.text _) = Ty.text
literal_ty (Literal.boolean _) = Ty.boolean

abbrev pub wanted : UnaryOp → Ty
wanted UnaryOp.neg = Ty.integer
wanted UnaryOp.not_op = Ty.boolean

module _ {S : Type 0} where
  unfoldable pub cannot_combine : Bytes → Ty → Ty → ExecError S
  cannot_combine what a b =
      type_mismatch
        (message (what ++ (utf8 " cannot combine " ++ (ty_name a ++ (utf8 " and " ++ ty_name b)))))

  unfoldable pub check_unary : UnaryOp → Ty → Result (ExecError S) Ty
  check_unary op t =
      if is t (wanted op)
      then ok (wanted op)
      else err (type_mismatch (message (utf8 "unary operator cannot be applied to " ++ ty_name t)))

  unfoldable pub check_class : OpClass → Ty → Ty → Result (ExecError S) Ty
  check_class OpClass.logical a b =
      if is a Ty.boolean && is b Ty.boolean
      then ok Ty.boolean
      else err (cannot_combine (utf8 "AND/OR") a b)
  check_class OpClass.arithmetical a b =
      if is a Ty.integer && is b Ty.integer
      then ok Ty.integer
      else err (cannot_combine (utf8 "arithmetic") a b)
  check_class OpClass.comparing a b =
      if ty_eq a b || ty_eq a Ty.null || ty_eq b Ty.null
      then ok Ty.boolean
      else err (cannot_combine (utf8 "comparison") a b)

  unfoldable pub check_binary : BinaryOp → Ty → Ty → Result (ExecError S) Ty
  unfolding check_class
  check_binary op a b = check_class (op_class op) a b

  unfoldable pub column_ty : Bytes → Option Schema → Result (ExecError S) Ty
  column_ty name schema = do
    s ← ok_or (unknown_column name) schema
    ok_or (unknown_column name) (Option.map (λ c. from_column c.ty) (find_column name s.columns))

  unfoldable pub check_type : Expr → Option Schema → Result (ExecError S) Ty
  unfolding check_unary check_binary column_ty
  check_type (Expr.literal l) schema = ok (literal_ty l)
  check_type (Expr.column name) schema = column_ty name schema
  check_type (Expr.is_null e negated) schema = do _ ← check_type e schema; ok Ty.boolean
  check_type (Expr.unary op e) schema = do t ← check_type e schema; check_unary op t
  check_type (Expr.binary l op r) schema = do
    a ← check_type l schema
    b ← check_type r schema
    check_binary op a b

  -- A WHERE clause must be BOOLEAN, or a bare NULL.
  unfoldable pub check_filter : Option Expr → Schema → Result (ExecError S) (Unit {0})
  unfolding check_type
  check_filter none schema = ok tt
  check_filter (some f) schema = do
    t ← check_type f (some schema)
    if is t Ty.boolean
        then ok tt
        else err (type_mismatch (message (utf8 "WHERE must be boolean, got " ++ ty_name t)))
