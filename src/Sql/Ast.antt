-- ===== src/Sql/Ast.antt =====
-- crates/sql/src/ast.rs: the syntax tree of the supported SQL.
use choam.Base.{ℕ, Bool, Option, List, Bytes}
use choam.Base.Int.{ℤ}
use choam.Row.Value.{ColumnType}

pub data Literal : Type 0 where
  null : Literal
  integer : ℤ → Literal
  text : Bytes → Literal
  boolean : Bool → Literal

pub data UnaryOp : Type 0 where
  neg not_op : UnaryOp

pub data BinaryOp : Type 0 where
  add sub mul div eq ne lt le gt ge and_op or_op : BinaryOp

-- `is_null e true` is `e IS NOT NULL`.
pub data Expr : Type 0 where
  literal : Literal → Expr
  column : Bytes → Expr
  unary : UnaryOp → Expr → Expr
  binary : Expr → BinaryOp → Expr → Expr
  is_null : Expr → Bool → Expr

pub record ColumnSpec : Type 0 where
  pub name : Bytes
  pub ty : ColumnType
  pub primary_key : Bool
  pub not_null : Bool

pub data Projection : Type 0 where
  all : Projection
  columns : List Bytes → Projection

pub record OrderBy : Type 0 where
  pub column : Bytes
  pub descending : Bool

pub data Statement : Type 0 where
  create_table : Bytes → List ColumnSpec → Statement
  insert : Bytes → Option (List Bytes) → List (List Expr) → Statement
  select : Projection → Bytes → Option Expr → Option OrderBy → Option ℕ → Statement
  update : Bytes → List (Bytes × Expr) → Option Expr → Statement
  delete : Bytes → Option Expr → Statement
  begin commit rollback : Statement
