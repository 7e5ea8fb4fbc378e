-- ===== src/Engine/Access.antt =====
-- crates/engine/src/lib.rs: how a statement finds its rows.
pub mod Lookup
use choam.Base.{
  Bool, true, false, Option, none, some, Bytes, Result, ok, err, panic, ◌>>=◌, index, bytes_eq,
  if◌then◌else◌,
}
use choam.Row.Value.{Value, ColumnType}
use choam.Row.Schema.{Schema, primary_key_type}
use choam.Sql.Ast.{BinaryOp, Expr}
use choam.Engine.Error.{ExecError}
use choam.Engine.Eval.{eval}

pub data AccessPath : Type 0 where
  point_lookup : Value → AccessPath
  full_scan : AccessPath

abbrev pub right_side : Bytes → Expr → Expr → Option Expr
right_side pk other (Expr.column c) = if bytes_eq c pk then some other else none
right_side pk other _ = none

-- The operand that is compared with the primary-key column.
unfoldable pub other_side : Bytes → Expr → Expr → Option Expr
other_side pk (Expr.column c) r = if bytes_eq c pk then some r else right_side pk (Expr.column c) r
other_side pk l r = right_side pk l r

-- A constant of the key's own type; a key of type BYTES is not looked up.
unfoldable pub is_key_constant : Value → ColumnType → Bool
is_key_constant (Value.integer _) ColumnType.integer = true
is_key_constant (Value.text _) ColumnType.text = true
is_key_constant (Value.boolean _) ColumnType.boolean = true
is_key_constant _ _ = false

abbrev pub path_of : Option Value → AccessPath
path_of none = AccessPath.full_scan
path_of (some v) = AccessPath.point_lookup v

module _ {S : Type 0} where
  abbrev pub or_else :
      Option Value → Result (ExecError S) (Option Value) → Result (ExecError S) (Option Value)
  or_else (some v) r = ok (some v)
  or_else none r = r

  -- `eval(other, None).ok()` and the test of its type
  abbrev pub constant :
      ColumnType → Result (ExecError S) Value → Result (ExecError S) (Option Value)
  constant ty (ok v) = ok (if is_key_constant v ty then some v else none)
  constant ty (err _) = ok none
  constant ty panic = panic

  unfoldable pub pinned : Schema → Option Expr → Result (ExecError S) (Option Value)
  pinned schema none = ok none
  pinned schema (some e) = do ty ← primary_key_type schema; constant ty (eval e none)

  unfoldable pub find : Schema → Expr → Result (ExecError S) (Option Value)
  unfolding pinned other_side
  find schema (Expr.binary l BinaryOp.and_op r) = do
    left ← find schema l
    or_else left (find schema r)
  find schema (Expr.binary l BinaryOp.eq r) = do
    key ← index schema.columns schema.primary_key
    pinned schema (other_side key.name l r)
  find schema _ = ok none

  unfoldable pub access_path : Schema → Option Expr → Result (ExecError S) AccessPath
  unfolding find
  access_path schema none = ok AccessPath.full_scan
  access_path schema (some f) = do found ← find schema f; ok (path_of found)
