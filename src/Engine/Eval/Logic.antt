-- ===== src/Engine/Eval/Logic.antt =====
-- The laws of the three truth values of SQL, on expressions.
use choam.Base.{◌≡◌, refl, Bool, true, false, Option, none, some, ok, ◌>>=◌}
use choam.Sql.Ast.{Expr, UnaryOp, BinaryOp}
use choam.Engine.Eval.{RowCtx, eval, unary, binary, binary_of, op_class, logic, as_bool, from_logic}

module _ (S : Type 0) where
  not-and :
      (x y : Option Bool)
      → (binary {S = S} BinaryOp.and_op (from_logic x) (from_logic y) >>= unary UnaryOp.not_op) ≡ (
          unary UnaryOp.not_op (from_logic x) >>= λ a.
          unary UnaryOp.not_op (from_logic y) >>= λ b. binary BinaryOp.or_op a b)
  unfolding unary binary binary_of op_class logic as_bool
  not-and none none = refl
  not-and none (some true) = refl
  not-and none (some false) = refl
  not-and (some true) none = refl
  not-and (some true) (some true) = refl
  not-and (some true) (some false) = refl
  not-and (some false) none = refl
  not-and (some false) (some true) = refl
  not-and (some false) (some false) = refl

  -- NOT (l AND r) and (NOT l) OR (NOT r) evaluate to the same, on every row where l and r each
  -- evaluate to TRUE, FALSE or NULL.
  pub eval-de_morgan :
      (l r : Expr) (ctx : RowCtx) (x y : Option Bool)
      → eval {S = S} l ctx ≡ ok (from_logic x)
      → eval {S = S} r ctx ≡ ok (from_logic y)
      → eval {S = S} (Expr.unary UnaryOp.not_op (Expr.binary l BinaryOp.and_op r)) ctx
        ≡ eval
            (Expr.binary (Expr.unary UnaryOp.not_op l) BinaryOp.or_op (Expr.unary UnaryOp.not_op r))
            ctx
  unfolding eval
  eval-de_morgan l r ctx x y hl hr = rw (hl, hr) (not-and x y)
