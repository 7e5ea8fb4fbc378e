-- ===== src/Engine/Eval/Safety.antt =====
-- An expression that passes the static check has no type error at run time.
use mathlib.Core.Path.{subst}
use choam.Base.{
  ℕ, suc, ◌≡◌, refl, Bool, Option, none, some, List, [], ◌∷◌, Bytes, Result, ok, err, panic, ◌>>=◌,
  >>=-eq-ok, arith, get_elem?, bytes_eq, Bool-cases, Option-cases, inl, inr,
}
use choam.Row.Value.{Value}
use choam.Row.Schema.{ColumnDef, Schema}
use choam.Sql.Ast.{Literal, Expr}
use choam.Engine.Error.{ExecError}
use choam.Engine.Eval.{
  RowCtx, position, find_column, literal_value, column_value, eval, keeps_row, kept,
}
use choam.Engine.Eval.Check.{Ty, from_column, literal_ty, column_ty, check_type, check_filter}
use choam.Engine.Eval.Operators.{
  HasTy, TypedRow, TypedCtx, ctx_schema, IsArithmeticError, Safe, Safe-bind, unary-Safe,
  binary-Safe, HasTy-is,
}

module _ (S : Type 0) where
  typed_column :
      (name : Bytes) (cs : List ColumnDef) (row : List Value) (c : ColumnDef)
      → TypedRow cs row
      → find_column name cs ≡ some c
      → (i : ℕ) × (v : Value) × (position name cs ≡ some i)
        × (get_elem? row i ≡ some v)
        × HasTy v (from_column c.ty)
  unfolding find_column position
  typed_column name [] row c h f = cc
  typed_column name (d ∷ cs) [] c h f = absurd h
  typed_column name (d ∷ cs) (v ∷ vs) c h f = elim (Bool-cases (bytes_eq d.name name)) [
    | inl hit ↦
        let e : d ≡ c = ground arith in
        (0, v, rw hit, refl, subst (λ (x : ColumnDef). HasTy v (from_column x.ty)) e h.0)
    | inr miss ↦
        let (i, w, p, q, t) = typed_column name cs vs c h.1 (ground arith) in
        (suc i, w, rw (miss, p), q, t)
  ]

  column-Safe :
      (name : Bytes) (ctx : RowCtx) (t : Ty)
      → TypedCtx ctx
      → column_ty {S = S} name (ctx_schema ctx) ≡ ok t
      → Safe {S = S} t (column_value name ctx)
  unfolding column_ty column_value
  column-Safe name none t h c = cc
  column-Safe name (some (schema, row)) t h c =
      elim (Option-cases (find_column name schema.columns)) [
        | inl out ↦ absurd (ground (arith, out))
        | inr (d, found) ↦
            let (i, v, p, q, hv) = typed_column name schema.columns row d h found in
            let e : from_column d.ty ≡ t = ground (arith, found) in
            rw (p, q) (subst (λ x. HasTy v x) e hv)
      ]

  literal-Safe : (l : Literal) → HasTy (literal_value l) (literal_ty l)
  unfolding literal_value
  literal-Safe Literal.null = tt
  literal-Safe (Literal.integer n) = refl
  literal-Safe (Literal.text s) = refl
  literal-Safe (Literal.boolean b) = refl

  -- An expression that `check_type` accepts, evaluated on a row whose values have their columns'
  -- types or are NULL, gives a value of the accepted type or NULL, or fails by integer overflow or
  -- division by zero; it has no type error, no unknown column and no panic.
  pub eval-Safe :
      (e : Expr) (ctx : RowCtx) (t : Ty)
      → TypedCtx ctx
      → check_type {S = S} e (ctx_schema ctx) ≡ ok t
      → Safe {S = S} t (eval e ctx)
  unfolding check_type eval
  eval-Safe (Expr.literal l) ctx t h c =
      let e : literal_ty l ≡ t = cc in subst (λ x. HasTy (literal_value l) x) e (literal-Safe l)
  eval-Safe (Expr.column name) ctx t h c = column-Safe name ctx t h c
  eval-Safe (Expr.is_null e negated) ctx t h c =
      let (t', p, q) = >>=-eq-ok (check_type e (ctx_schema ctx)) _ c in
      Safe-bind S t t' (eval e ctx) _ (eval-Safe e ctx t' h p) (λ v hv. cc)
  eval-Safe (Expr.unary op e) ctx t h c =
      let (t', p, q) = >>=-eq-ok (check_type e (ctx_schema ctx)) _ c in
      Safe-bind S t t' (eval e ctx) _ (eval-Safe e ctx t' h p) (λ v hv. unary-Safe S op v t t' hv q)
  eval-Safe (Expr.binary l op r) ctx t h c =
      let (a, p, q) = >>=-eq-ok (check_type l (ctx_schema ctx)) _ c in
      let (b, p', q') = >>=-eq-ok (check_type r (ctx_schema ctx)) _ q in
      Safe-bind S t a (eval l ctx) _ (eval-Safe l ctx a h p) λ v hv.
        Safe-bind S t b (eval r ctx) _ (eval-Safe r ctx b h p')
          λ w hw. binary-Safe S op v w a b t hv hw q'

-- A WHERE clause that passes the check gives a truth value, or an overflow or a division by zero.
abbrev pub SafeBool : {S : Type 0} → Result (ExecError S) Bool → Type 0
SafeBool (ok b) = Unit
SafeBool (err e) = IsArithmeticError e
SafeBool panic = ⊥

module _ (S : Type 0) where
  kept-Safe : (v : Value) → HasTy v Ty.boolean → SafeBool {S = S} (kept v)
  unfolding kept
  kept-Safe Value.null h = tt
  kept-Safe (Value.boolean b) h = tt
  kept-Safe v h = cc

  SafeBool-bind :
      (t : Ty) (r : Result (ExecError S) Value) (f : Value → Result (ExecError S) Bool)
      → Safe t r
      → ((v : Value) → HasTy v t → SafeBool (f v))
      → SafeBool (r >>= f)
  SafeBool-bind t (ok v) f h k = k v h
  SafeBool-bind t (err e) f h k = h
  SafeBool-bind t panic f h k = absurd h

  -- A WHERE clause that `check_filter` accepts, on a row whose values have their columns' types or
  -- are NULL, keeps or drops the row, or fails by integer overflow or division by zero; nothing
  -- else happens.
  pub keeps_row-Safe :
      (filter : Option Expr) (schema : Schema) (row : List Value)
      → TypedRow schema.columns row
      → check_filter {S = S} filter schema ≡ ok tt
      → SafeBool {S = S} (keeps_row filter schema row)
  unfolding check_filter keeps_row
  keeps_row-Safe none schema row h c = tt
  keeps_row-Safe (some f) schema row h c =
      let (t, p, q) = >>=-eq-ok (check_type f (some schema)) _ c in
      SafeBool-bind t (eval f (some (schema, row))) kept (eval-Safe S f (some (schema, row)) t h p)
        λ v hv. kept-Safe v (HasTy-is S v t Ty.boolean hv (ground arith))
