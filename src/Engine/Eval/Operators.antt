-- ===== src/Engine/Eval/Operators.antt =====
-- What the operators give on operands that have passed the check of crates/engine/src/eval.rs.
use mathlib.Core.Path.{subst}
use choam.Base.{
  ◌≡◌, refl, Bool, true, Option, none, some, List, [], ◌∷◌, Bytes, Result, ok, err, panic, ◌>>=◌,
  arith, utf8, ◌⊎◌, Bool-cases, inl, inr,
}
use choam.Base.Int.{ℤ, is_zero, checked_add, checked_sub, checked_mul, checked_div, checked_neg}
use choam.Row.Value.{Value}
use choam.Row.Schema.{ColumnDef, Schema}
use choam.Sql.Ast.{UnaryOp, BinaryOp}
use choam.Engine.Error.{ExecError, division_by_zero, integer_overflow}
use choam.Engine.Eval.{
  RowCtx, unary, binary, binary_of, logic, arithmetic, comparison, arith_op, as_value, as_bool,
  and_logic, or_logic, from_logic, OpClass, compare_values, op_class,
}
use choam.Engine.Eval.Check.{Ty, from_column, is, wanted, check_unary, check_class, check_binary}

-- NULL goes with every type; a value that is not NULL has one.
abbrev pub HasTy : Value → Ty → Type 0
HasTy Value.null t = Unit
HasTy (Value.integer _) t = t ≡ Ty.integer
HasTy (Value.text _) t = t ≡ Ty.text
HasTy (Value.bytes _) t = t ≡ Ty.bytes
HasTy (Value.boolean _) t = t ≡ Ty.boolean

-- A row with a value for each column, of the column's type or NULL.
abbrev pub TypedRow : List ColumnDef → List Value → Type 0
TypedRow [] [] = Unit
TypedRow [] (v ∷ vs) = ⊥
TypedRow (c ∷ cs) [] = ⊥
TypedRow (c ∷ cs) (v ∷ vs) = HasTy v (from_column c.ty) × TypedRow cs vs

abbrev pub TypedCtx : RowCtx → Type 0
TypedCtx none = Unit
TypedCtx (some (schema, row)) = TypedRow schema.columns row

abbrev pub ctx_schema : RowCtx → Option Schema
ctx_schema none = none
ctx_schema (some (schema, row)) = some schema

module _ {S : Type 0} where
  -- The errors that depend on the data.
  abbrev pub IsArithmeticError : ExecError S → Type 0
  IsArithmeticError division_by_zero = Unit
  IsArithmeticError integer_overflow = Unit
  IsArithmeticError _ = ⊥

  -- A value of type `t`, an overflow or a division by zero.
  abbrev pub Safe : Ty → Result (ExecError S) Value → Type 0
  Safe t (ok v) = HasTy v t
  Safe t (err e) = IsArithmeticError e
  Safe t panic = ⊥

module _ (S : Type 0) where
  pub Safe-bind :
      (t t' : Ty) (r : Result (ExecError S) Value) (f : Value → Result (ExecError S) Value)
      → Safe t' r
      → ((v : Value) → HasTy v t' → Safe t (f v))
      → Safe t (r >>= f)
  Safe-bind t t' (ok v) f h k = k v h
  Safe-bind t t' (err e) f h k = h
  Safe-bind t t' panic f h k = absurd h

  as_value-Safe : (o : Option ℤ) → Safe {S = S} Ty.integer (as_value o)
  unfolding as_value
  as_value-Safe none = tt
  as_value-Safe (some z) = refl

  unary_ty : (op : UnaryOp) (t t' : Ty) → check_unary {S = S} op t' ≡ ok t → t ≡ wanted op
  unfolding check_unary
  unary_ty op t t' c = ground arith

  pub unary-Safe :
      (op : UnaryOp) (v : Value) (t t' : Ty)
      → HasTy v t'
      → check_unary {S = S} op t' ≡ ok t
      → Safe {S = S} t (unary op v)
  unfolding unary
  unary-Safe op Value.null t t' h c = tt
  unary-Safe UnaryOp.neg (Value.integer n) t t' h c =
      rw (unary_ty UnaryOp.neg t t' c) (as_value-Safe (checked_neg n))
  unary-Safe UnaryOp.not_op (Value.boolean b) t t' h c = unary_ty UnaryOp.not_op t t' c
  unary-Safe UnaryOp.neg v t t' h c = unfold check_unary in absurd (ground (arith, h))
  unary-Safe UnaryOp.not_op v t t' h c = unfold check_unary in absurd (ground (arith, h))

  arith_op-Safe : (op : BinaryOp) (x y : ℤ) → Safe {S = S} Ty.integer (arith_op op x y)
  unfolding arith_op
  arith_op-Safe BinaryOp.add x y = as_value-Safe (checked_add x y)
  arith_op-Safe BinaryOp.sub x y = as_value-Safe (checked_sub x y)
  arith_op-Safe BinaryOp.mul x y = as_value-Safe (checked_mul x y)
  arith_op-Safe _ x y = elim (Bool-cases (is_zero y)) [
    | inl z ↦ rw z tt
    | inr n ↦ rw n (as_value-Safe (checked_div x y))
  ]

  arithmetic-Safe :
      (op : BinaryOp) (a b : Value)
      → HasTy a Ty.integer
      → HasTy b Ty.integer
      → Safe {S = S} Ty.integer (arithmetic op a b)
  unfolding arithmetic
  arithmetic-Safe op Value.null b ha hb = tt
  arithmetic-Safe op (Value.integer x) Value.null ha hb = tt
  arithmetic-Safe op (Value.integer x) (Value.integer y) ha hb = arith_op-Safe op x y
  arithmetic-Safe op (Value.integer x) b ha hb = cc
  arithmetic-Safe op a b ha hb = cc

  as_bool-ok :
      (op : Bytes) (v : Value)
      → HasTy v Ty.boolean
      → (o : Option Bool) × (as_bool {S = S} op v ≡ ok o)
  unfolding as_bool
  as_bool-ok op Value.null h = (none, refl)
  as_bool-ok op (Value.boolean b) h = (some b, refl)
  as_bool-ok op v h = cc

  from_logic-HasTy : (o : Option Bool) → HasTy (from_logic o) Ty.boolean
  from_logic-HasTy none = tt
  from_logic-HasTy (some b) = refl

  logic-Safe :
      (op : BinaryOp) (a b : Value)
      → HasTy a Ty.boolean
      → HasTy b Ty.boolean
      → Safe {S = S} Ty.boolean (logic op a b)
  unfolding logic
  logic-Safe BinaryOp.and_op a b ha hb =
      let (x, p) = as_bool-ok (utf8 "AND") a ha in
      let (y, q) = as_bool-ok (utf8 "AND") b hb in rw (p, q) (from_logic-HasTy (and_logic x y))
  logic-Safe _ a b ha hb =
      let (x, p) = as_bool-ok (utf8 "OR") a ha in
      let (y, q) = as_bool-ok (utf8 "OR") b hb in rw (p, q) (from_logic-HasTy (or_logic x y))

  comparison-Safe :
      (op : BinaryOp) (a b : Value) (t : Ty)
      → HasTy a t
      → HasTy b t
      → Safe {S = S} Ty.boolean (comparison op a b)
  unfolding comparison compare_values
  comparison-Safe op Value.null b t ha hb = tt
  comparison-Safe op (Value.integer x) Value.null t ha hb = tt
  comparison-Safe op (Value.integer x) (Value.integer y) t ha hb = refl
  comparison-Safe op (Value.text x) Value.null t ha hb = tt
  comparison-Safe op (Value.text x) (Value.text y) t ha hb = refl
  comparison-Safe op (Value.bytes x) Value.null t ha hb = tt
  comparison-Safe op (Value.bytes x) (Value.bytes y) t ha hb = refl
  comparison-Safe op (Value.boolean x) Value.null t ha hb = tt
  comparison-Safe op (Value.boolean x) (Value.boolean y) t ha hb = refl
  comparison-Safe op a b t ha hb = cc

  comparison_null_left :
      (op : BinaryOp) (a b : Value) → HasTy a Ty.null → Safe {S = S} Ty.boolean (comparison op a b)
  unfolding comparison
  comparison_null_left op Value.null b ha = tt
  comparison_null_left op a b ha = cc

  comparison_null_right :
      (op : BinaryOp) (a b : Value) → HasTy b Ty.null → Safe {S = S} Ty.boolean (comparison op a b)
  unfolding comparison
  comparison_null_right op Value.null b hb = tt
  comparison_null_right op (Value.integer x) Value.null hb = tt
  comparison_null_right op (Value.text x) Value.null hb = tt
  comparison_null_right op (Value.bytes x) Value.null hb = tt
  comparison_null_right op (Value.boolean x) Value.null hb = tt
  comparison_null_right op a b hb = cc

  -- Where `is` accepts a type, its values have the wanted type.
  pub HasTy-is : (v : Value) (t want : Ty) → HasTy v t → is t want ≡ true → HasTy v want
  HasTy-is Value.null t want h e = tt
  HasTy-is (Value.integer x) t want h e = ground arith
  HasTy-is (Value.text x) t want h e = ground arith
  HasTy-is (Value.bytes x) t want h e = ground arith
  HasTy-is (Value.boolean x) t want h e = ground arith

  logical_types :
      (a b t : Ty)
      → check_class {S = S} OpClass.logical a b ≡ ok t
      → (is a Ty.boolean ≡ true) × (is b Ty.boolean ≡ true) × (t ≡ Ty.boolean)
  unfolding check_class
  logical_types a b t c = ground arith

  arithmetical_types :
      (a b t : Ty)
      → check_class {S = S} OpClass.arithmetical a b ≡ ok t
      → (is a Ty.integer ≡ true) × (is b Ty.integer ≡ true) × (t ≡ Ty.integer)
  unfolding check_class
  arithmetical_types a b t c = ground arith

  comparing_types :
      (a b t : Ty)
      → check_class {S = S} OpClass.comparing a b ≡ ok t
      → ((a ≡ b) ⊎ ((a ≡ Ty.null) ⊎ (b ≡ Ty.null))) × (t ≡ Ty.boolean)
  unfolding check_class
  comparing_types Ty.null b t c = (inr (inl refl), ground arith)
  comparing_types Ty.integer Ty.integer t c = (inl refl, ground arith)
  comparing_types Ty.text Ty.text t c = (inl refl, ground arith)
  comparing_types Ty.bytes Ty.bytes t c = (inl refl, ground arith)
  comparing_types Ty.boolean Ty.boolean t c = (inl refl, ground arith)
  comparing_types a Ty.null t c = (inr (inr refl), ground arith)
  comparing_types a b t c = cc

  class-Safe :
      (k : OpClass) (op : BinaryOp) (v w : Value) (a b t : Ty)
      → HasTy v a
      → HasTy w b
      → check_class {S = S} k a b ≡ ok t
      → Safe {S = S} t (binary_of k op v w)
  unfolding binary_of
  class-Safe OpClass.logical op v w a b t hv hw c =
      let (p, q, e) = logical_types a b t c in
      rw e (logic-Safe op v w (HasTy-is v a Ty.boolean hv p) (HasTy-is w b Ty.boolean hw q))
  class-Safe OpClass.arithmetical op v w a b t hv hw c =
      let (p, q, e) = arithmetical_types a b t c in
      rw e (arithmetic-Safe op v w (HasTy-is v a Ty.integer hv p) (HasTy-is w b Ty.integer hw q))
  class-Safe OpClass.comparing op v w a b t hv hw c =
      let (p, e) = comparing_types a b t c in
      rw e (elim p [
        | inl same ↦ comparison-Safe op v w b (subst (λ x. HasTy v x) same hv) hw
        | inr (inl null_left) ↦ comparison_null_left op v w (subst (λ x. HasTy v x) null_left hv)
        | inr (inr null_right) ↦ comparison_null_right op v w (subst (λ x. HasTy w x) null_right hw)
      ])

  pub binary-Safe :
      (op : BinaryOp) (v w : Value) (a b t : Ty)
      → HasTy v a
      → HasTy w b
      → check_binary {S = S} op a b ≡ ok t
      → Safe {S = S} t (binary op v w)
  unfolding binary check_binary
  binary-Safe op v w a b t hv hw c = class-Safe (op_class op) op v w a b t hv hw c
  -- The column that `find` finds stands where `position` says, and the row has a value there.
