-- ===== src/Engine/Access/Lookup.antt =====
-- A point lookup misses no row that the WHERE clause keeps.
use Prim.Native.Nat.{Ordering}
use choam.Base.{
  ap, ℕ, zero, suc, ◌≡◌, ◌≢◌, ◌⊎◌, ◌∙◌, refl, sym, Bool, true, false, Bool-cases, inl, inr, Option,
  none, some, List, [], ◌∷◌, Bytes, Result, ok, err, panic, >>=-eq-ok, or_panic, get_elem?,
  bytes_eq, bytes_eq_iff, bytes_eq_refl, All, arith,
}
use choam.Base.Int.{ℤ, pos, negsuc, compare_ℤ}
use choam.Base.Order.{compare_bytes, compare_bytes-eq, compare_bool}
use choam.Row.Value.{Value, ColumnType}
use choam.Row.Schema.{ColumnDef, Schema, primary_key_type}
use choam.Row.Schema.Rules.{IsSchema, Distinct}
use choam.Sql.Ast.{BinaryOp, Expr}
use choam.Engine.Error.{ExecError}
use choam.Engine.Eval.{
  RowCtx, position, column_value, compare_values, eval, comparison, logic, binary, binary_of,
  op_class, holds, as_bool, kept, keeps_row,
}
use choam.Engine.Access.{
  AccessPath, right_side, other_side, is_key_constant, path_of, or_else, constant, pinned, find,
  access_path,
}

compare_ℤ-eq : (x y : ℤ) → compare_ℤ x y ≡ Ordering.eq → x ≡ y
unfolding compare_ℤ
compare_ℤ-eq (pos a) (pos b) h = let same : a ≡ b = ground arith in ap pos same
compare_ℤ-eq (pos a) (negsuc b) h = cc
compare_ℤ-eq (negsuc a) (pos b) h = cc
compare_ℤ-eq (negsuc a) (negsuc b) h = let same : a ≡ b = ground arith in ap negsuc same

compare_bool-eq : (x y : Bool) → compare_bool x y ≡ Ordering.eq → x ≡ y
unfolding compare_bool
compare_bool-eq false false h = refl
compare_bool-eq false true h = cc
compare_bool-eq true false h = cc
compare_bool-eq true true h = refl

is_eq_only : (o : Ordering) → holds BinaryOp.eq o ≡ true → o ≡ Ordering.eq
unfolding holds
is_eq_only Ordering.eq h = refl
is_eq_only Ordering.lt h = cc
is_eq_only Ordering.gt h = cc

-- Two columns of one name are one column.
other_name :
    (k : ℕ) (cs : List ColumnDef) (c key : ColumnDef)
    → All (λ d. c.name ≢ d.name) cs
    → get_elem? cs k ≡ some key
    → c.name ≢ key.name
other_name k [] c key h at = cc
other_name zero (d ∷ cs) c key h at = let same : d ≡ key = cc at in rw (← same) h.0
other_name (suc k) (d ∷ cs) c key h at = other_name k cs c key h.1 at

position_at :
    (cs : List ColumnDef) (k : ℕ) (key : ColumnDef)
    → Distinct cs
    → get_elem? cs k ≡ some key
    → position key.name cs ≡ some k
unfolding position
position_at [] k key h at = cc
position_at (c ∷ cs) zero key h at =
    let same : c ≡ key = cc at in rw (same, bytes_eq_refl key.name) refl
position_at (c ∷ cs) (suc k) key h at =
    let apart : bytes_eq c.name key.name ≡ false =
      ground (arith, bytes_eq_iff c.name key.name, other_name k cs c key h.0 at) in
    rw (apart, position_at cs k key h.1 at)

index_some : {E : Type 0} (o : Option Value) {v : Value} → or_panic {E = E} o ≡ ok v → o ≡ some v
index_some none h = cc
index_some (some a) h = cc

abbrev IsColumn : Bytes → Expr → Expr → Expr → Type 0
IsColumn pk l r e = ((l ≡ Expr.column pk) × (e ≡ r)) ⊎ ((r ≡ Expr.column pk) × (e ≡ l))

right_column :
    (pk : Bytes) (l r e : Expr) → right_side pk l r ≡ some e → (r ≡ Expr.column pk) × (e ≡ l)
right_column pk l (Expr.column c) e h = elim (Bool-cases (bytes_eq c pk)) [
  | inl same ↦
      let found : some l ≡ some e = rw same at h in
      let name : c ≡ pk = (bytes_eq_iff c pk).0 same in (ap Expr.column name, cc found)
  | inr other ↦ cc (rw other at h)
]
right_column pk l r e h = cc

key_operand : (pk : Bytes) (l r e : Expr) → other_side pk l r ≡ some e → IsColumn pk l r e
unfolding other_side
key_operand pk (Expr.column c) r e h = elim (Bool-cases (bytes_eq c pk)) [
  | inl same ↦
      let found : some r ≡ some e = rw same at h in
      let name : c ≡ pk = (bytes_eq_iff c pk).0 same in inl (ap Expr.column name, cc found)
  | inr other ↦ inr (right_column pk (Expr.column c) r e (rw other at h))
]
key_operand pk l r e h = inr (right_column pk l r e h)

looked_up : (o : Option Value) (v : Value) → path_of o ≡ AccessPath.point_lookup v → o ≡ some v
looked_up none v h = cc
looked_up (some a) v h = cc

module _ {S : Type 0} where
  equal_values :
      (a b : Value) → comparison {S = S} BinaryOp.eq a b ≡ ok (Value.boolean true) → a ≡ b
  unfolding comparison compare_values
  equal_values (Value.integer x) (Value.integer y) h =
      ap Value.integer (compare_ℤ-eq x y (is_eq_only (compare_ℤ x y) (cc h)))
  equal_values (Value.text x) (Value.text y) h =
      ap Value.text (compare_bytes-eq x y (is_eq_only (compare_bytes x y) (cc h)))
  equal_values (Value.bytes x) (Value.bytes y) h =
      ap Value.bytes (compare_bytes-eq x y (is_eq_only (compare_bytes x y) (cc h)))
  equal_values (Value.boolean x) (Value.boolean y) h =
      ap Value.boolean (compare_bool-eq x y (is_eq_only (compare_bool x y) (cc h)))
  equal_values _ _ h = cc

  both_true :
      (a b : Value)
      → logic {S = S} BinaryOp.and_op a b ≡ ok (Value.boolean true)
      → (a ≡ Value.boolean true) × (b ≡ Value.boolean true)
  unfolding logic as_bool
  both_true (Value.boolean true) (Value.boolean true) h = (refl, refl)
  both_true (Value.boolean true) (Value.boolean false) h = cc
  both_true (Value.boolean true) Value.null h = cc
  both_true (Value.boolean true) _ h = cc
  both_true (Value.boolean false) (Value.boolean b) h = cc
  both_true (Value.boolean false) Value.null h = cc
  both_true (Value.boolean false) _ h = cc
  both_true Value.null (Value.boolean true) h = cc
  both_true Value.null (Value.boolean false) h = cc
  both_true Value.null Value.null h = cc
  both_true Value.null _ h = cc
  both_true _ _ h = cc

  -- What is evaluated without a row is the same on every row.
  eval_constant :
      (e : Expr) (v : Value) (ctx : RowCtx) → eval {S = S} e none ≡ ok v → eval {S = S} e ctx ≡ ok v
  unfolding eval column_value
  eval_constant (Expr.literal l) v ctx h = h
  eval_constant (Expr.column c) v ctx h = cc
  eval_constant (Expr.is_null e negated) v ctx h =
      let (a, ea, rest) = >>=-eq-ok (eval e none) _ h in rw (eval_constant e a ctx ea) rest
  eval_constant (Expr.unary op e) v ctx h =
      let (a, ea, rest) = >>=-eq-ok (eval e none) _ h in rw (eval_constant e a ctx ea) rest
  eval_constant (Expr.binary l op r) v ctx h =
      let (a, ea, rest) = >>=-eq-ok (eval l none) _ h in
      let (b, eb, last) = >>=-eq-ok (eval r none) _ rest in
      rw (eval_constant l a ctx ea, eval_constant r b ctx eb) last

  constant_value :
      (ty : ColumnType) (r : Result (ExecError S) Value) (v : Value)
      → constant ty r ≡ ok (some v)
      → r ≡ ok v
  constant_value ty (ok a) v h = elim (Bool-cases (is_key_constant a ty)) [
    | inl good ↦ cc (rw good at h)
    | inr bad ↦ cc (rw bad at h)
  ]
  constant_value ty (err e) v h = cc
  constant_value ty panic v h = cc

  module _ (schema : Schema) (rules : IsSchema schema) (row : List Value) where
    key_value :
        (a : Value)
        → column_value {S = S} rules.key.name (some (schema, row)) ≡ ok a
        → get_elem? row schema.primary_key ≡ some a
    unfolding column_value
    key_value a h = index_some (get_elem? row schema.primary_key) (
        rw (position_at schema.columns schema.primary_key rules.key rules.distinct rules.key_at) at
          h)

    -- The key is compared with a constant.
    equal_key :
        (l r e : Expr) (v a b : Value)
        → IsColumn rules.key.name l r e
        → eval {S = S} e none ≡ ok v
        → eval {S = S} l (some (schema, row)) ≡ ok a
        → eval {S = S} r (some (schema, row)) ≡ ok b
        → a ≡ b
        → get_elem? row schema.primary_key ≡ some v
    unfolding eval
    equal_key l r e v a b (inl (column, operand)) constant_is left right same =
        let there : eval {S = S} r (some (schema, row)) ≡ ok v =
          rw operand at (eval_constant e v (some (schema, row)) constant_is) in
        let value : b ≡ v = cc (sym right ∙ there) in
        let found : get_elem? row schema.primary_key ≡ some a = key_value a (rw column at left) in
        rw (same, value) at found
    equal_key l r e v a b (inr (column, operand)) constant_is left right same =
        let there : eval {S = S} l (some (schema, row)) ≡ ok v =
          rw operand at (eval_constant e v (some (schema, row)) constant_is) in
        let value : a ≡ v = cc (sym left ∙ there) in
        let found : get_elem? row schema.primary_key ≡ some b = key_value b (rw column at right) in
        rw (← same, value) at found

    and_true :
        (l r : Expr)
        → eval {S = S} (Expr.binary l BinaryOp.and_op r) (some (schema, row))
          ≡ ok (Value.boolean true)
        → (eval {S = S} l (some (schema, row)) ≡ ok (Value.boolean true))
          × (eval {S = S} r (some (schema, row)) ≡ ok (Value.boolean true))
    unfolding eval binary binary_of op_class
    and_true l r holds_true =
        let (a, left, rest) = >>=-eq-ok (eval l (some (schema, row))) _ holds_true in
        let (b, right, last) = >>=-eq-ok (eval r (some (schema, row))) _ rest in
        let (a_true, b_true) = both_true a b last in (left ∙ ap ok a_true, right ∙ ap ok b_true)

    key_equal :
        (l r e : Expr) (v : Value)
        → IsColumn rules.key.name l r e
        → eval {S = S} e none ≡ ok v
        → eval {S = S} (Expr.binary l BinaryOp.eq r) (some (schema, row)) ≡ ok (Value.boolean true)
        → get_elem? row schema.primary_key ≡ some v
    unfolding eval binary binary_of op_class
    key_equal l r e v column constant_is holds_true =
        let (a, left, rest) = >>=-eq-ok (eval l (some (schema, row))) _ holds_true in
        let (b, right, last) = >>=-eq-ok (eval r (some (schema, row))) _ rest in
        equal_key l r e v a b column constant_is left right (equal_values a b last)

    pinned_key :
        (l r : Expr) (o : Option Expr) (v : Value)
        → other_side rules.key.name l r ≡ o
        → pinned {S = S} schema o ≡ ok (some v)
        → eval {S = S} (Expr.binary l BinaryOp.eq r) (some (schema, row)) ≡ ok (Value.boolean true)
        → get_elem? row schema.primary_key ≡ some v
    unfolding pinned
    pinned_key l r none v side found holds_true = cc
    pinned_key l r (some e) v side found holds_true =
        let (ty, is_ty, rest) = >>=-eq-ok (primary_key_type schema) _ found in
        key_equal l r e v (key_operand rules.key.name l r e side)
          (constant_value ty (eval e none) v rest) holds_true

    or_else_value :
        (o : Option Value) (other : Result (ExecError S) (Option Value)) (v : Value)
        → or_else o other ≡ ok (some v)
        → (o ≡ some v) ⊎ (other ≡ ok (some v))
    or_else_value none other v h = inr h
    or_else_value (some a) other v h = inl (cc h)

    find-key :
        (f : Expr) (v : Value)
        → find {S = S} schema f ≡ ok (some v)
        → eval {S = S} f (some (schema, row)) ≡ ok (Value.boolean true)
        → get_elem? row schema.primary_key ≡ some v
    unfolding find
    find-key (Expr.binary l BinaryOp.and_op r) v found holds_true =
        let (o, left, rest) = >>=-eq-ok (find schema l) _ found in
        let (l_true, r_true) = and_true l r holds_true in
        elim (or_else_value o (find schema r) v rest) [
          | inl is_left ↦ find-key l v (rw is_left at left) l_true
          | inr right ↦ find-key r v right r_true
        ]
    find-key (Expr.binary l BinaryOp.eq r) v found holds_true =
        let keyed : pinned {S = S} schema (other_side rules.key.name l r) ≡ ok (some v) =
          rw rules.key_at at found in
        pinned_key l r (other_side rules.key.name l r) v refl keyed holds_true
    find-key f v found holds_true = cc

    value_of_kept : (a : Value) → kept {S = S} a ≡ ok true → a ≡ Value.boolean true
    unfolding kept
    value_of_kept (Value.boolean b) h = ap Value.boolean (cc h)
    value_of_kept _ h = cc

    -- A point lookup misses nothing: if the WHERE clause gives the access path of a point lookup,
    -- then a row that the clause keeps has the looked-up value as its primary key, in a table whose
    -- schema obeys the rules.
    pub access_path-keeps_row :
        (filter : Option Expr) (v : Value)
        → access_path {S = S} schema filter ≡ ok (AccessPath.point_lookup v)
        → keeps_row {S = S} filter schema row ≡ ok true
        → get_elem? row schema.primary_key ≡ some v
    unfolding access_path keeps_row
    access_path-keeps_row none v found keeps = cc
    access_path-keeps_row (some f) v found keeps =
        let (o, is_o, rest) = >>=-eq-ok (find schema f) _ found in
        let (a, is_a, last) = >>=-eq-ok (eval f (some (schema, row))) _ keeps in
        find-key f v (is_o ∙ ap ok (looked_up o v (cc rest))) (is_a ∙ ap ok (value_of_kept a last))
