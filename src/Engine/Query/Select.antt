-- ===== src/Engine/Query/Select.antt =====
-- crates/engine/src/lib.rs: SELECT, with its ORDER BY and LIMIT.
use Prim.Native.Nat.{Ordering}
use choam.Base.{
  ℕ, Bool, true, false, Option, none, some, List, [], ◌∷◌, Bytes, Result, ok, ◌>>=◌, get_elem?,
  index, length, take, if◌then◌else◌,
}
use mathlib.Core.List.{map}
use choam.Base.Order.{reverse_cmp}
use choam.Row.Value.{Value}
use choam.Row.Schema.{ColumnDef, Schema}
use choam.Storage.{Storage}
use choam.Sql.Ast.{Expr, Projection, OrderBy}
use choam.Engine.Error.{ExecError}
use choam.Engine.Eval.{compare_values}
use choam.Engine.Query.{QueryResult, range_from, schema_of, column_index, matching_rows}

-- NULLs come first; values of two types count as equal.
unfoldable pub sort_order : Value → Value → Ordering
sort_order Value.null Value.null = Ordering.eq
sort_order Value.null _ = Ordering.lt
sort_order x Value.null = Ordering.gt
sort_order x y = elim (compare_values x y) [ none ↦ Ordering.eq | some o ↦ o ]

abbrev pub is_after : Ordering → Bool
is_after Ordering.gt = true
is_after _ = false

-- A stable sort by a comparison.
module _ {A : Type 0} (compare_by : A → A → Ordering) where
  unfoldable pub insert_sorted : A → List A → List A
  insert_sorted x [] = x ∷ []
  insert_sorted x (y ∷ ys) =
      let later = y ∷ insert_sorted x ys in if is_after (compare_by x y) then later else x ∷ y ∷ ys

  unfoldable pub sort_by : List A → List A
  unfolding insert_sorted
  sort_by [] = []
  sort_by (x ∷ xs) = insert_sorted x (sort_by xs)

-- The two rows' values in column `i`; every row has one for each column.
abbrev pub cell_order : Option Value → Option Value → Ordering
cell_order (some x) (some y) = sort_order x y
cell_order _ _ = Ordering.eq

module _ (st : Storage) where
  abbrev Exec : Type 0 → Type 0
  Exec A = Result (ExecError st.StoreError) A

  unfoldable pub column_indices : Schema → List Bytes → Exec (List ℕ)
  unfolding column_index
  column_indices schema [] = ok []
  column_indices schema (n ∷ ns) = do
    i ← column_index st schema n
    is ← column_indices schema ns
    ok (i ∷ is)

  unfoldable pub picked_columns : Schema → Projection → Exec (List ℕ)
  unfolding column_indices
  picked_columns schema Projection.all = ok (range_from 0 (length schema.columns))
  picked_columns schema (Projection.columns names) = column_indices schema names

  unfoldable pub order_column : Schema → Option OrderBy → Exec (Option (ℕ × Bool))
  unfolding column_index
  order_column schema none = ok none
  order_column schema (some o) = do i ← column_index st schema o.column; ok (some (i, o.descending))

  abbrev pub row_order : ℕ → Bool → List Value → List Value → Ordering
  row_order i desc a b =
      let ord = cell_order (get_elem? a i) (get_elem? b i) in if desc then reverse_cmp ord else ord

  unfoldable pub sort_rows : Option (ℕ × Bool) → List (List Value) → List (List Value)
  sort_rows none rows = rows
  sort_rows (some (i, desc)) rows = sort_by (row_order i desc) rows

  abbrev pub limit_rows : Option ℕ → List (List Value) → List (List Value)
  limit_rows none rows = rows
  limit_rows (some n) rows = take n rows

  unfoldable pub pick : {A : Type 0} → List ℕ → List A → Exec (List A)
  pick [] row = ok []
  pick (i ∷ is) row = do v ← index row i; vs ← pick is row; ok (v ∷ vs)

  unfoldable pub pick_rows : List ℕ → List (List Value) → Exec (List (List Value))
  unfolding pick
  pick_rows picked [] = ok []
  pick_rows picked (row ∷ rows) = do r ← pick picked row; rs ← pick_rows picked rows; ok (r ∷ rs)

  unfoldable pub select :
      st.Store
      → st.Txn
      → Bytes
      → Projection
      → Option Expr
      → Option OrderBy
      → Option ℕ
      → Exec QueryResult
  unfolding schema_of picked_columns order_column matching_rows sort_rows pick_rows pick
  select now t table projection filter order_by limit = do
    schema ← schema_of st now table
    picked ← picked_columns schema projection
    order ← order_column schema order_by
    rows ← matching_rows st now t table schema filter
    columns ← pick picked schema.columns
    out ← pick_rows picked (limit_rows limit (sort_rows order rows))
    ok (record { columns = map (λ (c : ColumnDef). c.name) columns; rows = out; rows_affected = 0 })
