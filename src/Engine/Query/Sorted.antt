-- ===== src/Engine/Query/Sorted.antt =====
-- ORDER BY against the order of values that the documentation gives: NULLs first, and then the values.
use Prim.Native.Nat.{Ordering, compare}
use mathlib.Core.List.{Perm}
use choam.Base.{
  ℕ, ◌≡◌, ◌≢◌, refl, Bool, true, false, Bool-cases, inl, inr, some, List, [], ◌∷◌, get_elem?, All,
  arith, if◌then◌else◌,
}
use choam.Base.Int.{pos, negsuc, compare_ℤ}
use choam.Base.Order.{compare_bytes, compare_bool}
use choam.Row.Value.{Value, ColumnType, HasType, column_type}
use choam.Storage.{Storage}
use choam.Engine.Eval.{compare_values}
use choam.Engine.Query.Select.{sort_order, is_after, insert_sorted, sort_by, row_order, sort_rows}
use choam.Engine.Query.Order.{
  sort_order-Swaps, InOrder, sort_by-Perm, sort_by-InOrder, row_order-Swaps,
}

-- NULL comes before every value, and two values compare as the engine's comparison says.
abbrev pub AtMost : Value → Value → Type 0
AtMost Value.null y = Unit
AtMost x Value.null = ⊥
AtMost x y = (o : Ordering) × (compare_values x y ≡ some o) × (o ≢ Ordering.gt)

abbrev pub HasTypeOrNull : ColumnType → Value → Type 0
HasTypeOrNull ty Value.null = Unit
HasTypeOrNull ty v = HasType v ty

-- `x` does not belong behind `y`.
abbrev Before : Value → Value → Type 0
Before x y = is_after (sort_order x y) ≡ false

abbrev NotAfter : {A : Type 0} → (A → A → Ordering) → A → A → Type 0
NotAfter cmp a b = is_after (cmp a b) ≡ false

abbrev Trans : {A : Type 0} → (A → A → Ordering) → Type 0
Trans {A} cmp = (a b c : A) → NotAfter cmp a b → NotAfter cmp b c → NotAfter cmp a c

compare-Trans : Trans {A = ℕ} compare
compare-Trans a b c h k = ground arith

compare_ℤ-Trans : Trans compare_ℤ
unfolding compare_ℤ
compare_ℤ-Trans (pos a) (pos b) (pos c) h k = compare-Trans a b c h k
compare_ℤ-Trans (pos a) (pos b) (negsuc c) h k = cc
compare_ℤ-Trans (pos a) (negsuc b) c h k = cc
compare_ℤ-Trans (negsuc a) b (pos c) h k = refl
compare_ℤ-Trans (negsuc a) (pos b) (negsuc c) h k = cc
compare_ℤ-Trans (negsuc a) (negsuc b) (negsuc c) h k = compare-Trans c b a k h

compare_bytes-Trans : Trans compare_bytes
unfolding compare_bytes
compare_bytes-Trans [] bs [] h k = refl
compare_bytes-Trans [] bs (c ∷ cs) h k = refl
compare_bytes-Trans (a ∷ as₁) [] cs h k = cc
compare_bytes-Trans (a ∷ as₁) (b ∷ bs) [] h k = cc
compare_bytes-Trans (a ∷ as₁) (b ∷ bs) (c ∷ cs) h k =
    ground (arith, h, k, compare_bytes-Trans as₁ bs cs)

compare_bool-Trans : Trans compare_bool
unfolding compare_bool
compare_bool-Trans false b false h k = refl
compare_bool-Trans false b true h k = refl
compare_bool-Trans true false c h k = cc
compare_bool-Trans true true false h k = cc
compare_bool-Trans true true true h k = refl

sort_order_trans :
    (ty : ColumnType) (x y z : Value)
    → HasTypeOrNull ty x
    → HasTypeOrNull ty y
    → HasTypeOrNull ty z
    → Before x y
    → Before y z
    → Before x z
unfolding sort_order compare_values column_type
sort_order_trans ty Value.null y Value.null hx hy hz h k = refl
sort_order_trans ty Value.null y _ hx hy hz h k = refl
sort_order_trans ty _ Value.null z hx hy hz h k = cc
sort_order_trans ty (Value.integer a) (Value.integer b) (Value.integer c) hx hy hz h k =
    compare_ℤ-Trans a b c h k
sort_order_trans ty (Value.text a) (Value.text b) (Value.text c) hx hy hz h k =
    compare_bytes-Trans a b c h k
sort_order_trans ty (Value.bytes a) (Value.bytes b) (Value.bytes c) hx hy hz h k =
    compare_bytes-Trans a b c h k
sort_order_trans ty (Value.boolean a) (Value.boolean b) (Value.boolean c) hx hy hz h k =
    compare_bool-Trans a b c h k
sort_order_trans ty x y z hx hy hz h k = cc

not_gt : (o : Ordering) → is_after o ≡ false → o ≢ Ordering.gt
not_gt Ordering.gt h e = cc h
not_gt Ordering.lt h e = cc e
not_gt Ordering.eq h e = cc e

Before-AtMost :
    (ty : ColumnType) (x y : Value)
    → HasTypeOrNull ty x
    → HasTypeOrNull ty y
    → Before x y
    → AtMost x y
unfolding sort_order compare_values column_type
Before-AtMost ty Value.null y hx hy h = tt
Before-AtMost ty (Value.integer a) (Value.integer b) hx hy h =
    (compare_ℤ a b, refl, not_gt (compare_ℤ a b) h)
Before-AtMost ty (Value.text a) (Value.text b) hx hy h =
    (compare_bytes a b, refl, not_gt (compare_bytes a b) h)
Before-AtMost ty (Value.bytes a) (Value.bytes b) hx hy h =
    (compare_bytes a b, refl, not_gt (compare_bytes a b) h)
Before-AtMost ty (Value.boolean a) (Value.boolean b) hx hy h =
    (compare_bool a b, refl, not_gt (compare_bool a b) h)
Before-AtMost ty _ Value.null hx hy h = cc
Before-AtMost ty x y hx hy h = cc

-- The row has a value for column `i`, of the column's type or NULL.
abbrev pub HasCell : ℕ → ColumnType → List Value → Type 0
HasCell i ty row = (v : Value) × (get_elem? row i ≡ some v) × HasTypeOrNull ty v

-- The value of one row in column `i` is at most that of another, or at least, if descending.
abbrev pub AtMostIn : ℕ → Bool → List Value → List Value → Type 0
AtMostIn i desc a b =
    (x y : Value)
    → get_elem? a i ≡ some x
    → get_elem? b i ≡ some y
    → if desc then AtMost y x else AtMost x y

-- Each element stands so to every later one.
abbrev pub InPairs : {A : Type 0} → (A → A → Type 0) → List A → Type 0
InPairs R [] = Unit
InPairs R (x ∷ xs) = All (R x) xs × InPairs R xs

module _ {A : Type 0} (compare_by : A → A → Ordering) (P : A → Type 0) where
  insert_sorted-All : (x : A) (ys : List A) → P x → All P ys → All P (insert_sorted compare_by x ys)
  unfolding insert_sorted
  insert_sorted-All x [] h k = (h, tt)
  insert_sorted-All x (y ∷ ys) h k = elim (Bool-cases (is_after (compare_by x y))) [
    | inl later ↦ rw later (k.0, insert_sorted-All x ys h k.1)
    | inr here ↦ rw here (h, k)
  ]

  sort_by-All : (xs : List A) → All P xs → All P (sort_by compare_by xs)
  unfolding sort_by
  sort_by-All [] h = tt
  sort_by-All (x ∷ xs) h = insert_sorted-All x (sort_by compare_by xs) h.0 (sort_by-All xs h.1)

  module _ (R : A → A → Type 0)
      (trans : (a b c : A)
        → P a
        → P b
        → P c
        → NotAfter compare_by a b
        → NotAfter compare_by b c
        → NotAfter compare_by a c)
      (means : (a b : A) → P a → P b → NotAfter compare_by a b → R a b) where
    All-behind :
        (x y : A) (ys : List A)
        → P x
        → All P (y ∷ ys)
        → NotAfter compare_by x y
        → InOrder compare_by (y ∷ ys)
        → All (R x) (y ∷ ys)
    All-behind x y [] h k first ordered = (means x y h k.0 first, tt)
    All-behind x y (z ∷ zs) h k first ordered =
        let further = trans x y z h k.0 k.1.0 first ordered.0 in
        (means x y h k.0 first, All-behind x z zs h k.1 further ordered.1)

    InOrder-InPairs : (xs : List A) → All P xs → InOrder compare_by xs → InPairs R xs
    InOrder-InPairs [] h ordered = tt
    InOrder-InPairs (x ∷ []) h ordered = (tt, tt)
    InOrder-InPairs (x ∷ y ∷ ys) h ordered =
        (All-behind x y ys h.0 h.1 ordered.0 ordered.1, InOrder-InPairs (y ∷ ys) h.1 ordered.1)

module _ (st : Storage) (i : ℕ) (ty : ColumnType) where
  row_order_trans :
      (desc : Bool) (a b c : List Value)
      → HasCell i ty a
      → HasCell i ty b
      → HasCell i ty c
      → NotAfter (row_order st i desc) a b
      → NotAfter (row_order st i desc) b c
      → NotAfter (row_order st i desc) a c
  row_order_trans false a b c (x, ex, hx) (y, ey, hy) (z, ez, hz) h k =
      rw (ex, ez) (sort_order_trans ty x y z hx hy hz (rw (ex, ey) at h) (rw (ey, ez) at k))
  row_order_trans true a b c (x, ex, hx) (y, ey, hy) (z, ez, hz) h k =
      rw (ex, ez, ← sort_order-Swaps x z)
        (sort_order_trans ty z y x hz hy hx (rw (ey, ez, ← sort_order-Swaps y z) at k)
          (rw (ex, ey, ← sort_order-Swaps x y) at h))

  row_order-AtMostIn :
      (desc : Bool) (a b : List Value)
      → HasCell i ty a
      → HasCell i ty b
      → NotAfter (row_order st i desc) a b
      → AtMostIn i desc a b
  row_order-AtMostIn false a b (x, ex, hx) (y, ey, hy) h x' y' ex' ey' =
      let same : x ≡ x' = cc in
      let same' : y ≡ y' = cc in
      rw (← same, ← same') (Before-AtMost ty x y hx hy (rw (ex, ey) at h))
  row_order-AtMostIn true a b (x, ex, hx) (y, ey, hy) h x' y' ex' ey' =
      let same : x ≡ x' = cc in
      let same' : y ≡ y' = cc in
      rw (← same, ← same') (Before-AtMost ty y x hy hx (rw (ex, ey, ← sort_order-Swaps x y) at h))

  -- ORDER BY gives the same rows in the order of the documentation: where every row has in the
  -- column a value of one type or NULL, the sorted rows are a permutation of the rows, and each row
  -- is at most every later one, NULL before every value and the values as the comparison of the
  -- engine says, or at least every later one where the order is descending.
  pub sort_rows-InPairs :
      (desc : Bool) (rows : List (List Value))
      → All (HasCell i ty) rows
      → Perm (sort_rows st (some (i, desc)) rows) rows
        × InPairs (AtMostIn i desc) (sort_rows st (some (i, desc)) rows)
  unfolding sort_rows
  sort_rows-InPairs desc rows typed = (
    sort_by-Perm (row_order st i desc) rows,
    InOrder-InPairs (row_order st i desc) (HasCell i ty) (AtMostIn i desc) (row_order_trans desc)
        (row_order-AtMostIn desc) (sort_by (row_order st i desc) rows)
        (sort_by-All (row_order st i desc) (HasCell i ty) rows typed)
        (sort_by-InOrder (row_order st i desc) (row_order-Swaps st i desc) rows),
  )
