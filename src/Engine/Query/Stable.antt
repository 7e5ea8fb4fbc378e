-- ===== src/Engine/Query/Stable.antt =====
-- ORDER BY and the rows that have the same value.
use Prim.Native.Nat.{Ordering}
use choam.Base.{
  ℕ, ◌≡◌, refl, Bool, true, false, Bool-cases, inl, inr, some, List, [], ◌∷◌, get_elem?, arith,
  if◌then◌else◌,
}
use choam.Base.Int.{ℤ, pos, negsuc, compare_ℤ}
use choam.Base.Order.{compare_bytes_refl, compare_bool}
use choam.Row.Value.{Value}
use choam.Storage.{Storage}
use choam.Engine.Eval.{compare_values}
use choam.Engine.Query.Select.{sort_order, is_after, insert_sorted, sort_by, row_order, sort_rows}

-- The elements that a test accepts, in their order.
abbrev pub picked : {A : Type 0} → (A → Bool) → List A → List A
picked p [] = []
picked p (x ∷ xs) = if p x then x ∷ picked p xs else picked p xs

compare_ℤ_refl : (a : ℤ) → compare_ℤ a a ≡ Ordering.eq
unfolding compare_ℤ
compare_ℤ_refl (pos a) = ground arith
compare_ℤ_refl (negsuc a) = ground arith

sort_order_refl : (x : Value) → sort_order x x ≡ Ordering.eq
unfolding sort_order compare_values compare_bool
sort_order_refl Value.null = refl
sort_order_refl (Value.integer a) = compare_ℤ_refl a
sort_order_refl (Value.text a) = compare_bytes_refl a
sort_order_refl (Value.bytes a) = compare_bytes_refl a
sort_order_refl (Value.boolean false) = refl
sort_order_refl (Value.boolean true) = refl

module _ {A : Type 0} (compare_by : A → A → Ordering) (p : A → Bool)
    (alike : (a b : A) → p a ≡ true → p b ≡ true → is_after (compare_by a b) ≡ false) where
  past :
      (x y : A) (rest ys : List A)
      → is_after (compare_by x y) ≡ true
      → picked p rest ≡ picked p (x ∷ ys)
      → picked p (y ∷ rest) ≡ picked p (x ∷ y ∷ ys)
  past x y rest ys later h = elim (Bool-cases (p x)) [
    | inl px ↦ elim (Bool-cases (p y)) [
      | inl py ↦ let not_later = alike x y px py in cc
      | inr py ↦ rw (px, py, h, px) refl
    ]
    | inr px ↦ rw (px, h, px) refl
  ]

  picked-insert_sorted :
      (x : A) (ys : List A) → picked p (insert_sorted compare_by x ys) ≡ picked p (x ∷ ys)
  unfolding insert_sorted
  picked-insert_sorted x [] = refl
  picked-insert_sorted x (y ∷ ys) = elim (Bool-cases (is_after (compare_by x y))) [
    | inl later ↦
        rw later (past x y (insert_sorted compare_by x ys) ys later (picked-insert_sorted x ys))
    | inr here ↦ rw here refl
  ]

  picked-sort_by : (xs : List A) → picked p (sort_by compare_by xs) ≡ picked p xs
  unfolding sort_by
  picked-sort_by [] = refl
  picked-sort_by (x ∷ xs) =
      rw (picked-insert_sorted x (sort_by compare_by xs), picked-sort_by xs) refl

module _ (st : Storage) where
  row_order-same :
      (i : ℕ) (desc : Bool) (v : Value) (a b : List Value)
      → get_elem? a i ≡ some v
      → get_elem? b i ≡ some v
      → is_after (row_order st i desc a b) ≡ false
  row_order-same i false v a b h k = rw (h, k, sort_order_refl v) refl
  row_order-same i true v a b h k = rw (h, k, sort_order_refl v) refl

  -- ORDER BY is stable: for a test that accepts only rows with one and the same value in the
  -- column, the sorted rows that it accepts are the rows that it accepts, in the order that they
  -- had, ascending or descending.
  pub picked-sort_rows :
      (i : ℕ) (desc : Bool) (v : Value) (same : List Value → Bool) (rows : List (List Value))
      → ((row : List Value) → same row ≡ true → get_elem? row i ≡ some v)
      → picked same (sort_rows st (some (i, desc)) rows) ≡ picked same rows
  unfolding sort_rows
  picked-sort_rows i desc v same rows only =
      picked-sort_by (row_order st i desc) same
        (λ a b h k. row_order-same i desc v a b (only a h) (only b k)) rows
