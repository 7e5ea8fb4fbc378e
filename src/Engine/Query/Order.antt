-- ===== src/Engine/Query/Order.antt =====
-- The sort of ORDER BY and its comparison.
use Prim.Native.Nat.{Ordering, compare}
use mathlib.Core.List.{Perm}
use mathlib.Core.List.Perm
use choam.Base.{
  ap, ℕ, ◌≡◌, refl, Bool, true, false, Bool-cases, inl, inr, none, some, List, [], ◌∷◌, get_elem?,
  arith,
}
use choam.Base.Int.{pos, negsuc, compare_ℤ}
use choam.Base.Order.{reverse_cmp, compare_bytes, compare_bool}
use choam.Storage.{Storage}
use choam.Row.Value.{Value}
use choam.Engine.Eval.{compare_values}
use choam.Engine.Query.Select.{sort_order, is_after, insert_sorted, sort_by, cell_order, row_order}

-- Swapping the operands swaps the answer.
abbrev pub Swaps : {A : Type 0} → (A → A → Ordering) → Type 0
Swaps {A} compare_by = (a b : A) → compare_by b a ≡ reverse_cmp (compare_by a b)

compare-Swaps : Swaps {A = ℕ} compare
compare-Swaps a b = ground arith

compare_ℤ-Swaps : Swaps compare_ℤ
unfolding compare_ℤ
compare_ℤ-Swaps (pos a) (pos b) = compare-Swaps a b
compare_ℤ-Swaps (pos a) (negsuc b) = refl
compare_ℤ-Swaps (negsuc a) (pos b) = refl
compare_ℤ-Swaps (negsuc a) (negsuc b) = compare-Swaps b a

compare_bytes-Swaps : Swaps compare_bytes
unfolding compare_bytes
compare_bytes-Swaps [] [] = refl
compare_bytes-Swaps [] (b ∷ bs) = refl
compare_bytes-Swaps (a ∷ as₁) [] = refl
compare_bytes-Swaps (a ∷ as₁) (b ∷ bs) = ground (arith, compare_bytes-Swaps as₁ bs)

compare_bool-Swaps : Swaps compare_bool
unfolding compare_bool
compare_bool-Swaps false false = refl
compare_bool-Swaps false true = refl
compare_bool-Swaps true false = refl
compare_bool-Swaps true true = refl

pub sort_order-Swaps : Swaps sort_order
unfolding sort_order compare_values
sort_order-Swaps Value.null Value.null = refl
sort_order-Swaps Value.null _ = refl
sort_order-Swaps _ Value.null = refl
sort_order-Swaps (Value.integer a) (Value.integer b) = compare_ℤ-Swaps a b
sort_order-Swaps (Value.text a) (Value.text b) = compare_bytes-Swaps a b
sort_order-Swaps (Value.bytes a) (Value.bytes b) = compare_bytes-Swaps a b
sort_order-Swaps (Value.boolean a) (Value.boolean b) = compare_bool-Swaps a b
sort_order-Swaps a b = refl

cell_order-Swaps : Swaps cell_order
cell_order-Swaps none none = refl
cell_order-Swaps none (some b) = refl
cell_order-Swaps (some a) none = refl
cell_order-Swaps (some a) (some b) = sort_order-Swaps a b

reverse_cmp-twice : (o : Ordering) → reverse_cmp (reverse_cmp o) ≡ o
reverse_cmp-twice Ordering.lt = refl
reverse_cmp-twice Ordering.eq = refl
reverse_cmp-twice Ordering.gt = refl

not_after_both : (o : Ordering) → is_after o ≡ true → is_after (reverse_cmp o) ≡ false
not_after_both Ordering.lt h = cc
not_after_both Ordering.eq h = cc
not_after_both Ordering.gt h = refl

module _ {A : Type 0} (compare_by : A → A → Ordering) where
  -- No element belongs behind the one that follows it.
  abbrev pub InOrder : List A → Type 0
  InOrder [] = Unit
  InOrder (x ∷ []) = Unit
  InOrder (x ∷ y ∷ ys) = (is_after (compare_by x y) ≡ false) × InOrder (y ∷ ys)

  pub insert_sorted-Perm : (x : A) (ys : List A) → Perm (insert_sorted compare_by x ys) (x ∷ ys)
  unfolding insert_sorted
  insert_sorted-Perm x [] = Perm.rfl
  insert_sorted-Perm x (y ∷ ys) = elim (Bool-cases (is_after (compare_by x y))) [
    | inl later ↦ rw later (Perm.trans (Perm.cons y (insert_sorted-Perm x ys)) (Perm.swap x y ys))
    | inr here ↦ rw here Perm.rfl
  ]

  pub sort_by-Perm : (xs : List A) → Perm (sort_by compare_by xs) xs
  unfolding sort_by
  sort_by-Perm [] = Perm.rfl
  sort_by-Perm (x ∷ xs) =
      Perm.trans (insert_sorted-Perm x (sort_by compare_by xs)) (Perm.cons x (sort_by-Perm xs))

  module _ (swaps : Swaps compare_by) where
    before : (x y : A) → is_after (compare_by x y) ≡ true → is_after (compare_by y x) ≡ false
    before x y h = rw (swaps x y) (not_after_both (compare_by x y) h)

    insert_behind :
        (x y : A) (ys : List A)
        → is_after (compare_by x y) ≡ true
        → InOrder (y ∷ ys)
        → InOrder (y ∷ insert_sorted compare_by x ys)
    unfolding insert_sorted
    insert_behind x y [] h ordered = (before x y h, tt)
    insert_behind x y (z ∷ zs) h (first, ordered) = elim (Bool-cases (is_after (compare_by x z))) [
      | inl later ↦ rw later (first, insert_behind x z zs later ordered)
      | inr here ↦ rw here (before x y h, (here, ordered))
    ]

    insert_sorted-InOrder :
        (x : A) (ys : List A) → InOrder ys → InOrder (insert_sorted compare_by x ys)
    unfolding insert_sorted
    insert_sorted-InOrder x [] h = tt
    insert_sorted-InOrder x (y ∷ ys) h = elim (Bool-cases (is_after (compare_by x y))) [
      | inl later ↦ rw later (insert_behind x y ys later h)
      | inr here ↦ rw here (here, h)
    ]

    pub sort_by-InOrder : (xs : List A) → InOrder (sort_by compare_by xs)
    unfolding sort_by
    sort_by-InOrder [] = tt
    sort_by-InOrder (x ∷ xs) = insert_sorted-InOrder x (sort_by compare_by xs) (sort_by-InOrder xs)

module _ (st : Storage) where
  pub row_order-Swaps : (i : ℕ) (desc : Bool) → Swaps (row_order st i desc)
  row_order-Swaps i false a b = cell_order-Swaps (get_elem? a i) (get_elem? b i)
  row_order-Swaps i true a b = ap reverse_cmp (cell_order-Swaps (get_elem? a i) (get_elem? b i))
