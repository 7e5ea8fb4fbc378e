-- ===== src/Base/Order.antt =====
-- `Ord` on byte slices, strings and booleans, and what a comparison reversed or chained gives.
use Prim.Native.Nat.{ℕ, compare, Ordering}
use mathlib.Core.Path.{◌≡◌, refl}
use mathlib.Core.Bool.{Bool, true, false}
use mathlib.Core.List.{[], ◌∷◌, ◌++◌}
use native.Mathlib.Omega.{arith}
use choam.Base.Lists.{length}
use choam.Base.Text.{Bytes}

-- `Ordering::then`
abbrev pub then_cmp : Ordering → Ordering → Ordering
then_cmp Ordering.lt o = Ordering.lt
then_cmp Ordering.eq o = o
then_cmp Ordering.gt o = Ordering.gt

-- `Ordering::reverse`
abbrev pub reverse_cmp : Ordering → Ordering
reverse_cmp Ordering.lt = Ordering.gt
reverse_cmp Ordering.eq = Ordering.eq
reverse_cmp Ordering.gt = Ordering.lt

unfoldable pub compare_bytes : Bytes → Bytes → Ordering
compare_bytes [] [] = Ordering.eq
compare_bytes [] (y ∷ ys) = Ordering.lt
compare_bytes (x ∷ xs) [] = Ordering.gt
compare_bytes (x ∷ xs) (y ∷ ys) = then_cmp (compare x y) (compare_bytes xs ys)

unfoldable pub compare_bool : Bool → Bool → Ordering
compare_bool false false = Ordering.eq
compare_bool false true = Ordering.lt
compare_bool true false = Ordering.gt
compare_bool true true = Ordering.eq

pub compare_bytes_refl : (xs : Bytes) → compare_bytes xs xs ≡ Ordering.eq
unfolding compare_bytes
compare_bytes_refl [] = refl
compare_bytes_refl (x ∷ xs) = ground (arith, compare_bytes_refl xs)

pub compare_bytes-eq : (xs ys : Bytes) → compare_bytes xs ys ≡ Ordering.eq → xs ≡ ys
unfolding compare_bytes
compare_bytes-eq [] [] h = refl
compare_bytes-eq [] (y ∷ ys) h = cc
compare_bytes-eq (x ∷ xs) [] h = cc
compare_bytes-eq (x ∷ xs) (y ∷ ys) h = ground (arith, compare_bytes-eq xs ys)

-- On slices of one length the last bytes decide only where all before them are equal.
pub compare_bytes-snoc :
    (xs ys : Bytes) (a b : ℕ)
    → length xs ≡ length ys
    → compare_bytes (xs ++ a ∷ []) (ys ++ b ∷ []) ≡ then_cmp (compare_bytes xs ys) (compare a b)
unfolding compare_bytes
compare_bytes-snoc [] [] a b h = ground arith
compare_bytes-snoc [] (y ∷ ys) a b h = absurd (omega arith)
compare_bytes-snoc (x ∷ xs) [] a b h = absurd (omega arith)
compare_bytes-snoc (x ∷ xs) (y ∷ ys) a b h = ground (arith, compare_bytes-snoc xs ys a b)
