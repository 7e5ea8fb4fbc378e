-- ===== src/Base/Int.antt =====
-- Signed integers over the native numbers, under the library's names, with the `i64` operations of
-- Rust: checked arithmetic, comparison, and the casts to and from `u64`.
use Prim.Native.Nat.{ℕ, zero, suc, ◌+◌, ◌-◌, ◌*◌, ◌/◌, ◌%◌, ◌^◌, ◌<◌, compare, Ordering}
use mathlib.Core.Path.{◌≡◌}
use mathlib.Core.Bool.{Bool, true, false}
use mathlib.Core.Option.{Option, none, some}
use native.Mathlib.Omega.{arith}
use choam.Base.Tests.{ltb, leb, if◌then◌else◌}

-- `negsuc n` is -(n + 1).
pub data ℤ : Type 0 where
  pos : ℕ → ℤ
  negsuc : ℕ → ℤ

abbrev pub pos_part : ℤ → ℕ
pos_part (pos n) = n
pos_part (negsuc n) = 0

abbrev pub neg_part : ℤ → ℕ
neg_part (pos n) = 0
neg_part (negsuc n) = suc n

-- a - b, as an integer.
abbrev pub sub_ℕ : ℕ → ℕ → ℤ
sub_ℕ a b = if leb b a then pos (a - b) else negsuc (b - a - 1)

infixl 65 ◌+ℤ◌ ◌-ℤ◌
infixl 70 ◌*ℤ◌
unfoldable pub ◌+ℤ◌ : ℤ → ℤ → ℤ
a +ℤ b = sub_ℕ (pos_part a + pos_part b) (neg_part a + neg_part b)

unfoldable pub ◌-ℤ◌ : ℤ → ℤ → ℤ
a -ℤ b = sub_ℕ (pos_part a + neg_part b) (neg_part a + pos_part b)

unfoldable pub ◌*ℤ◌ : ℤ → ℤ → ℤ
a *ℤ b =
    sub_ℕ (pos_part a * pos_part b + neg_part a * neg_part b)
      (pos_part a * neg_part b + neg_part a * pos_part b)

-- Division that rounds towards zero; the divisor is not zero where the program divides.
unfoldable pub div_ℤ : ℤ → ℤ → ℤ
div_ℤ (pos a) (pos b) = pos (a / b)
div_ℤ (pos a) (negsuc b) = sub_ℕ 0 (a / suc b)
div_ℤ (negsuc a) (pos b) = sub_ℕ 0 (suc a / b)
div_ℤ (negsuc a) (negsuc b) = pos (suc a / suc b)

-- i64::MIN ≤ z ≤ i64::MAX
abbrev pub IsI64 : ℤ → Type 0
IsI64 (pos n) = n < 2 ^ 63
IsI64 (negsuc n) = n < 2 ^ 63

unfoldable pub is_i64 : ℤ → Bool
is_i64 (pos n) = ltb n (2 ^ 63)
is_i64 (negsuc n) = ltb n (2 ^ 63)

unfoldable pub checked : ℤ → Option ℤ
unfolding is_i64
checked z = if is_i64 z then some z else none

unfoldable pub checked_add : ℤ → ℤ → Option ℤ
unfolding checked
checked_add x y = checked (x +ℤ y)

unfoldable pub checked_sub : ℤ → ℤ → Option ℤ
unfolding checked
checked_sub x y = checked (x -ℤ y)

unfoldable pub checked_mul : ℤ → ℤ → Option ℤ
unfolding checked
checked_mul x y = checked (x *ℤ y)

unfoldable pub checked_neg : ℤ → Option ℤ
unfolding checked
checked_neg x = checked (pos 0 -ℤ x)

abbrev pub is_zero : ℤ → Bool
is_zero (pos zero) = true
is_zero (pos (suc n)) = false
is_zero (negsuc n) = false

unfoldable pub checked_div : ℤ → ℤ → Option ℤ
unfolding checked
checked_div x y = if is_zero y then none else checked (div_ℤ x y)

-- `cmp` on i64
unfoldable pub compare_ℤ : ℤ → ℤ → Ordering
compare_ℤ (pos a) (pos b) = compare a b
compare_ℤ (pos a) (negsuc b) = Ordering.gt
compare_ℤ (negsuc a) (pos b) = Ordering.lt
compare_ℤ (negsuc a) (negsuc b) = compare b a

-- `v as u64` and `u as i64`
unfoldable pub i64_as_u64 : ℤ → ℕ
i64_as_u64 (pos n) = n % 2 ^ 64
i64_as_u64 (negsuc n) = 2 ^ 64 - 1 - n % 2 ^ 64

unfoldable pub u64_as_i64 : ℕ → ℤ
u64_as_i64 u = if ltb u (2 ^ 63) then pos u else negsuc (2 ^ 64 - 1 - u)

pub checked-IsI64 : (z : ℤ) {r : ℤ} → checked z ≡ some r → IsI64 r × (z ≡ r)
unfolding checked
checked-IsI64 (pos n) {r} h = ground arith
checked-IsI64 (negsuc n) {r} h = ground arith

pub i64_as_u64-lt : (z : ℤ) → i64_as_u64 z < 2 ^ 64
unfolding i64_as_u64
i64_as_u64-lt (pos n) = omega arith
i64_as_u64-lt (negsuc n) = omega arith

pub u64_as_i64-i64_as_u64 : (z : ℤ) → IsI64 z → u64_as_i64 (i64_as_u64 z) ≡ z
unfolding u64_as_i64 i64_as_u64
u64_as_i64-i64_as_u64 (pos n) h = ground arith
u64_as_i64-i64_as_u64 (negsuc n) h = ground arith

pub u64_as_i64-IsI64 : (u : ℕ) → u < 2 ^ 64 → IsI64 (u64_as_i64 u)
unfolding u64_as_i64
u64_as_i64-IsI64 u h = ground arith
