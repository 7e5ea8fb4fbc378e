-- ===== src/Engine/KeyOrder.antt =====
-- Row keys sort as the engine's comparison sorts primary keys, so a scan in key order is a scan in
-- primary-key order.
use Prim.Native.Nat.{compare}
use choam.Base.{ℕ, ◌+◌, ◌-◌, ◌^◌, ◌≡◌, refl, true, false, some, [], ◌∷◌, ◌++◌, Bytes, ok, arith}
use choam.Base.Int.{ℤ, pos, negsuc, IsI64, compare_ℤ, i64_as_u64, i64_as_u64-lt}
use choam.Base.Order.{compare_bytes, compare_bool}
use choam.Base.Endian.{compare_bytes-be_bytes}
use choam.Row.Value.{Value, ColumnType, column_type, HasType, IsValid}
use choam.Row.Key.{row_key, row_key_prefix, flip_sign}
use choam.Row.Key.Laws.{component, flip_sign_lem, flip_sign-lt, row_key-ok}
use choam.Row.Key.Separation.{row_key-HasType}
use choam.Engine.Eval.{compare_values}

compare_bytes-prefix : (p xs ys : Bytes) → compare_bytes (p ++ xs) (p ++ ys) ≡ compare_bytes xs ys
unfolding compare_bytes
compare_bytes-prefix [] xs ys = refl
compare_bytes-prefix (b ∷ p) xs ys = ground (arith, compare_bytes-prefix p xs ys)

-- The number that a sign-flipped `i64` is written as.
abbrev shifted : ℤ → ℕ
shifted (pos n) = n + 2 ^ 63
shifted (negsuc n) = 2 ^ 63 - 1 - n

flip_sign-shifted : (x : ℤ) → IsI64 x → flip_sign (i64_as_u64 x) ≡ shifted x
flip_sign-shifted (pos n) h =
    rw (flip_sign_lem (i64_as_u64 (pos n)) (i64_as_u64-lt (pos n)))
      (unfold i64_as_u64 in ground arith)
flip_sign-shifted (negsuc n) h =
    rw (flip_sign_lem (i64_as_u64 (negsuc n)) (i64_as_u64-lt (negsuc n)))
      (unfold i64_as_u64 in ground arith)

compare-shifted : (x y : ℤ) → IsI64 x → IsI64 y → compare (shifted x) (shifted y) ≡ compare_ℤ x y
unfolding compare_ℤ
compare-shifted (pos m) (pos n) hx hy = ground arith
compare-shifted (pos m) (negsuc n) hx hy = ground arith
compare-shifted (negsuc m) (pos n) hx hy = ground arith
compare-shifted (negsuc m) (negsuc n) hx hy = ground arith

flip_sign_order :
    (x y : ℤ)
    → IsI64 x
    → IsI64 y
    → compare (flip_sign (i64_as_u64 x)) (flip_sign (i64_as_u64 y)) ≡ compare_ℤ x y
flip_sign_order x y hx hy =
    rw (flip_sign-shifted x hx, flip_sign-shifted y hy) (compare-shifted x y hx hy)

compare-component :
    (v w : Value) (ty : ColumnType)
    → HasType v ty
    → HasType w ty
    → IsValid v
    → IsValid w
    → compare_values v w ≡ some (compare_bytes (component v) (component w))
unfolding compare_values component column_type
compare-component (Value.integer x) (Value.integer y) ty hv hw vv vw = rw (
  compare_bytes-be_bytes 8 (flip_sign (i64_as_u64 x)) (flip_sign (i64_as_u64 y))
      (flip_sign-lt (i64_as_u64 x) (i64_as_u64-lt x))
      (flip_sign-lt (i64_as_u64 y) (i64_as_u64-lt y)),
  flip_sign_order x y vv vw,
)
compare-component (Value.text x) (Value.text y) ty hv hw vv vw = refl
compare-component (Value.bytes x) (Value.bytes y) ty hv hw vv vw = refl
compare-component (Value.boolean true) (Value.boolean true) ty hv hw vv vw =
    unfold compare_bytes compare_bool in refl
compare-component (Value.boolean true) (Value.boolean false) ty hv hw vv vw =
    unfold compare_bytes compare_bool in refl
compare-component (Value.boolean false) (Value.boolean true) ty hv hw vv vw =
    unfold compare_bytes compare_bool in refl
compare-component (Value.boolean false) (Value.boolean false) ty hv hw vv vw =
    unfold compare_bytes compare_bool in refl
compare-component v w ty hv hw vv vw = cc

-- For two valid primary keys of one table that have row keys, the byte order of the row keys is the
-- order that the engine's comparison gives to the values.
pub compare-row_key :
    (t : ℕ) (v w : Value) (ty : ColumnType) (key key' : Bytes)
    → IsValid v
    → IsValid w
    → row_key t v ty ≡ ok key
    → row_key t w ty ≡ ok key'
    → compare_values v w ≡ some (compare_bytes key key')
compare-row_key t v w ty key key' vv vw h h' =
    let hv = row_key-HasType t v ty h in
    let hw = row_key-HasType t w ty h' in
    let k : key ≡ row_key_prefix t ++ component v = cc (row_key-ok t v ty hv) in
    let k' : key' ≡ row_key_prefix t ++ component w = cc (row_key-ok t w ty hw) in
    rw (k, k', compare_bytes-prefix (row_key_prefix t) (component v) (component w))
      (compare-component v w ty hv hw vv vw)
