-- ===== src/Base/Endian.antt =====
-- `to_be_bytes`, `to_le_bytes` and their inverses, at a width of `w` bytes.
use Prim.Native.Nat.{ℕ, zero, suc, ◌+◌, ◌*◌, ◌/◌, ◌%◌, ◌^◌, ◌≤◌, ◌<◌, compare}
use mathlib.Core.Path.{◌≡◌, refl}
use mathlib.Core.List.{[], ◌∷◌, ◌++◌, foldl, foldl-append}
use native.Mathlib.Omega.{arith}
use choam.Base.Lists.{length, length-append, All, All-append}
use choam.Base.Text.{Bytes, IsByte}
use choam.Base.Order.{compare_bytes, compare_bytes-snoc, then_cmp}

unfoldable pub be_bytes : ℕ → ℕ → Bytes
be_bytes zero n = []
be_bytes (suc w) n = be_bytes w (n / 256) ++ (n % 256) ∷ []

abbrev shift_in : ℕ → ℕ → ℕ
shift_in acc b = acc * 256 + b

unfoldable pub from_be_bytes : Bytes → ℕ
from_be_bytes = foldl shift_in 0

unfoldable pub le_bytes : ℕ → ℕ → Bytes
le_bytes zero n = []
le_bytes (suc w) n = (n % 256) ∷ le_bytes w (n / 256)

unfoldable pub from_le_bytes : Bytes → ℕ
from_le_bytes [] = 0
from_le_bytes (b ∷ bs) = b + 256 * from_le_bytes bs

pub length-be_bytes : (w n : ℕ) → length (be_bytes w n) ≡ w
unfolding be_bytes
length-be_bytes zero n = refl
length-be_bytes (suc w) n =
    omega
      (arith, length-append (be_bytes w (n / 256)) ((n % 256) ∷ []), length-be_bytes w (n / 256))

pub length-le_bytes : (w n : ℕ) → length (le_bytes w n) ≡ w
unfolding le_bytes
length-le_bytes zero n = refl
length-le_bytes (suc w) n = omega (arith, length-le_bytes w (n / 256))

pub from_be_bytes-be_bytes : (w n : ℕ) → n < 256 ^ w → from_be_bytes (be_bytes w n) ≡ n
unfolding be_bytes from_be_bytes
from_be_bytes-be_bytes zero n h = omega arith
from_be_bytes-be_bytes (suc w) n h =
    rw foldl-append (omega (arith, from_be_bytes-be_bytes w (n / 256) (omega arith)))

pub from_le_bytes-le_bytes : (w n : ℕ) → n < 256 ^ w → from_le_bytes (le_bytes w n) ≡ n
unfolding le_bytes from_le_bytes
from_le_bytes-le_bytes zero n h = omega arith
from_le_bytes-le_bytes (suc w) n h = omega (arith, from_le_bytes-le_bytes w (n / 256) (omega arith))

pub be_bytes-IsByte : (w n : ℕ) → All IsByte (be_bytes w n)
unfolding be_bytes
be_bytes-IsByte zero n = tt
be_bytes-IsByte (suc w) n =
    All-append IsByte (be_bytes w (n / 256)) _ (be_bytes-IsByte w (n / 256)) (omega arith)

compare_split :
    (m n : ℕ) → compare m n ≡ then_cmp (compare (m / 256) (n / 256)) (compare (m % 256) (n % 256))
compare_split m n = ground arith

-- Big-endian bytes of one width compare as the numbers do.
pub compare_bytes-be_bytes :
    (w m n : ℕ)
    → m < 256 ^ w
    → n < 256 ^ w
    → compare_bytes (be_bytes w m) (be_bytes w n) ≡ compare m n
unfolding be_bytes
compare_bytes-be_bytes zero m n hm hn = unfold compare_bytes in ground arith
compare_bytes-be_bytes (suc w) m n hm hn = rw (
  compare_bytes-snoc (be_bytes w (m / 256)) (be_bytes w (n / 256)) (m % 256) (n % 256)
      (omega (arith, length-be_bytes w (m / 256), length-be_bytes w (n / 256))),
  compare_bytes-be_bytes w (m / 256) (n / 256) (omega arith) (omega arith),
  compare_split m n,
)

mul_step : (a b p : ℕ) → b < 256 → (a * 256 + b + 1) * p ≤ (a + 1) * (256 * p)
mul_step a b p h = grind arith

from_be-lt :
    (acc : ℕ) (bs : Bytes) → All IsByte bs → foldl shift_in acc bs < (acc + 1) * 256 ^ length bs
from_be-lt acc [] h = omega arith
from_be-lt acc (b ∷ bs) h =
    let rest = from_be-lt (acc * 256 + b) bs h.1 in
    let step = mul_step acc b (256 ^ length bs) h.0 in
    let power : 256 ^ suc (length bs) ≡ 256 * 256 ^ length bs = omega arith in
    rw power (omega arith)

pub from_be_bytes-lt : (bs : Bytes) → All IsByte bs → from_be_bytes bs < 256 ^ length bs
unfolding from_be_bytes
from_be_bytes-lt bs h = omega (arith, from_be-lt 0 bs h)

pub from_le_bytes-lt : (bs : Bytes) → All IsByte bs → from_le_bytes bs < 256 ^ length bs
unfolding from_le_bytes
from_le_bytes-lt [] h = omega arith
from_le_bytes-lt (b ∷ bs) h =
    let power : 256 ^ suc (length bs) ≡ 256 * 256 ^ length bs = omega arith in
    rw power (omega (arith, from_le_bytes-lt bs h.1))
