-- ===== src/Base/Bits.antt =====
-- The bit operations that the program uses: the sign bit of a 64-bit word, and one bit of a byte.
use Prim.Native.Nat.{
  ℕ, zero, suc, ◌+◌, ◌-◌, ◌*◌, ◌/◌, ◌%◌, ◌^◌, ◌≤◌, ◌<◌, bit_and, bit_or, bit_xor, digits,
  bit_xor-bitwise, differ, bit_and-bitwise,
}
use mathlib.Core.Path.{◌≡◌, refl}
use mathlib.Core.Bool.{Bool, true, false, not, ◌||◌}
use mathlib.Core.Logic.{inl, inr}
use native.Mathlib.Omega.{arith}
use choam.Base.Tests.{ltb, leb, Bool-cases, ltb→lt, ◌==◌, if◌then◌else◌}

-- The digits of an exclusive or, from the lowest; `rounds` bounds how many are computed.
abbrev differing : ℕ → ℕ → ℕ → ℕ
differing rounds a b = digits (λ rest. rest) differ rounds a b

one_more_round : (rounds a b : ℕ) → a ≤ rounds → differing (suc rounds) a b ≡ differing rounds a b
one_more_round zero zero b few = refl
one_more_round (suc rounds) zero b few = refl
one_more_round zero (suc a) b few = absurd (omega arith)
one_more_round (suc rounds) (suc a) b few =
    omega (arith, one_more_round rounds (suc a / 2) (b / 2) (omega arith))

-- Rounds past the size of the number change nothing.
more_rounds : (many few a b : ℕ) → a ≤ few → few ≤ many → differing many a b ≡ differing few a b
more_rounds zero few a b enough le = let none_left : few ≡ 0 = omega arith in rw none_left
more_rounds (suc many) few a b enough le = elim (Bool-cases (leb few many)) [
  | inl below ↦
      let shorter : few ≤ many = ground (arith, below) in
      rw (one_more_round many a b (omega arith)) (more_rounds many few a b enough shorter)
  | inr above ↦ let last : few ≡ suc many = ground (arith, above) in rw last
]

pub zero-bit_xor : (b : ℕ) → bit_xor 0 b ≡ b
zero-bit_xor = bit_xor-bitwise 0

-- The lowest digits apart from the others.
xor_step :
    (a b : ℕ) → bit_xor (suc a) b ≡ bit_xor (suc a / 2) (b / 2) * 2 + differ (suc a % 2) (b % 2)
xor_step a b =
    let half = suc a / 2 in
    let settled : differing a half (b / 2) ≡ differing half half (b / 2) =
      more_rounds a half half (b / 2) (omega arith) (omega arith) in
    let whole = bit_xor-bitwise (suc a) b in
    let upper = bit_xor-bitwise half (b / 2) in omega (arith, whole, upper, settled)

differ-zero : (x : ℕ) → differ x 0 ≡ x
differ-zero zero = refl
differ-zero (suc x) = refl

pow-pos : (k : ℕ) → 0 < 2 ^ k
pow-pos zero = omega arith
pow-pos (suc k) = omega (arith, pow-pos k)

-- Flipping bit `k` of a number below `2 ^ (k + 1)` moves it by `2 ^ k`.
pub flip_top :
    (k a : ℕ) → a < 2 ^ suc k → bit_xor a (2 ^ k) ≡ (if ltb a (2 ^ k) then a + 2 ^ k else a - 2 ^ k)
flip_top zero zero h = refl
flip_top zero (suc zero) h = refl
flip_top zero (suc (suc a)) h = absurd (omega arith)
flip_top (suc k) zero h =
    let two : 2 ^ suc k ≡ 2 * 2 ^ k = omega arith in
    ground (arith, zero-bit_xor (2 ^ suc k), two, pow-pos k)
flip_top (suc k) (suc a) h =
    let two : 2 ^ suc k ≡ 2 * 2 ^ k = omega arith in
    let half : 2 ^ suc k / 2 ≡ 2 ^ k = omega arith in
    let even : 2 ^ suc k % 2 ≡ 0 = omega arith in
    rw (xor_step a (2 ^ suc k), half, even, differ-zero (suc a % 2))
      (ground (arith, flip_top k (suc a / 2) (omega arith), two))

-- Does a number below `n` fail the test? One bit of a byte is tried for every byte.
fails_below : (ℕ → Bool) → ℕ → Bool
fails_below test zero = false
fails_below test (suc n) = not (test n) || fails_below test n

passes : (test : ℕ → Bool) (n x : ℕ) → fails_below test n ≡ false → x < n → test x ≡ true
unfolding fails_below
passes test zero x clean below = absurd (omega arith)
passes test (suc n) x clean below = ground (arith, passes test n x)

-- `byte & (1 << k) != 0`
unfoldable pub bit_is_set : ℕ → ℕ → Bool
bit_is_set byte k = not (bit_and byte (2 ^ k) == 0)

-- `byte |= 1 << k`
unfoldable pub set_bit : ℕ → ℕ → ℕ
set_bit byte k = bit_or byte (2 ^ k)

abbrev agree : Bool → Bool → Bool
agree true b = b
agree false b = not b

agree→eq : (a b : Bool) → agree a b ≡ true → a ≡ b
agree→eq a b h = ground arith

abbrev bit_law : ℕ → ℕ → ℕ → Bool
unfolding bit_is_set set_bit
bit_law x j k = agree (bit_is_set (set_bit x k) j) (k == j || bit_is_set x j)

bit_table :
    fails_below (λ x. not (fails_below (λ j. not (fails_below (λ k. bit_law x j k) 8)) 8)) 256
    ≡ false
unfolding fails_below bit_is_set set_bit
bit_table = refl

not-true : (b : Bool) → not b ≡ true → b ≡ false
not-true b h = ground arith

-- Setting bit `k` of a byte sets that bit and keeps every other one.
pub bit_is_set-set_bit :
    (x j k : ℕ) → x < 256 → j < 8 → k < 8 → bit_is_set (set_bit x k) j ≡ (k == j || bit_is_set x j)
unfolding bit_is_set set_bit
bit_is_set-set_bit x j k hx hj hk =
    let byte = not-true _ (passes _ 256 x bit_table hx) in
    let bit = not-true _ (passes _ 8 j byte hj) in
    agree→eq _ _ (passes (λ k. bit_law x j k) 8 k bit hk)

set_bit_table : fails_below (λ x. not (fails_below (λ k. ltb (set_bit x k) 256) 8)) 256 ≡ false
unfolding fails_below set_bit
set_bit_table = refl

pub set_bit-lt : (x k : ℕ) → x < 256 → k < 8 → set_bit x k < 256
set_bit-lt x k hx hk =
    let byte = not-true _ (passes _ 256 x set_bit_table hx) in
    ltb→lt _ _ (passes (λ k. ltb (set_bit x k) 256) 8 k byte hk)

pub zero-bit_is_set : (k : ℕ) → bit_is_set 0 k ≡ false
unfolding bit_is_set
zero-bit_is_set k = ground (arith, bit_and-bitwise 0 (2 ^ k))
