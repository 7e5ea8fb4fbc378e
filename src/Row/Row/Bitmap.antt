-- ===== src/Row/Row/Bitmap.antt =====
-- The null bitmap of a row: bit `i % 8` of byte `i / 8` belongs to column `i`.
use choam.Base.{
  ℕ, zero, suc, ◌+◌, ◌*◌, ◌/◌, ◌%◌, ◌≤◌, ◌<◌, ◌≡◌, ◌≢◌, refl, Bool, false, ◌||◌, List, [], ◌∷◌,
  Bytes, IsByte, some, length, set, get_or, get_elem?, replicate, All, arith, ◌==◌, if◌then◌else◌,
  get_or-set_self, get_or-set_ne, length-set, length-replicate, get_or-replicate, Bool-cases, inl,
  inr, ==_iff,
}
use choam.Base.Bits.{bit_is_set, set_bit, bit_is_set-set_bit, set_bit-lt, zero-bit_is_set}
use choam.Row.Value.{Value, is_null}

abbrev pub bit_at : Bytes → ℕ → Bool
bit_at b i = bit_is_set (get_or b (i / 8) 0) (i % 8)

abbrev pub mark : Bytes → ℕ → Bytes
mark b i = set b (i / 8) (set_bit (get_or b (i / 8) 0) (i % 8))

-- The bitmap after the columns from `i` on.
unfoldable pub marks : ℕ → List Value → Bytes → Bytes
marks i [] b = b
marks i (v ∷ vs) b = marks (i + 1) vs (if is_null v then mark b i else b)

pub get_elem?-get_or {ℓ} :
    {A : Type ℓ} (xs : List A) (i : ℕ) (d : A)
    → i < length xs
    → get_elem? xs i ≡ some (get_or xs i d)
get_elem?-get_or [] i d h = elim h [ ]
get_elem?-get_or (x ∷ xs) zero d h = refl
get_elem?-get_or (x ∷ xs) (suc i) d h = get_elem?-get_or xs i d (omega arith)

get_or-IsByte : (b : Bytes) (i : ℕ) → All IsByte b → get_or b i 0 < 256
get_or-IsByte [] i h = omega arith
get_or-IsByte (x ∷ b) zero h = h.0
get_or-IsByte (x ∷ b) (suc i) h = get_or-IsByte b i h.1

set-IsByte : (b : Bytes) (i v : ℕ) → All IsByte b → v < 256 → All IsByte (set b i v)
set-IsByte [] i v h hv = tt
set-IsByte (x ∷ b) zero v h hv = (hv, h.1)
set-IsByte (x ∷ b) (suc i) v h hv = (h.0, set-IsByte b i v h.1 hv)

pub mark-IsByte : (b : Bytes) (i : ℕ) → All IsByte b → All IsByte (mark b i)
mark-IsByte b i h =
    set-IsByte b (i / 8) _ h
      (set_bit-lt (get_or b (i / 8) 0) (i % 8) (get_or-IsByte b (i / 8) h) (omega arith))

same_bit : (i j : ℕ) → i / 8 ≡ j / 8 → (i % 8 == j % 8) ≡ (i == j)
same_bit i j h = ground arith

pub bit_at-mark :
    (b : Bytes) (i j : ℕ)
    → All IsByte b
    → i / 8 < length b
    → bit_at (mark b i) j ≡ (i == j || bit_at b j)
bit_at-mark b i j hb hi = elim (Bool-cases (i / 8 == j / 8)) [
  | inl same ↦
      let e : i / 8 ≡ j / 8 = (==_iff (i / 8) (j / 8)).0 same in
      rw (
        ← e,
        get_or-set_self b (i / 8) (set_bit (get_or b (i / 8) 0) (i % 8)) 0 hi,
        bit_is_set-set_bit (get_or b (i / 8) 0) (j % 8) (i % 8) (get_or-IsByte b (i / 8) hb)
            (omega arith) (omega arith),
        same_bit i j e,
      )
  | inr other ↦
      let ne : i / 8 ≢ j / 8 = ground arith in
      let far : (i == j) ≡ false = ground arith in
      rw (get_or-set_ne b (i / 8) (j / 8) (set_bit (get_or b (i / 8) 0) (i % 8)) 0 ne, far)
]

-- Later columns leave the earlier bits alone.
pub bit_at-marks :
    (i j : ℕ) (vs : List Value) (b : Bytes)
    → All IsByte b
    → j < i
    → i + length vs ≤ 8 * length b
    → bit_at (marks i vs b) j ≡ bit_at b j
unfolding marks
bit_at-marks i j [] b hb hj hl = refl
bit_at-marks i j (v ∷ vs) b hb hj hl = elim (Bool-cases (is_null v)) [
  | inl n ↦
      rw
        (
          n,
          bit_at-marks (i + 1) j vs (mark b i) (mark-IsByte b i hb) (omega arith)
              (omega (arith, length-set b (i / 8) (set_bit (get_or b (i / 8) 0) (i % 8)))),
          bit_at-mark b i j hb (omega arith),
        )
        (ground arith)
  | inr n ↦ rw (n, bit_at-marks (i + 1) j vs b hb (omega arith) (omega arith))
]

pub length-marks : (i : ℕ) (vs : List Value) (b : Bytes) → length (marks i vs b) ≡ length b
unfolding marks
length-marks i [] b = refl
length-marks i (v ∷ vs) b = elim (Bool-cases (is_null v)) [
  | inl n ↦ rw n (
      omega (
        arith,
        length-marks (i + 1) vs (mark b i),
        length-set b (i / 8) (set_bit (get_or b (i / 8) 0) (i % 8)),
      ))
  | inr n ↦ rw n (length-marks (i + 1) vs b)
]

-- The bits from column `i` on say which of the values are null.
abbrev pub NullBits : ℕ → List Value → Bytes → Type 0
NullBits i [] b = Unit
NullBits i (v ∷ vs) b = (bit_at b i ≡ is_null v) × NullBits (i + 1) vs b

abbrev pub ClearFrom : ℕ → Bytes → Type 0
ClearFrom i b = (j : ℕ) → i ≤ j → bit_at b j ≡ false

clear-mark :
    (i : ℕ) (b : Bytes)
    → All IsByte b
    → i / 8 < length b
    → ClearFrom i b
    → ClearFrom (i + 1) (mark b i)
clear-mark i b hb hl clear j hj = rw (bit_at-mark b i j hb hl, clear j (omega arith)) (ground arith)

marks-NullBits :
    (i : ℕ) (vs : List Value) (b : Bytes)
    → All IsByte b
    → i + length vs ≤ 8 * length b
    → ClearFrom i b
    → NullBits i vs (marks i vs b)
unfolding marks
marks-NullBits i [] b hb hl clear = tt
marks-NullBits i (v ∷ vs) b hb hl clear = elim (Bool-cases (is_null v)) [
  | inl n ↦
      let len = length-set b (i / 8) (set_bit (get_or b (i / 8) 0) (i % 8)) in
      rw n (
        rw
            (
              bit_at-marks (i + 1) i vs (mark b i) (mark-IsByte b i hb) (omega arith)
                  (omega (arith, len)),
              bit_at-mark b i i hb (omega arith),
            )
            (ground arith),
        marks-NullBits (i + 1) vs (mark b i) (mark-IsByte b i hb) (omega (arith, len))
            (clear-mark i b hb (omega arith) clear),
      )
  | inr n ↦ rw n (
    rw (bit_at-marks (i + 1) i vs b hb (omega arith) (omega arith)) (clear i (omega arith)),
    marks-NullBits (i + 1) vs b hb (omega arith) (λ j hj. clear j (omega arith)),
  )
]

zeroes-IsByte : (n : ℕ) → All IsByte (replicate n 0)
zeroes-IsByte zero = tt
zeroes-IsByte (suc n) = (omega arith, zeroes-IsByte n)

-- From an empty bitmap that is long enough, every bit comes out right.
pub marks_from_zero :
    (n : ℕ) (vs : List Value) → length vs ≤ 8 * n → NullBits 0 vs (marks 0 vs (replicate n 0))
marks_from_zero n vs h =
    marks-NullBits 0 vs (replicate n 0) (zeroes-IsByte n)
      (omega (arith, length-replicate {A = ℕ} n 0))
      λ j hj. rw (get_or-replicate {A = ℕ} n (j / 8) 0) (zero-bit_is_set (j % 8))
