-- ===== src/Sql/RoundTrip/Numbers.antt =====
-- What `Display` writes of a number is read back.
use choam.Base.{
  ℕ, zero, suc, ◌+◌, ◌-◌, ◌*◌, ◌/◌, ◌%◌, ◌^◌, ◌<◌, ◌≡◌, refl, ap, ◌∙◌, sym, true, false, ◌==◌,
  Bool-cases, inl, inr, [], ◌∷◌, ◌++◌, Bytes, length, arith,
}
use choam.Base.Int.{pos}
use choam.Sql.Token.{Token}
use choam.Sql.Display.{digits_onto, decimal}
use choam.Sql.Lexer.{CharClass, is_digit, digits}
use choam.Sql.Parser.{Tokens}
use choam.Sql.RoundTrip.Steps.{Stops, DocumentedClasses, Lexed, integer-Lexed}

abbrev HeadDigit : Bytes → Type 0
HeadDigit [] = ⊥
HeadDigit (b ∷ bs) = is_digit b ≡ true

last_digit : (n : ℕ) → is_digit (48 + n % 10) ≡ true
last_digit n = ground arith

digits_onto-HeadDigit :
    (fuel n : ℕ) (out : Bytes) → HeadDigit out → HeadDigit (digits_onto fuel n out)
unfolding digits_onto
digits_onto-HeadDigit zero n out h = h
digits_onto-HeadDigit (suc fuel) n out h = elim (Bool-cases (n / 10 == 0)) [
  | inl one ↦ rw one (last_digit n)
  | inr more ↦ rw more (digits_onto-HeadDigit fuel (n / 10) ((48 + n % 10) ∷ out) (last_digit n))
]

decimal-HeadDigit : (n : ℕ) → HeadDigit (decimal n)
unfolding decimal digits_onto
decimal-HeadDigit n = elim (Bool-cases (n / 10 == 0)) [
  | inl one ↦ rw one (last_digit n)
  | inr more ↦ rw more (digits_onto-HeadDigit 19 (n / 10) ((48 + n % 10) ∷ []) (last_digit n))
]

digits_step :
    (value len n : ℕ) (bs : Bytes)
    → digits value len ((48 + n % 10) ∷ bs) ≡ digits (10 * value + n % 10) (suc len) bs
unfolding digits
digits_step value len n bs =
    let d : 48 + n % 10 - 48 ≡ n % 10 = omega arith in
    let s : len + 1 ≡ suc len = omega arith in rw (last_digit n, d, s)

-- The digits in front of `out` are read as the number, and each takes one byte.
abbrev ReadsNumber : ℕ → Bytes → Bytes → Bytes → Type 0
ReadsNumber n text out tail =
    (len : ℕ) × (digits 0 0 (text ++ tail) ≡ digits n len (out ++ tail))
    × (length text ≡ len + length out)

one_more :
    (n : ℕ) (text out tail : Bytes)
    → ReadsNumber (n / 10) text ((48 + n % 10) ∷ out) tail
    → ReadsNumber n text out tail
one_more n text out tail (len, read, size) =
    let value : 10 * (n / 10) + n % 10 ≡ n = omega arith in
    let last : digits (n / 10) len ((48 + n % 10) ∷ (out ++ tail))
        ≡ digits n (suc len) (out ++ tail) =
      digits_step (n / 10) len n (out ++ tail) ∙ ap (λ v. digits v (suc len) (out ++ tail)) value in
    (suc len, read ∙ last, omega (arith, size))

nothing_left : (n : ℕ) (out tail : Bytes) → n ≡ 0 → ReadsNumber n out out tail
nothing_left n out tail h = (0, rw h refl, omega arith)

digits_onto-ReadsNumber :
    (fuel n : ℕ) (out tail : Bytes)
    → n < 10 ^ fuel
    → ReadsNumber n (digits_onto fuel n out) out tail
unfolding digits_onto
digits_onto-ReadsNumber zero n out tail h = nothing_left n out tail (omega arith)
digits_onto-ReadsNumber (suc fuel) n out tail h = elim (Bool-cases (n / 10 == 0)) [
  | inl one ↦
      let none_before = nothing_left (n / 10) ((48 + n % 10) ∷ out) tail (ground arith) in
      rw one (one_more n ((48 + n % 10) ∷ out) out tail none_before)
  | inr more ↦
      let before = digits_onto fuel (n / 10) ((48 + n % 10) ∷ out) in
      rw more (
        one_more n before out tail
          (digits_onto-ReadsNumber fuel (n / 10) ((48 + n % 10) ∷ out) tail (omega arith)))
]

digits-Stops : (n len : ℕ) (tail : Bytes) → Stops tail → digits n len tail ≡ (n, len)
unfolding digits
digits-Stops n len [] h = refl
digits-Stops n len (b ∷ bs) h = let plain : is_digit b ≡ false = ground arith in rw plain

digits-decimal :
    (n : ℕ) (tail : Bytes)
    → n < 2 ^ 63
    → Stops tail
    → digits 0 0 (decimal n ++ tail) ≡ (n, length (decimal n))
unfolding decimal
digits-decimal n tail small stops =
    let (len, read, size) = digits_onto-ReadsNumber 20 n [] tail (omega arith) in
    let whole : length (decimal n) ≡ len = omega (arith, size) in
    read ∙ digits-Stops n len tail stops ∙ ap (λ k. (n, k)) (sym whole)

module _ (chars : CharClass) (documented : DocumentedClasses chars) where
  digits-Lexed :
      (start n : ℕ) (text tail : Bytes) (out : Tokens)
      → HeadDigit text
      → digits 0 0 (text ++ tail) ≡ (n, length text)
      → n < 2 ^ 63
      → Lexed chars documented (start + length text) tail out
      → Lexed chars documented start (text ++ tail) ((Token.integer (pos n), start) ∷ out)
  digits-Lexed start n [] tail out digit read small later = absurd digit
  digits-Lexed start n (b ∷ bs) tail out digit read small later =
      integer-Lexed chars documented start b bs tail n out digit read small later

  pub decimal-Lexed :
      (start n : ℕ) (tail : Bytes) (out : Tokens)
      → n < 2 ^ 63
      → Stops tail
      → Lexed chars documented (start + length (decimal n)) tail out
      → Lexed chars documented start (decimal n ++ tail) ((Token.integer (pos n), start) ∷ out)
  decimal-Lexed start n tail out small stops later =
      digits-Lexed start n (decimal n) tail out (decimal-HeadDigit n)
        (digits-decimal n tail small stops) small later
