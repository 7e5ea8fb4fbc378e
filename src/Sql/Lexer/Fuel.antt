-- ===== src/Sql/Lexer/Fuel.antt =====
-- The lexer's loop takes at least one byte in every round, and so ends within its fuel.
use choam.Base.{
  ℕ, zero, suc, ◌+◌, ◌-◌, ◌*◌, ◌≤◌, ◌<◌, ◌^◌, ◌≡◌, ◌≢◌, refl, true, ◌||◌, ◌==◌, ltb, Option, none,
  some, [], ◌∷◌, Bytes, ok, err, panic, ◌>>=◌, length, drop, arith, if◌then◌else◌, length-drop,
}
use choam.Base.Int.{pos}
use choam.Base.Done.{Done-bind, Answers-ne-panic, Done, Done-if, Answers, Answers-bind}
use choam.Sql.Token.{Token, unexpected_char, integer_out_of_range}
use choam.Sql.Lexer.{
  CharClass, char_len, code_point, is_digit, symbol, comparator, peek, string_body, digits, Step,
  lex_comparator, lex_string, lex_integer, lex_symbol, lex_word, word_len, lex_other, lex_step,
  emit, lex_from, lex,
}

pub char_len_pos : (b : ℕ) → 0 < char_len b
unfolding char_len
char_len_pos b = ground arith

-- A character below 128 is its first byte.
pub code_point_ascii : (b : ℕ) (bs : Bytes) → code_point b bs < 128 → code_point b bs ≡ b
unfolding code_point
code_point_ascii b bs h = ground arith

digits_len : (value len : ℕ) (bs : Bytes) → len ≤ (digits value len bs).1
unfolding digits
digits_len value len [] = omega arith
digits_len value len (b ∷ bs) = ground (arith, digits_len (10 * value + (b - 48)) (len + 1) bs)

digits_take : (b : ℕ) (bs : Bytes) → is_digit b ≡ true → 0 < (digits 0 0 (b ∷ bs)).1
unfolding digits
digits_take b bs h = ground (arith, digits_len (10 * 0 + (b - 48)) (0 + 1) bs)

-- At least one byte is taken.
abbrev pub Takes : Option Token × ℕ → Type 0
Takes p = 0 < p.1

comparator_len :
    (c next : ℕ) {tok : Token} {len : ℕ} → comparator c next ≡ some (tok, len) → 0 < len
unfolding comparator
comparator_len c next h = ground arith

found-Takes :
    (c start : ℕ) (o : Option (Token × ℕ))
    → ((tok : Token) (len : ℕ) → o ≡ some (tok, len) → 0 < len)
    → Done Takes (lex_comparator c start o)
found-Takes c start none h = tt
found-Takes c start (some (tok, len)) h = h tok len refl

comparator-Takes : (c start next : ℕ) → Done Takes (lex_comparator c start (comparator c next))
comparator-Takes c start next =
    found-Takes c start (comparator c next) (λ tok len e. comparator_len c next e)

string-Takes :
    (start : ℕ) (after : Bytes) (o : Option (Bytes × Bytes)) → Done Takes (lex_string start after o)
string-Takes start after none = tt
string-Takes start after (some (s, rest)) = omega arith

integer-Takes : (start : ℕ) (p : ℕ × ℕ) → 0 < p.1 → Done Takes (lex_integer start p)
integer-Takes start (value, len) h =
    Done-if Takes (ltb value (2 ^ 63)) (ok (some (Token.integer (pos value)), len))
      (err (integer_out_of_range start)) (λ _. h) (λ _. tt)

-- What `char` documents: a letter is alphanumeric.
abbrev pub LettersAreWordChars : CharClass → Type 0
LettersAreWordChars chars = (c : ℕ) → chars.is_alphabetic c ≡ true → chars.is_alphanumeric c ≡ true

module _ (chars : CharClass) (letters : LettersAreWordChars chars) where
  word-Takes :
      (b : ℕ) (bs : Bytes)
      → (chars.is_alphabetic (code_point b bs) || code_point b bs == 95) ≡ true
      → 0 < word_len chars (length (b ∷ bs)) (b ∷ bs)
  unfolding word_len
  word-Takes b bs h = ground (arith, letters (code_point b bs), char_len_pos b)

  lex_other-Takes :
      (start b : ℕ) (bs : Bytes) → Done Takes (lex_other chars start b bs (code_point b bs))
  unfolding lex_other
  lex_other-Takes start b bs =
      let c = code_point b bs in
      let refused : Step = err (unexpected_char c start) in
      let word =
        if chars.is_alphabetic c || c == 95
        then lex_word (b ∷ bs) (word_len chars (length (b ∷ bs)) (b ∷ bs))
        else refused in
      let number = if is_digit c then lex_integer start (digits 0 0 (b ∷ bs)) else word in
      let quoted = if c == 39 then lex_string start bs (string_body bs) else number in
      Done-if Takes (c == 60 || c == 62 || c == 33)
        (lex_comparator c start (comparator c (peek bs))) quoted
        (λ _. comparator-Takes c start (peek bs))
        λ _.
          Done-if Takes (c == 39) (lex_string start bs (string_body bs)) number
            (λ _. string-Takes start bs (string_body bs))
            λ _.
              Done-if Takes (is_digit c) (lex_integer start (digits 0 0 (b ∷ bs))) word
                (λ digit.
                  integer-Takes start (digits 0 0 (b ∷ bs))
                    (digits_take b bs (ground (arith, code_point_ascii b bs, digit))))
                λ _.
                  Done-if Takes (chars.is_alphabetic c || c == 95)
                    (lex_word (b ∷ bs) (word_len chars (length (b ∷ bs)) (b ∷ bs))) refused
                    (λ letter. word-Takes b bs letter) (λ _. tt)

  pub lex_step-Takes : (start b : ℕ) (bs : Bytes) → Done Takes (lex_step chars start b bs)
  unfolding lex_step
  lex_step-Takes start b bs =
      Done-if Takes (chars.is_whitespace (code_point b bs)) (ok (none, char_len b)) _
        (λ _. char_len_pos b)
        (λ _.
          with_symbol (symbol (code_point b bs)) (lex_other chars start b bs (code_point b bs))
            (lex_other-Takes start b bs))
    where
      with_symbol :
          (o : Option Token) (other : Step) → Done Takes other → Done Takes (lex_symbol o other)
      with_symbol none other h = h
      with_symbol (some tok) other h = omega arith

  -- Fuel beyond the length of the text changes nothing.
  pub lex_from_enough :
      (fuel more start : ℕ) (bs : Bytes)
      → length bs ≤ fuel
      → length bs ≤ more
      → lex_from chars fuel start bs ≡ lex_from chars more start bs
  unfolding lex_from
  lex_from_enough zero zero start bs h k = refl
  lex_from_enough zero (suc more) start [] h k = refl
  lex_from_enough zero (suc more) start (b ∷ bs) h k = absurd (omega arith)
  lex_from_enough (suc fuel) zero start [] h k = refl
  lex_from_enough (suc fuel) zero start (b ∷ bs) h k = absurd (omega arith)
  lex_from_enough (suc fuel) (suc more) start [] h k = refl
  lex_from_enough (suc fuel) (suc more) start (b ∷ bs) h k =
      same_rounds (lex_step chars start b bs) (lex_step-Takes start b bs) λ len taken.
        lex_from_enough fuel more (start + len) (drop len (b ∷ bs))
          (omega (arith, length-drop len (b ∷ bs))) (omega (arith, length-drop len (b ∷ bs)))
    where
      same_rounds :
          (r : Step)
          → Done Takes r
          → ((len : ℕ)
              → 0 < len
              → lex_from chars fuel (start + len) (drop len (b ∷ bs))
                ≡ lex_from chars more (start + len) (drop len (b ∷ bs)))
          → (r >>= λ p. lex_from chars fuel (start + p.1) (drop p.1 (b ∷ bs)) >>= λ out.
              ok (emit chars p.0 start out))
            ≡ (r >>= λ p. lex_from chars more (start + p.1) (drop p.1 (b ∷ bs)) >>= λ out.
                ok (emit chars p.0 start out))
      same_rounds (ok (tok, len)) t same = rw (same len t)
      same_rounds (err e) t same = refl
      same_rounds panic t same = refl

  lex_from-Answers :
      (fuel start : ℕ) (bs : Bytes) → length bs ≤ fuel → Answers (lex_from chars fuel start bs)
  unfolding lex_from
  lex_from-Answers zero start [] h = tt
  lex_from-Answers zero start (b ∷ bs) h = absurd (omega arith)
  lex_from-Answers (suc fuel) start [] h = tt
  lex_from-Answers (suc fuel) start (b ∷ bs) h =
      Done-bind Takes (λ x. Unit) (lex_step chars start b bs) _ (lex_step-Takes start b bs)
        λ p taken.
          let left = drop p.1 (b ∷ bs) in
          Answers-bind (lex_from chars fuel (start + p.1) left) _
            (lex_from-Answers fuel (start + p.1) left (omega (arith, length-drop p.1 (b ∷ bs))))
            (λ _. tt)

  pub lex-Answers : (input : Bytes) → Answers (lex chars input)
  unfolding lex
  lex-Answers input = lex_from-Answers (length input) 0 input (omega arith)

  -- The lexer reads every text to its end, for character classes in which every letter is a word
  -- character: with any fuel that is at least the number of bytes its loop gives the same tokens or
  -- the same error as `lex`, and that is no panic, which is what the loop gives when its fuel ends
  -- before the text.
  pub lex_enough :
      (input : Bytes) (fuel : ℕ)
      → length input ≤ fuel
      → (lex_from chars fuel 0 input ≡ lex chars input) × (lex chars input ≢ panic)
  unfolding lex
  lex_enough input fuel h = (
    lex_from_enough fuel (length input) 0 input h (omega arith),
    Answers-ne-panic (lex chars input) (lex-Answers input),
  )
