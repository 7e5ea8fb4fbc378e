-- ===== src/Sql/RoundTrip/Names.antt =====
-- Words are lexed to their ends.
use choam.Base.{
  ℕ, zero, suc, ◌+◌, ◌≤◌, ◌<◌, ◌≡◌, refl, ◌∙◌, Bool, true, false, ◌||◌, ◌==◌, leb, none, some, [],
  ◌∷◌, ◌++◌, Bytes, ok, length, drop, get_or, arith, length-append, length-drop, take-append,
  drop-append, if◌then◌else◌,
}
use choam.Sql.Token.{Token}
use choam.Sql.Lexer.{
  CharClass, char_len, long_code_point, code_point, is_digit, symbol, is_word_char, word_len,
  lex_word, lex_other, lex_step,
}
use choam.Sql.Parser.{Tokens}
use choam.Sql.Lexer.Fuel.{char_len_pos}
use choam.Sql.RoundTrip.Steps.{
  Stops, is_letter, DocumentedClasses, Lexed, next-Lexed, code_point_low,
}

get_or-append : (bs tail : Bytes) (i : ℕ) → i < length bs → get_or (bs ++ tail) i 0 ≡ get_or bs i 0
get_or-append [] tail i h = absurd (omega arith)
get_or-append (b ∷ bs) tail zero h = refl
get_or-append (b ∷ bs) tail (suc i) h = get_or-append bs tail i (omega arith)

drop-append_le : (n : ℕ) (bs tail : Bytes) → n ≤ length bs → drop n (bs ++ tail) ≡ drop n bs ++ tail
drop-append_le zero bs tail h = refl
drop-append_le (suc n) [] tail h = absurd (omega arith)
drop-append_le (suc n) (b ∷ bs) tail h = drop-append_le n bs tail (omega arith)

-- What follows a whole character does not matter.
code_point-append :
    (b : ℕ) (bs tail : Bytes)
    → char_len b ≤ suc (length bs)
    → code_point b (bs ++ tail) ≡ code_point b bs
unfolding code_point long_code_point char_len
code_point-append b bs tail h =
    ground (arith, get_or-append bs tail 0, get_or-append bs tail 1, get_or-append bs tail 2)

-- A code point that a word may start with, by its value.
abbrev StartsWord : ℕ → Type 0
StartsWord c = (is_letter c || c == 95 || leb 128 c) ≡ true

no_symbol : (c : ℕ) → StartsWord c → symbol c ≡ none
unfolding symbol
no_symbol c h = ground arith

no_comparator : (c : ℕ) → StartsWord c → (c == 60 || c == 62 || c == 33) ≡ false
no_comparator c h = ground arith

no_quote : (c : ℕ) → StartsWord c → (c == 39) ≡ false
no_quote c h = ground arith

no_digit : (c : ℕ) → StartsWord c → is_digit c ≡ false
no_digit c h = ground arith

module _ (chars : CharClass) (documented : DocumentedClasses chars) where
  -- A word: a letter or an underscore, and then word characters to the end.
  abbrev starts_word : Bytes → Bool
  starts_word [] = false
  starts_word (b ∷ bs) = chars.is_alphabetic (code_point b bs) || code_point b bs == 95

  abbrev pub IsWord : Bytes → Type 0
  IsWord w = (starts_word w ≡ true) × (word_len chars (length w) w ≡ length w)

  stop_no_word :
      (b : ℕ) (bs : Bytes)
      → (b == 32 || b == 41 || b == 44) ≡ true
      → is_word_char chars (code_point b bs) ≡ false
  stop_no_word b bs h =
      let low : b < 128 = ground arith in
      let other : (is_letter b || is_digit b || b == 95) ≡ false = ground arith in
      rw (code_point_low b bs low, documented.ascii_word_chars b low) other

  word_len-Stops : (fuel : ℕ) (tail : Bytes) → Stops tail → word_len chars fuel tail ≡ 0
  unfolding word_len
  word_len-Stops zero tail h = refl
  word_len-Stops (suc fuel) [] h = refl
  word_len-Stops (suc fuel) (b ∷ bs) h = rw (stop_no_word b bs h)

  split_word :
      (test : Bool) (k m n : ℕ)
      → (if test then k + m else 0) ≡ suc n
      → (test ≡ true) × (k + m ≡ suc n)
  split_word true k m n h = (refl, h)
  split_word false k m n h = absurd (omega arith)

  char_len_fits :
      (b : ℕ) (bs : Bytes)
      → word_len chars (length (b ∷ bs)) (b ∷ bs) ≡ length (b ∷ bs)
      → char_len b ≤ suc (length bs)
  unfolding word_len
  char_len_fits b bs whole =
      let left = drop (char_len b) (b ∷ bs) in
      let sum =
        split_word (is_word_char chars (code_point b bs)) (char_len b)
          (word_len chars (length bs) left) (length bs) whole in
      omega (arith, sum.1)

  word_len-append :
      (fuel more : ℕ) (w tail : Bytes)
      → length w ≤ fuel
      → length w ≤ more
      → word_len chars fuel w ≡ length w
      → Stops tail
      → word_len chars more (w ++ tail) ≡ length w
  unfolding word_len
  word_len-append fuel more [] tail h k whole stops = word_len-Stops more tail stops
  word_len-append zero more (b ∷ bs) tail h k whole stops = absurd (omega arith)
  word_len-append (suc fuel) zero (b ∷ bs) tail h k whole stops = absurd (omega arith)
  word_len-append (suc fuel) (suc more) (b ∷ bs) tail h k whole stops =
      let left = drop (char_len b) (b ∷ bs) in
      let (is_char, sum) =
        split_word (is_word_char chars (code_point b bs)) (char_len b) (word_len chars fuel left)
          (length bs) whole in
      let size = length-drop (char_len b) (b ∷ bs) in
      let fits : char_len b ≤ suc (length bs) = omega (arith, sum) in
      let step : drop (char_len b) (b ∷ (bs ++ tail)) ≡ left ++ tail =
        drop-append_le (char_len b) (b ∷ bs) tail fits in
      let taken = char_len_pos b in
      let ih : word_len chars more (left ++ tail) ≡ length left =
        word_len-append fuel more left tail (omega (arith, size, taken))
          (omega (arith, size, taken)) (omega (arith, size, sum, fits)) stops in
      let total : char_len b + length left ≡ suc (length bs) = omega (arith, size, fits) in
      rw (code_point-append b bs tail fits, is_char, step, ih) total

  word_start_range : (c : ℕ) → (chars.is_alphabetic c || c == 95) ≡ true → StartsWord c
  word_start_range c h = ground (arith, documented.ascii_letters c)

  word_start_space :
      (c : ℕ) → (chars.is_alphabetic c || c == 95) ≡ true → chars.is_whitespace c ≡ false
  word_start_space c h = ground (arith, documented.letter_no_space c, documented.visible c)

  word_other :
      (start b : ℕ) (bs : Bytes) (c : ℕ)
      → (chars.is_alphabetic c || c == 95) ≡ true
      → lex_other chars start b bs c ≡ lex_word (b ∷ bs) (word_len chars (length (b ∷ bs)) (b ∷ bs))
  unfolding lex_other
  word_other start b bs c h =
      let plain = word_start_range c h in
      rw (no_comparator c plain, no_quote c plain, no_digit c plain, h)

  word_step :
      (start b : ℕ) (bs : Bytes)
      → (chars.is_alphabetic (code_point b bs) || code_point b bs == 95) ≡ true
      → lex_step chars start b bs ≡ lex_word (b ∷ bs) (word_len chars (length (b ∷ bs)) (b ∷ bs))
  unfolding lex_step
  word_step start b bs h =
      rw
        (
          word_start_space (code_point b bs) h,
          no_symbol (code_point b bs) (word_start_range (code_point b bs) h),
        )
        (word_other start b bs (code_point b bs) h)

  pub word-Lexed :
      (start : ℕ) (w tail : Bytes) (out : Tokens)
      → IsWord w
      → Stops tail
      → Lexed chars documented (start + length w) tail out
      → Lexed chars documented start (w ++ tail) ((Token.word w, start) ∷ out)
  word-Lexed start [] tail out h stops later = cc (h.0)
  word-Lexed start (b ∷ bs) tail out (first, whole) stops later =
      let w : Bytes = b ∷ bs in
      let fits = char_len_fits b bs whole in
      let len : word_len chars (length (w ++ tail)) (w ++ tail) ≡ length w =
        word_len-append (length w) (length (w ++ tail)) w tail (omega arith)
          (omega (arith, length-append w tail)) whole stops in
      let same = code_point-append b bs tail fits in
      let step : lex_step chars start b (bs ++ tail) ≡ ok (some (Token.word w), length w) =
        word_step start b (bs ++ tail) (rw same first)
        ∙ rw (len, take-append (length w) w tail refl) in
      next-Lexed chars documented start b (bs ++ tail) (some (Token.word w)) (length w) out step
        (omega arith) (rw (drop-append (length bs) bs tail refl) later)
