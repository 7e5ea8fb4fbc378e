-- ===== src/Sql/RoundTrip/Steps.antt =====
-- How the lexer's loop goes on behind one token.
use choam.Base.{
  ℕ, suc, ◌+◌, ◌-◌, ◌<◌, ◌^◌, ◌≡◌, ◌≢◌, refl, ◌∙◌, Bool, true, false, ◌||◌, ◌&&◌, ◌==◌, leb, Option,
  none, some, [], ◌∷◌, ◌++◌, Bytes, ok, length, drop, arith, length-drop, length-append,
  drop-append, append_assoc, sym, ap, lt→ltb,
}
use choam.Base.Int.{pos}
use choam.Sql.Token.{Token}
use choam.Sql.Display.{double_quotes}
use choam.Sql.Lexer.{
  CharClass, char_len, is_digit, code_point, symbol, comparator, peek, digits, lex_integer,
  lex_other, lex_step, lex_from, emit,
}
use choam.Sql.Lexer.Fuel.{LettersAreWordChars, lex_from_enough}
use choam.Sql.Lexer.Quotes.{string_body-double_quotes}
use choam.Sql.Parser.{Tokens}

abbrev pub is_letter : ℕ → Bool
is_letter c = (leb 65 c && leb c 90) || (leb 97 c && leb c 122)

-- What `char` documents of its classes: all of ASCII, that a letter is alphanumeric, and that none is
-- white space.
pub record DocumentedClasses (chars : CharClass) : Type 0 where
  pub letters : LettersAreWordChars chars
  pub letter_no_space : (c : ℕ) → chars.is_alphabetic c ≡ true → chars.is_whitespace c ≡ false
  pub space : chars.is_whitespace 32 ≡ true
  pub visible : (c : ℕ) → 32 < c → c < 127 → chars.is_whitespace c ≡ false
  pub ascii_letters : (c : ℕ) → c < 128 → chars.is_alphabetic c ≡ is_letter c
  pub ascii_word_chars : (c : ℕ) → c < 128 → chars.is_alphanumeric c ≡ (is_letter c || is_digit c)

pub code_point_low : (b : ℕ) (bs : Bytes) → b < 128 → code_point b bs ≡ b
unfolding code_point
code_point_low b bs h = ground arith

no_symbol : (b : ℕ) → is_digit b ≡ true → symbol b ≡ none
unfolding symbol
no_symbol b h = ground arith

digit_no_comparator : (b : ℕ) → is_digit b ≡ true → (b == 60 || b == 62 || b == 33) ≡ false
digit_no_comparator b h = ground arith

digit_no_quote : (b : ℕ) → is_digit b ≡ true → (b == 39) ≡ false
digit_no_quote b h = ground arith

integer_read :
    (start : ℕ) (p : ℕ × ℕ) (n len : ℕ)
    → p ≡ (n, len)
    → n < 2 ^ 63
    → lex_integer start p ≡ ok (some (Token.integer (pos n)), len)
integer_read start p n len read small = rw (read, lt→ltb n (2 ^ 63) small)

module _ (chars : CharClass) (documented : DocumentedClasses chars) where
  -- From byte `start` on, the text is lexed to these tokens.
  abbrev pub Lexed : ℕ → Bytes → Tokens → Type 0
  Lexed start bs out = lex_from chars (length bs) start bs ≡ ok out

  pub next-Lexed :
      (start b : ℕ) (bs : Bytes) (tok : Option Token) (len : ℕ) (out : Tokens)
      → lex_step chars start b bs ≡ ok (tok, len)
      → 0 < len
      → Lexed (start + len) (drop len (b ∷ bs)) out
      → Lexed start (b ∷ bs) (emit chars tok start out)
  unfolding lex_from
  next-Lexed start b bs tok len out step taken later =
      let left = drop len (b ∷ bs) in
      let shorter = length-drop len (b ∷ bs) in
      let fuel =
        lex_from_enough chars documented.letters (length bs) (length left) (start + len) left
          (omega (arith, shorter)) (omega arith) in
      rw (step, fuel, later)

  space_step : (start : ℕ) (bs : Bytes) → lex_step chars start 32 bs ≡ ok (none, 1)
  unfolding lex_step code_point char_len
  space_step start bs = rw documented.space

  pub space-Lexed :
      (start : ℕ) (bs : Bytes) (out : Tokens) → Lexed (start + 1) bs out → Lexed start (32 ∷ bs) out
  space-Lexed start bs out later =
      next-Lexed start 32 bs none 1 out (space_step start bs) (omega arith) later

  symbol_step :
      (start b : ℕ) (bs : Bytes) (tok : Token)
      → 32 < b
      → b < 127
      → symbol b ≡ some tok
      → lex_step chars start b bs ≡ ok (some tok, 1)
  unfolding lex_step
  symbol_step start b bs tok low high is_symbol =
      rw (code_point_low b bs (omega arith), documented.visible b low high, is_symbol)

  pub symbol-Lexed :
      (start b : ℕ) (bs : Bytes) (tok : Token) (out : Tokens)
      → 32 < b
      → b < 127
      → symbol b ≡ some tok
      → Lexed (start + 1) bs out
      → Lexed start (b ∷ bs) ((tok, start) ∷ out)
  symbol-Lexed start b bs tok out low high is_symbol later =
      next-Lexed start b bs (some tok) 1 out (symbol_step start b bs tok low high is_symbol)
        (omega arith) later

  -- Behind white space and symbols, at an ASCII character.
  other_step :
      (start b : ℕ) (bs : Bytes)
      → 32 < b
      → b < 127
      → symbol b ≡ none
      → lex_step chars start b bs ≡ lex_other chars start b bs b
  unfolding lex_step
  other_step start b bs low high no_symbol =
      rw (code_point_low b bs (omega arith), documented.visible b low high, no_symbol)

  comparator_step :
      (start b : ℕ) (bs : Bytes) (tok : Token) (len : ℕ)
      → symbol b ≡ none
      → 32 < b
      → b < 127
      → (b == 60 || b == 62 || b == 33) ≡ true
      → comparator b (peek bs) ≡ some (tok, len)
      → lex_step chars start b bs ≡ ok (some tok, len)
  unfolding lex_other
  comparator_step start b bs tok len no_symbol low high test found =
      rw (other_step start b bs low high no_symbol, test, found)

  pub comparator-Lexed :
      (start b : ℕ) (bs : Bytes) (tok : Token) (len : ℕ) (out : Tokens)
      → symbol b ≡ none
      → 32 < b
      → b < 127
      → (b == 60 || b == 62 || b == 33) ≡ true
      → comparator b (peek bs) ≡ some (tok, len)
      → 0 < len
      → Lexed (start + len) (drop len (b ∷ bs)) out
      → Lexed start (b ∷ bs) ((tok, start) ∷ out)
  comparator-Lexed start b bs tok len out no_symbol low high test found taken later =
      next-Lexed start b bs (some tok) len out
        (comparator_step start b bs tok len no_symbol low high test found) taken later

  string_step :
      (start : ℕ) (s tail : Bytes)
      → peek tail ≢ 39
      → lex_step chars start 39 (double_quotes s ++ 39 ∷ tail)
        ≡ ok (some (Token.str s), suc (length (double_quotes s ++ 39 ∷ [])))
  unfolding lex_other symbol
  string_step start s tail n =
      let len : 1 + (length (double_quotes s ++ 39 ∷ tail) - length tail)
          ≡ suc (length (double_quotes s ++ 39 ∷ [])) =
        omega (
          arith,
          length-append (double_quotes s) (39 ∷ tail),
          length-append (double_quotes s) (39 ∷ []),
        ) in
      rw
        (
          other_step start 39 (double_quotes s ++ 39 ∷ tail) (omega arith) (omega arith) refl,
          string_body-double_quotes s tail n,
        )
        (ap (λ k. ok (some (Token.str s), k)) len)

  pub string-Lexed :
      (start : ℕ) (s tail : Bytes) (out : Tokens)
      → peek tail ≢ 39
      → Lexed (start + suc (length (double_quotes s ++ 39 ∷ []))) tail out
      → Lexed start (39 ∷ (double_quotes s ++ 39 ∷ tail)) ((Token.str s, start) ∷ out)
  string-Lexed start s tail out n later =
      let body = double_quotes s ++ 39 ∷ [] in
      let whole : double_quotes s ++ 39 ∷ tail ≡ body ++ tail =
        sym (append_assoc (double_quotes s) (39 ∷ []) tail) in
      let left : drop (length body) (double_quotes s ++ 39 ∷ tail) ≡ tail =
        rw whole (drop-append (length body) body tail refl) in
      next-Lexed start 39 (double_quotes s ++ 39 ∷ tail) (some (Token.str s)) (suc (length body))
        out (string_step start s tail n) (omega arith) (rw left later)

  other_digit :
      (start b : ℕ) (bs : Bytes)
      → is_digit b ≡ true
      → lex_other chars start b bs b ≡ lex_integer start (digits 0 0 (b ∷ bs))
  unfolding lex_other
  other_digit start b bs digit = rw (digit_no_comparator b digit, digit_no_quote b digit, digit)

  integer_step :
      (start b : ℕ) (bs : Bytes) (n len : ℕ)
      → is_digit b ≡ true
      → digits 0 0 (b ∷ bs) ≡ (n, len)
      → n < 2 ^ 63
      → lex_step chars start b bs ≡ ok (some (Token.integer (pos n)), len)
  integer_step start b bs n len digit read small =
      other_step start b bs (ground arith) (ground arith) (no_symbol b digit)
      ∙ other_digit start b bs digit
      ∙ integer_read start (digits 0 0 (b ∷ bs)) n len read small

  pub integer-Lexed :
      (start b : ℕ) (bs tail : Bytes) (n : ℕ) (out : Tokens)
      → is_digit b ≡ true
      → digits 0 0 (b ∷ (bs ++ tail)) ≡ (n, suc (length bs))
      → n < 2 ^ 63
      → Lexed (start + suc (length bs)) tail out
      → Lexed start (b ∷ (bs ++ tail)) ((Token.integer (pos n), start) ∷ out)
  integer-Lexed start b bs tail n out digit read small later =
      next-Lexed start b (bs ++ tail) (some (Token.integer (pos n))) (suc (length bs)) out
        (integer_step start b (bs ++ tail) n (suc (length bs)) digit read small) (omega arith)
        (rw (drop-append (length bs) bs tail refl) later)

-- Behind a word or a number: the end, a space, a closing parenthesis or a comma.
abbrev pub Stops : Bytes → Type 0
Stops [] = Unit
Stops (b ∷ bs) = (b == 32 || b == 41 || b == 44) ≡ true
