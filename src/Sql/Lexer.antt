-- ===== src/Sql/Lexer.antt =====
-- crates/sql/src/lexer.rs: SQL text to tokens, each with its starting byte.
pub mod Quotes
pub mod Fuel
use choam.Base.{
  ℕ, zero, suc, ◌+◌, ◌-◌, ◌*◌, ◌^◌, ◌%◌, ◌==◌, ltb, leb, Bool, true, false, ◌&&◌, ◌||◌, Option,
  none, some, List, [], ◌∷◌, ◌++◌, Bytes, Result, ok, err, panic, ◌>>=◌, length, take, drop, get_or,
  if◌then◌else◌,
}
use choam.Base.Int.{pos}
use choam.Sql.Token.{Token, LexError, unexpected_char, unterminated_string, integer_out_of_range}

-- The classes of characters that `char` has methods for, as code points.
pub record CharClass : Type 0 where
  pub is_whitespace : ℕ → Bool
  pub is_alphabetic : ℕ → Bool
  pub is_alphanumeric : ℕ → Bool

-- How many bytes a character has, by its first byte.
unfoldable pub char_len : ℕ → ℕ
char_len b = if ltb b 0x80 then 1 else if ltb b 0xe0 then 2 else if ltb b 0xf0 then 3 else 4

-- The six bits of the continuation byte at `i`.
abbrev low_bits : Bytes → ℕ → ℕ
low_bits bs i = get_or bs i 0 % 64

-- The scalar value that the bytes of a longer character encode.
unfoldable pub long_code_point : ℕ → Bytes → ℕ
long_code_point b bs =
    if ltb b 0xe0
    then b % 32 * 64 + low_bits bs 0
    else if ltb b 0xf0
    then b % 16 * 64 ^ 2 + low_bits bs 0 * 64 + low_bits bs 1
    else b % 8 * 64 ^ 3 + low_bits bs 0 * 64 ^ 2 + low_bits bs 1 * 64 + low_bits bs 2

-- The code point of the character that `b ∷ bs` begins with. In the text of a `str` no longer
-- character encodes an ASCII value.
unfoldable pub code_point : ℕ → Bytes → ℕ
unfolding long_code_point
code_point b bs =
    let long = long_code_point b bs in
    if ltb b 0x80 then b else if ltb long 0x80 then 0xfffd else long

abbrev pub is_digit : ℕ → Bool
is_digit c = leb 48 c && leb c 57

unfoldable pub symbol : ℕ → Option Token
symbol c =
    if c == 40
    then some Token.l_paren
    else if c == 41
    then some Token.r_paren
    else if c == 44
    then some Token.comma
    else if c == 59
    then some Token.semicolon
    else if c == 42
    then some Token.star
    else if c == 43
    then some Token.plus
    else if c == 45
    then some Token.minus
    else if c == 47
    then some Token.slash
    else if c == 61
    then some Token.eq
    else none

-- The byte at the front; no byte is 256.
abbrev pub peek : Bytes → ℕ
peek [] = 256
peek (b ∷ bs) = b

-- A token that starts with `<`, `>` or `!`, and its length.
unfoldable pub comparator : ℕ → ℕ → Option (Token × ℕ)
comparator c next =
    if c == 60
    then (if next == 61
        then some (Token.le, 2)
        else if next == 62
        then some (Token.ne, 2)
        else some (Token.lt, 1))
    else if c == 62
    then (if next == 61 then some (Token.ge, 2) else some (Token.gt, 1))
    else (if next == 61 then some (Token.ne, 2) else none)

abbrev push : ℕ → Option (Bytes × Bytes) → Option (Bytes × Bytes)
push b none = none
push b (some (s, rest)) = some (b ∷ s, rest)

-- The contents of a string literal and what follows its closing quote, from behind the opening one.
-- The bytes of a longer character are pushed one by one: none of them is a quote.
unfoldable pub string_body : Bytes → Option (Bytes × Bytes)
string_body [] = none
string_body (b ∷ []) = if b == 39 then some ([], []) else none
string_body (b ∷ c ∷ bs) =
    let doubled = push 39 (string_body bs) in
    let plain = push b (string_body (c ∷ bs)) in
    if b == 39 then (if c == 39 then doubled else some ([], c ∷ bs)) else plain

-- The run of digits at the front, as a number, with its length.
unfoldable pub digits : ℕ → ℕ → Bytes → ℕ × ℕ
digits value len [] = (value, len)
digits value len (b ∷ bs) =
    let more = digits (10 * value + (b - 48)) (len + 1) bs in
    if is_digit b then more else (value, len)

-- What is read at one position: a token or white space, and how many bytes it takes.
abbrev pub Step : Type 0
Step = Result LexError (Option Token × ℕ)

abbrev pub lex_comparator : ℕ → ℕ → Option (Token × ℕ) → Step
lex_comparator c start none = err (unexpected_char c start)
lex_comparator c start (some (tok, len)) = ok (some tok, len)

abbrev pub lex_string : ℕ → Bytes → Option (Bytes × Bytes) → Step
lex_string start after none = err (unterminated_string start)
lex_string start after (some (s, rest)) = ok (some (Token.str s), 1 + (length after - length rest))

abbrev pub lex_integer : ℕ → ℕ × ℕ → Step
lex_integer start (value, len) =
    if ltb value (2 ^ 63)
    then ok (some (Token.integer (pos value)), len)
    else err (integer_out_of_range start)

abbrev pub lex_symbol : Option Token → Step → Step
lex_symbol (some tok) other = ok (some tok, 1)
lex_symbol none other = other

abbrev pub lex_word : Bytes → ℕ → Step
lex_word bs len = ok (some (Token.word (take len bs)), len)

module _ (chars : CharClass) where
  abbrev pub is_word_char : ℕ → Bool
  is_word_char c = chars.is_alphanumeric c || c == 95

  -- The length of the run of word characters at the front; `fuel` bounds its characters.
  unfoldable pub word_len : ℕ → Bytes → ℕ
  word_len zero bs = 0
  word_len (suc fuel) [] = 0
  word_len (suc fuel) (b ∷ bs) =
      let more = char_len b + word_len fuel (drop (char_len b) (b ∷ bs)) in
      if is_word_char (code_point b bs) then more else 0

  -- The arms of the `match` behind those of white space and of single symbols, at a character `c`.
  unfoldable pub lex_other : ℕ → ℕ → Bytes → ℕ → Step
  unfolding comparator string_body digits word_len
  lex_other start b bs c =
      if c == 60 || c == 62 || c == 33
      then lex_comparator c start (comparator c (peek bs))
      else if c == 39
      then lex_string start bs (string_body bs)
      else if is_digit c
      then lex_integer start (digits 0 0 (b ∷ bs))
      else if chars.is_alphabetic c || c == 95
      then lex_word (b ∷ bs) (word_len (length (b ∷ bs)) (b ∷ bs))
      else err (unexpected_char c start)

  unfoldable pub lex_step : ℕ → ℕ → Bytes → Step
  unfolding symbol lex_other char_len code_point
  lex_step start b bs =
      let c = code_point b bs in
      if chars.is_whitespace c
      then ok (none, char_len b)
      else lex_symbol (symbol c) (lex_other start b bs c)

  abbrev pub emit : Option Token → ℕ → List (Token × ℕ) → List (Token × ℕ)
  emit none start out = out
  emit (some tok) start out = (tok, start) ∷ out

  -- The loop from byte `start` on. Every round takes at least one byte; to be out of fuel is to panic.
  unfoldable pub lex_from : ℕ → ℕ → Bytes → Result LexError (List (Token × ℕ))
  unfolding lex_step
  lex_from zero start [] = ok []
  lex_from zero start (b ∷ bs) = panic
  lex_from (suc fuel) start [] = ok []
  lex_from (suc fuel) start (b ∷ bs) = do
    (tok, len) ← lex_step start b bs
    out ← lex_from fuel (start + len) (drop len (b ∷ bs))
    ok (emit tok start out)

  unfoldable pub lex : Bytes → Result LexError (List (Token × ℕ))
  unfolding lex_from
  lex input = lex_from (length input) 0 input
