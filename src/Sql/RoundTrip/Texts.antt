-- ===== src/Sql/RoundTrip/Texts.antt =====
-- The text of an expression is lexed to its tokens.
use choam.Base.{
  ℕ, suc, ◌+◌, ◌<◌, ◌≡◌, ◌≢◌, refl, Bool, true, ◌&&◌, and_true, [], ◌∷◌, ◌++◌, Bytes, length, arith,
  utf8,
}
use choam.Sql.Ast.{BinaryOp}
use choam.Sql.Token.{Token}
use choam.Sql.Display.{display_op}
use choam.Sql.Lexer.{
  CharClass, char_len, code_point, symbol, comparator, peek, is_word_char, word_len,
}
use choam.Sql.Parser.{Tokens}
use choam.Sql.RoundTrip.{op_token}
use choam.Sql.RoundTrip.Levels.{word_at}
use choam.Sql.RoundTrip.Steps.{
  Stops, is_letter, DocumentedClasses, Lexed, symbol-Lexed, comparator-Lexed, code_point_low,
}
use choam.Sql.RoundTrip.Names.{IsWord, word-Lexed}

abbrev pub are_letters : Bytes → Bool
are_letters [] = true
are_letters (b ∷ bs) = is_letter b && are_letters bs

letter_len : (b : ℕ) → is_letter b ≡ true → char_len b ≡ 1
unfolding char_len
letter_len b h = ground arith

letter_low : (b : ℕ) → is_letter b ≡ true → b < 128
letter_low b h = ground arith

pub Stops-no_quote : (tail : Bytes) → Stops tail → peek tail ≢ 39
Stops-no_quote [] h e = absurd (omega (arith, e))
Stops-no_quote (b ∷ bs) h e = ground arith

module _ (chars : CharClass) (documented : DocumentedClasses chars) where
  letter_word_char :
      (b : ℕ) (bs : Bytes) → is_letter b ≡ true → is_word_char chars (code_point b bs) ≡ true
  letter_word_char b bs h =
      let low = letter_low b h in
      rw (code_point_low b bs low, documented.ascii_word_chars b low, h) refl

  letters_len : (w : Bytes) → are_letters w ≡ true → word_len chars (length w) w ≡ length w
  unfolding word_len
  letters_len [] h = refl
  letters_len (b ∷ bs) h =
      let (first, others) = and_true (is_letter b) (are_letters bs) h in
      let size : 1 + length bs ≡ suc (length bs) = omega arith in
      rw (letter_word_char b bs first, letter_len b first, letters_len bs others) size

  -- A keyword is a word.
  letters-IsWord :
      (b : ℕ) (bs : Bytes) → are_letters (b ∷ bs) ≡ true → IsWord chars documented (b ∷ bs)
  letters-IsWord b bs h =
      let first = (and_true (is_letter b) (are_letters bs) h).0 in
      let low = letter_low b first in
      (
        rw (code_point_low b bs low, documented.ascii_letters b low, first) refl,
        letters_len (b ∷ bs) h,
      )

  abbrev pub At : ℕ → Bytes → Tokens → Type 0
  At = Lexed chars documented

  pub moved : (a b : ℕ) (bs : Bytes) (out : Tokens) → a ≡ b → At a bs out → At b bs out
  moved a b bs out h later = rw (← h) later

  pub open_paren :
      (start : ℕ) (bs : Bytes) (out : Tokens)
      → At (start + 1) bs out
      → At start (40 ∷ bs) ((Token.l_paren, start) ∷ out)
  unfolding symbol
  open_paren start bs out =
      symbol-Lexed chars documented start 40 bs Token.l_paren out (omega arith) (omega arith) refl

  pub close_paren :
      (start : ℕ) (bs : Bytes) (out : Tokens)
      → At (start + 1) bs out
      → At start (41 ∷ bs) ((Token.r_paren, start) ∷ out)
  unfolding symbol
  close_paren start bs out =
      symbol-Lexed chars documented start 41 bs Token.r_paren out (omega arith) (omega arith) refl

  pub minus :
      (start : ℕ) (bs : Bytes) (out : Tokens)
      → At (start + 1) bs out
      → At start (45 ∷ bs) ((Token.minus, start) ∷ out)
  unfolding symbol
  minus start bs out =
      symbol-Lexed chars documented start 45 bs Token.minus out (omega arith) (omega arith) refl

  pub spaced_word :
      (start b : ℕ) (w tail : Bytes) (out : Tokens)
      → are_letters (b ∷ w) ≡ true
      → Stops tail
      → At (start + suc (length w)) tail out
      → At start (b ∷ (w ++ tail)) (word_at (b ∷ w) start ∷ out)
  spaced_word start b w tail out h stops later =
      word-Lexed chars documented start (b ∷ w) tail out (letters-IsWord b w h) stops later

  pub op_lexed :
      (start : ℕ) (op : BinaryOp) (bs : Bytes) (out : Tokens)
      → At (start + length (display_op op)) (32 ∷ bs) out
      → At start (display_op op ++ 32 ∷ bs) ((op_token op, start) ∷ out)
  unfolding symbol comparator display_op op_token utf8
  op_lexed start BinaryOp.add bs out =
      symbol-Lexed chars documented start 43 (32 ∷ bs) Token.plus out (omega arith) (omega arith)
        refl
  op_lexed start BinaryOp.sub bs out = minus start (32 ∷ bs) out
  op_lexed start BinaryOp.mul bs out =
      symbol-Lexed chars documented start 42 (32 ∷ bs) Token.star out (omega arith) (omega arith)
        refl
  op_lexed start BinaryOp.div bs out =
      symbol-Lexed chars documented start 47 (32 ∷ bs) Token.slash out (omega arith) (omega arith)
        refl
  op_lexed start BinaryOp.eq bs out =
      symbol-Lexed chars documented start 61 (32 ∷ bs) Token.eq out (omega arith) (omega arith) refl
  op_lexed start BinaryOp.ne bs out =
      comparator-Lexed chars documented start 60 (62 ∷ 32 ∷ bs) Token.ne 2 out refl (omega arith)
        (omega arith) refl refl (omega arith)
  op_lexed start BinaryOp.lt bs out =
      comparator-Lexed chars documented start 60 (32 ∷ bs) Token.lt 1 out refl (omega arith)
        (omega arith) refl refl (omega arith)
  op_lexed start BinaryOp.le bs out =
      comparator-Lexed chars documented start 60 (61 ∷ 32 ∷ bs) Token.le 2 out refl (omega arith)
        (omega arith) refl refl (omega arith)
  op_lexed start BinaryOp.gt bs out =
      comparator-Lexed chars documented start 62 (32 ∷ bs) Token.gt 1 out refl (omega arith)
        (omega arith) refl refl (omega arith)
  op_lexed start BinaryOp.ge bs out =
      comparator-Lexed chars documented start 62 (61 ∷ 32 ∷ bs) Token.ge 2 out refl (omega arith)
        (omega arith) refl refl (omega arith)
  op_lexed start BinaryOp.and_op bs out =
      spaced_word start 65 (78 ∷ 68 ∷ []) (32 ∷ bs) out refl refl
  op_lexed start BinaryOp.or_op bs out = spaced_word start 79 (82 ∷ []) (32 ∷ bs) out refl refl
