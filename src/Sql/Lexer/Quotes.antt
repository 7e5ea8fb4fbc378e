-- ===== src/Sql/Lexer/Quotes.antt =====
-- Quotes in string literals.
use choam.Base.{
  ◌≡◌, ◌≢◌, refl, some, [], ◌∷◌, ◌++◌, Bytes, arith, ◌==◌, ==_iff, Bool-cases, inl, inr, false, ℕ,
  zero, suc, ◌+◌, length, drop, ok, ◌>>=◌, ◌-◌, ap,
}
use choam.Sql.Ast.{Literal}
use choam.Sql.Token.{Token}
use choam.Sql.Display.{double_quotes, display_literal}
use choam.Sql.Lexer.{
  CharClass, string_body, peek, lex, lex_from, lex_step, lex_other, code_point, symbol,
}

string_body_plain :
    (b : ℕ) (bs s rest : Bytes)
    → (b == 39) ≡ false
    → string_body bs ≡ some (s, rest)
    → string_body (b ∷ bs) ≡ some (b ∷ s, rest)
unfolding string_body
string_body_plain b [] s rest h e = cc
string_body_plain b (c ∷ bs) s rest h e = rw (h, e)

string_body_doubled :
    (bs s rest : Bytes)
    → string_body bs ≡ some (s, rest)
    → string_body (39 ∷ 39 ∷ bs) ≡ some (39 ∷ s, rest)
unfolding string_body
string_body_doubled bs s rest e = rw e

string_body_end : (rest : Bytes) → peek rest ≢ 39 → string_body (39 ∷ rest) ≡ some ([], rest)
unfolding string_body
string_body_end [] n = refl
string_body_end (c ∷ rest) n = ground arith

-- What `Display` writes between quotes is read back, if no further quote follows the closing one.
pub string_body-double_quotes :
    (s rest : Bytes) → peek rest ≢ 39 → string_body (double_quotes s ++ 39 ∷ rest) ≡ some (s, rest)
unfolding double_quotes
string_body-double_quotes [] rest n = string_body_end rest n
string_body-double_quotes (b ∷ s) rest n = elim (Bool-cases (b == 39)) [
  | inl q ↦
      let e : b ≡ 39 = (==_iff b 39).0 q in
      let ih = string_body-double_quotes s rest n in
      rw e (string_body_doubled (double_quotes s ++ 39 ∷ rest) s rest ih)
  | inr p ↦
      let ih = string_body-double_quotes s rest n in
      rw p (string_body_plain b (double_quotes s ++ 39 ∷ rest) s rest p ih)
]

module _ (chars : CharClass) where
  lex_from_end : (fuel start : ℕ) → lex_from chars fuel start [] ≡ ok []
  unfolding lex_from
  lex_from_end zero start = refl
  lex_from_end (suc fuel) start = refl

  quote_step :
      (s : Bytes)
      → chars.is_whitespace 39 ≡ false
      → lex_step chars 0 39 (double_quotes s ++ 39 ∷ [])
        ≡ ok (some (Token.str s), suc (length (double_quotes s ++ 39 ∷ [])))
  unfolding lex_step lex_other code_point symbol
  quote_step s h =
      let body = double_quotes s ++ 39 ∷ [] in
      let n : 1 + (length body - 0) ≡ suc (length body) = omega arith in
      rw (h, string_body-double_quotes s [] (λ e. ground arith))
        (ap (λ k. ok (some (Token.str s), k)) n)

  drop_all : (bs : Bytes) → drop (length bs) bs ≡ []
  drop_all [] = refl
  drop_all (b ∷ bs) = drop_all bs

  after_quote :
      (bs : Bytes) (start : ℕ) (t : Token)
      → (lex_from chars (length bs) start (drop (length bs) bs) >>= λ out. ok ((t, 0) ∷ out))
        ≡ ok ((t, 0) ∷ [])
  after_quote bs start t = rw (drop_all bs, lex_from_end (length bs) start)

  -- The text of a string literal, quotes doubled, is lexed to one string token at byte 0 with the
  -- string's contents, for every string; the quote character must not count as white space.
  pub lex-display_literal :
      (s : Bytes)
      → chars.is_whitespace 39 ≡ false
      → lex chars (display_literal (Literal.text s)) ≡ ok ((Token.str s, 0) ∷ [])
  unfolding lex lex_from display_literal
  lex-display_literal s h =
      let body = double_quotes s ++ 39 ∷ [] in
      rw (quote_step s h) (after_quote body (0 + suc (length body)) (Token.str s))
