-- ===== src/Sql/Parser.antt =====
-- crates/sql/src/parser.rs: the parser's view of the tokens that are left, and its small steps. A
-- step that may take tokens returns those that are left.
pub mod Expr
pub mod Statement
pub mod Script
pub mod Total
use choam.Base.{
  ℕ, zero, suc, Bool, true, false, ◌&&◌, List, [], ◌∷◌, Bytes, Result, ok, err, panic, ◌>>=◌,
  length, ◌==◌, if◌then◌else◌,
}
use choam.Sql.Token.{Token, ParseError, Found, unexpected_end}
use choam.Sql.Keyword.{eq_ignore_ascii_case, is_keyword}

abbrev pub Tokens : Type 0
Tokens = List (Token × ℕ)

abbrev pub Parse : Type 0 → Type 0
Parse A = Result ParseError (A × Tokens)

abbrev pub tail : Tokens → Tokens
tail [] = []
tail (t ∷ ts) = ts

unfoldable pub unexpected : Bytes → Tokens → ParseError
unexpected expected [] = unexpected_end expected
unexpected expected ((t, start) ∷ ts) = ParseError.unexpected (Found.token t) expected start

-- The tokens without contents that `eat` is called with, told apart.
abbrev pub kind : Token → ℕ
kind Token.l_paren = 1
kind Token.r_paren = 2
kind Token.comma = 3
kind Token.semicolon = 4
kind Token.star = 5
kind Token.minus = 6
kind Token.eq = 7
kind _ = 0

-- Would `eat` take the next token? `want` has no contents.
unfoldable pub is_next : Token → Tokens → Bool
is_next want [] = false
is_next want ((t, start) ∷ ts) = kind t == kind want

unfoldable pub expect : Token → Bytes → Tokens → Result ParseError Tokens
unfolding is_next unexpected
expect want what ts = if is_next want ts then ok (tail ts) else err (unexpected what ts)

unfoldable pub at_keyword : Bytes → Tokens → Bool
at_keyword kw ((Token.word w, start) ∷ ts) = eq_ignore_ascii_case w kw
at_keyword kw _ = false

unfoldable pub expect_keyword : Bytes → Tokens → Result ParseError Tokens
unfolding at_keyword unexpected
expect_keyword kw ts = if at_keyword kw ts then ok (tail ts) else err (unexpected kw ts)

unfoldable pub ident : Bytes → Tokens → Parse Bytes
unfolding unexpected
ident what ((Token.word w, start) ∷ ts) =
    if is_keyword w then err (unexpected what ((Token.word w, start) ∷ ts)) else ok (w, ts)
ident what ts = err (unexpected what ts)

-- One item, and another after each comma; `fuel` bounds how many.
unfoldable pub comma_list : {A : Type 0} → (Tokens → Parse A) → ℕ → Tokens → Parse (List A)
unfolding is_next
comma_list item zero ts = panic
comma_list item (suc fuel) ts = do
  (a, left) ← item ts
  let more = do (as₁, after) ← comma_list item fuel (tail left); ok (a ∷ as₁, after)
  if is_next Token.comma left then more else ok (a ∷ [], left)

unfoldable pub ident_list : Bytes → Tokens → Parse (List Bytes)
unfolding comma_list ident
ident_list what ts = comma_list (ident what) (suc (length ts)) ts
