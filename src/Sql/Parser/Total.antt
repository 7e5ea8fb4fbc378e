-- ===== src/Sql/Parser/Total.antt =====
-- The parser always answers: its loops end within their fuel, and each part leaves fewer tokens.
pub mod Levels
pub mod Statements
pub mod Script
use choam.Base.{
  ℕ, zero, suc, ◌≤◌, ◌<◌, ◌≡◌, ◌≢◌, refl, Bool, true, false, Option, none, some, List, [], ◌∷◌,
  Bytes, Result, ok, err, panic, ◌>>=◌, map_err, length, arith, Bool-cases, inl, inr, if◌then◌else◌,
  utf8, Option-cases,
}
use choam.Base.Done.{Done, Done-bind, Done-weaken, Done-if}
use choam.Sql.Ast.{Expr, BinaryOp, UnaryOp}
use choam.Sql.Token.{Token, ParseError}
use choam.Sql.Parser.{
  Tokens, Parse, tail, unexpected, is_next, expect, at_keyword, expect_keyword, ident, comma_list,
  ident_list,
}
use choam.Sql.Parser.Expr

-- What is left has fewer than `n` tokens.
abbrev pub Fewer : {A : Type 0} → ℕ → A × Tokens → Type 0
Fewer n (a, rest) = length rest < n

abbrev pub Short : ℕ → Tokens → Type 0
Short n rest = length rest < n

pub tail-Short : (ts : Tokens) → Short (suc (length ts)) (tail ts)
tail-Short [] = omega arith
tail-Short (t ∷ ts) = omega arith

pub is_next-Short :
    (want : Token) (ts : Tokens) → is_next want ts ≡ true → Short (length ts) (tail ts)
unfolding is_next
is_next-Short want [] h = cc
is_next-Short want (t ∷ ts) h = omega arith

pub at_keyword-Short :
    (kw : Bytes) (ts : Tokens) → at_keyword kw ts ≡ true → Short (length ts) (tail ts)
unfolding at_keyword
at_keyword-Short kw [] h = cc
at_keyword-Short kw (t ∷ ts) h = omega arith

pub expect-Done :
    (want : Token) (what : Bytes) (ts : Tokens) → Done (Short (length ts)) (expect want what ts)
unfolding expect
expect-Done want what ts =
    Done-if (Short (length ts)) (is_next want ts) (ok (tail ts)) (err (unexpected what ts))
      (is_next-Short want ts) (λ h. tt)

pub expect_keyword-Done :
    (kw : Bytes) (ts : Tokens) → Done (Short (length ts)) (expect_keyword kw ts)
unfolding expect_keyword
expect_keyword-Done kw ts =
    Done-if (Short (length ts)) (at_keyword kw ts) (ok (tail ts)) (err (unexpected kw ts))
      (at_keyword-Short kw ts) (λ h. tt)

pub ident-Done : (what : Bytes) (ts : Tokens) → Done (Fewer (length ts)) (ident what ts)
unfolding ident
ident-Done what [] = tt
ident-Done what ((Token.word w, start) ∷ ts) =
    Done-if (Fewer (suc (length ts))) _ (err _) (ok (w, ts)) (λ h. tt) (λ h. omega arith)
ident-Done what ((t, start) ∷ ts) = tt

-- A list with more fuel than tokens.
pub comma_list-Done :
    {A : Type 0} (item : Tokens → Parse A)
    → ((ts : Tokens) → Done (Fewer (length ts)) (item ts))
    → (fuel : ℕ) (ts : Tokens) → length ts < fuel
    → Done (Fewer (length ts)) (comma_list item fuel ts)
unfolding comma_list
comma_list-Done item reads zero ts h = absurd (omega arith)
comma_list-Done item reads (suc fuel) ts h =
    Done-bind (Fewer (length ts)) (Fewer (length ts)) (item ts) _ (reads ts) λ p fewer.
      Done-if (Fewer (length ts)) (is_next Token.comma p.1) _ _
        (λ more.
          let shorter = is_next-Short Token.comma p.1 more in
          Done-bind (Fewer (length (tail p.1))) (Fewer (length ts))
            (comma_list item fuel (tail p.1)) _
            (comma_list-Done item reads fuel (tail p.1) (omega arith)) (λ q left. omega arith))
        (λ last. fewer)

pub ident_list-Done : (what : Bytes) (ts : Tokens) → Done (Fewer (length ts)) (ident_list what ts)
unfolding ident_list
ident_list-Done what ts =
    comma_list-Done (ident what) (ident-Done what) (suc (length ts)) ts (omega arith)
