-- ===== src/Sql/RoundTrip/Pieces.antt =====
-- A piece of a statement is read back from its text, whatever follows it.
use choam.Base.{
  ℕ, zero, suc, ◌+◌, ◌<◌, ◌≡◌, refl, false, List, [], ◌∷◌, ◌++◌, Bytes, ok, length, arith,
  append_assoc, length-append, All, utf8,
}
use mathlib.Core.List.{map, map-id}
use choam.Base.Done.{Done}
use choam.Sql.Ast.{Expr}
use choam.Sql.Token.{Token}
use choam.Sql.Keyword.{is_keyword}
use choam.Sql.Display.{display_expr, join}
use choam.Sql.Lexer.{CharClass, symbol}
use choam.Sql.Parser.{Tokens, Parse, is_next, ident, comma_list, ident_list}
use choam.Sql.Parser.Expr.{expression}
use choam.Sql.Parser.Total.{Fewer, ident-Done}
use choam.Sql.RoundTrip.{expr_tokens, IsParsed}
use choam.Sql.RoundTrip.Levels.{NoOr}
use choam.Sql.RoundTrip.Steps.{Stops, DocumentedClasses, Lexed, space-Lexed, symbol-Lexed}
use choam.Sql.RoundTrip.Names.{IsWord, word-Lexed}
use choam.Sql.RoundTrip.Texts.{moved}
use choam.Sql.RoundTrip.Exprs.{expression-expr_tokens}
use choam.Sql.RoundTrip.Lexed.{HasWords, display_expr-Lexed}

abbrev pub OneOrMore : {A : Type 0} → (A → Type 0) → List A → Type 0
OneOrMore Good [] = ⊥
OneOrMore Good (x ∷ xs) = Good x × All Good xs

-- What may follow a piece that always ends where it ends.
abbrev pub Anything : Tokens → Type 0
Anything out = Unit

module _ (chars : CharClass) (documented : DocumentedClasses chars) where
  -- The text is lexed to tokens that `p` reads as `x`, in front of any text that ends the last word
  -- and any tokens that `p` does not go on with.
  abbrev pub ReadBack : {A : Type 0} → (Tokens → Parse A) → (Tokens → Type 0) → Bytes → A → Type 0
  ReadBack p Fine text x =
      (start : ℕ) (tail : Bytes) (out : Tokens)
      → Stops tail
      → Fine out
      → Lexed chars documented (start + length text) tail out
      → (ts : Tokens) × Lexed chars documented start (text ++ tail) ts × (p ts ≡ ok (x, out))

  abbrev pub IsName : Bytes → Type 0
  IsName w = IsWord chars documented w × (is_keyword w ≡ false)

  pub ident-ReadBack : (what w : Bytes) → IsName w → ReadBack (ident what) Anything w w
  unfolding ident
  ident-ReadBack what w (word, free) start tail out stops fine later = (
    (Token.word w, start) ∷ out,
    word-Lexed chars documented start w tail out word stops later,
    rw free,
  )

  abbrev pub IsExpr : Expr → Type 0
  IsExpr e = IsParsed e × HasWords chars documented e

  pub expression-ReadBack : (e : Expr) → IsExpr e → ReadBack expression NoOr (display_expr e) e
  expression-ReadBack e (parsed, words) start tail out stops fine later = (
    expr_tokens start e out,
    display_expr-Lexed chars documented start e tail out parsed words stops later,
    expression-expr_tokens start e out parsed fine,
  )

  comma-Lexed :
      (at : ℕ) (bs : Bytes) (out : Tokens)
      → Lexed chars documented (at + 2) bs out
      → Lexed chars documented at (44 ∷ 32 ∷ bs) ((Token.comma, at) ∷ out)
  unfolding symbol
  comma-Lexed at bs out later =
      symbol-Lexed chars documented at 44 (32 ∷ bs) Token.comma out (omega arith) (omega arith) refl
        (space-Lexed chars documented (at + 1) bs out
          (moved chars documented (at + 2) (at + 1 + 1) bs out (omega arith) later))

  module _ {A : Type 0} (p : Tokens → Parse A) (Fine : Tokens → Type 0) (text : A → Bytes) where
    abbrev pub AllReadBack : List A → Type 0
    AllReadBack [] = Unit
    AllReadBack (x ∷ xs) = ReadBack p Fine (text x) x × AllReadBack xs

    abbrev pub EndsList : Tokens → Type 0
    EndsList out = Fine out × (is_next Token.comma out ≡ false)

    one_item :
        (fuel : ℕ) (x : A) (ts out : Tokens)
        → p ts ≡ ok (x, out)
        → is_next Token.comma out ≡ false
        → comma_list p (suc fuel) ts ≡ ok (x ∷ [], out)
    unfolding comma_list
    one_item fuel x ts out read ends = rw (read, ends)

    next_item :
        (fuel at : ℕ) (x : A) (xs : List A) (ts after out : Tokens)
        → p ts ≡ ok (x, (Token.comma, at) ∷ after)
        → comma_list p fuel after ≡ ok (xs, out)
        → comma_list p (suc fuel) ts ≡ ok (x ∷ xs, out)
    unfolding comma_list is_next
    next_item fuel at x xs ts after out read more = rw (read, more)

    -- One or more items, with commas between them.
    abbrev pub ItemsReadBack : List A → Type 0
    ItemsReadBack xs =
        (start : ℕ) (tail : Bytes) (out : Tokens)
        → Stops tail
        → EndsList out
        → Lexed chars documented (start + length (join (map text xs))) tail out
        → (ts : Tokens) × Lexed chars documented start (join (map text xs) ++ tail) ts
          × ((fuel : ℕ) → length ts < fuel → comma_list p fuel ts ≡ ok (xs, out))

    last_read : (x : A) → ReadBack p Fine (text x) x → ItemsReadBack (x ∷ [])
    unfolding join
    last_read x item start tail out stops (fine, ends) later =
        let (ts, lexed, read) = item start tail out stops fine later in
        (ts, lexed, λ fuel enough. with_fuel fuel ts enough read)
      where
        with_fuel :
            (fuel : ℕ) (ts : Tokens)
            → length ts < fuel
            → p ts ≡ ok (x, out)
            → comma_list p fuel ts ≡ ok (x ∷ [], out)
        with_fuel zero ts h read = absurd (omega arith)
        with_fuel (suc fuel) ts h read = one_item fuel x ts out read ends

    module _ (comma_fine : (at : ℕ) (ts : Tokens) → Fine ((Token.comma, at) ∷ ts))
        (takes : (ts : Tokens) → Done (Fewer (length ts)) (p ts)) where
      fewer : (x : A) (ts out : Tokens) → p ts ≡ ok (x, out) → length out < length ts
      fewer x ts out read = rw read at (takes ts)

      comma_read :
          (x y : A) (xs : List A)
          → ReadBack p Fine (text x) x
          → ItemsReadBack (y ∷ xs)
          → ItemsReadBack (x ∷ y ∷ xs)
      unfolding join utf8
      comma_read x y xs item items start tail out stops ends later =
          let others = join (map text (y ∷ xs)) in
          let at : ℕ = start + length (text x) in
          let size : start + length (join (map text (x ∷ y ∷ xs))) ≡ at + 2 + length others =
            omega (arith, length-append (text x) (44 ∷ 32 ∷ others)) in
          let (ts', lexed', read') =
            items (at + 2) tail out stops ends (moved chars documented _ _ tail out size later) in
          let comma : Lexed chars documented at (44 ∷ 32 ∷ (others ++ tail))
              ((Token.comma, at) ∷ ts') =
            comma-Lexed at (others ++ tail) ts' lexed' in
          let (ts, lexed, read) =
            item start (44 ∷ 32 ∷ (others ++ tail)) ((Token.comma, at) ∷ ts') refl
              (comma_fine at ts') comma in
          (
            ts,
            rw (append_assoc (text x) (44 ∷ 32 ∷ others) tail) lexed,
            λ fuel enough. with_fuel fuel at ts ts' enough read read',
          )
        where
          with_fuel :
              (fuel at : ℕ) (ts after : Tokens)
              → length ts < fuel
              → p ts ≡ ok (x, (Token.comma, at) ∷ after)
              → ((fuel : ℕ) → length after < fuel → comma_list p fuel after ≡ ok (y ∷ xs, out))
              → comma_list p fuel ts ≡ ok (x ∷ y ∷ xs, out)
          with_fuel zero at ts after h read more = absurd (omega arith)
          with_fuel (suc fuel) at ts after h read more =
              next_item fuel at x (y ∷ xs) ts after out read
                (more fuel (omega (arith, fewer x ts ((Token.comma, at) ∷ after) read)))

      pub items_read : (x : A) (xs : List A) → AllReadBack (x ∷ xs) → ItemsReadBack (x ∷ xs)
      items_read x [] (item, items) = last_read x item
      items_read x (y ∷ xs) (item, items) = comma_read x y xs item (items_read y xs items)

      every-ReadBack :
          (Good : A → Type 0)
          → ((x : A) → Good x → ReadBack p Fine (text x) x)
          → (xs : List A) → All Good xs
          → AllReadBack xs
      every-ReadBack Good each [] h = tt
      every-ReadBack Good each (x ∷ xs) (good, others) =
          (each x good, every-ReadBack Good each xs others)

      -- The list parser reads a printed list back, if its item parser reads each item back.
      pub listed :
          (Good : A → Type 0)
          → ((x : A) → Good x → ReadBack p Fine (text x) x)
          → (xs : List A) → OneOrMore Good xs
          → ReadBack (λ ts. comma_list p (suc (length ts)) ts) EndsList (join (map text xs)) xs
      listed Good each [] h start tail out stops fine later = absurd h
      listed Good each (x ∷ xs) (good, others) start tail out stops fine later =
          let (ts, lexed, read) =
            items_read x xs (each x good, every-ReadBack Good each xs others) start tail out stops
              fine later in
          (ts, lexed, read (suc (length ts)) (omega arith))

  pub ident_list-ReadBack :
      (what : Bytes) (names : List Bytes)
      → OneOrMore IsName names
      → ReadBack (ident_list what) (λ out. is_next Token.comma out ≡ false) (join names) names
  unfolding ident_list
  ident_list-ReadBack what names h start tail out stops fine later =
      let all : ReadBack (λ ts. comma_list (ident what) (suc (length ts)) ts)
          (EndsList (ident what) Anything (λ w. w)) (join (map (λ (w : Bytes). w) names)) names =
        listed (ident what) Anything (λ w. w) (λ at ts. tt) (ident-Done what) IsName
          (λ w. ident-ReadBack what w) names h in
      let same : ReadBack (λ ts. comma_list (ident what) (suc (length ts)) ts)
          (EndsList (ident what) Anything (λ w. w)) (join names) names =
        rw (map-id names) at all in
      same start tail out stops (tt, fine) later
