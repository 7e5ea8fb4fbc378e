-- ===== src/Sql/RoundTrip/Creates.antt =====
-- CREATE TABLE is read back.
use choam.Base.{
  ℕ, suc, ◌+◌, ◌≡◌, refl, ◌∙◌, Bool, true, false, List, [], ◌∷◌, ◌++◌, Bytes, ok, length, arith,
  append_assoc, length-append, utf8,
}
use mathlib.Core.List.{map}
use choam.Row.Value.{ColumnType}
use choam.Sql.Ast.{ColumnSpec, Statement}
use choam.Sql.Token.{Token}
use choam.Sql.Keyword.{eq_ignore_ascii_case}
use choam.Sql.Display.{display, display_column, type_name, text_if, join}
use choam.Sql.Lexer.{CharClass}
use choam.Sql.Parser.{Tokens, is_next, at_keyword, expect_keyword, expect, ident, comma_list}
use choam.Sql.Parser.Statement.{statement, column_type, constraints, column_spec, create_table}
use choam.Sql.Parser.Total.Statements.{column_spec-Done}
use choam.Sql.RoundTrip.Levels.{word_at}
use choam.Sql.RoundTrip.Steps.{Stops, DocumentedClasses, space-Lexed}
use choam.Sql.RoundTrip.Texts.{moved, open_paren, spaced_word}
use choam.Sql.RoundTrip.Lexed.{keyword, closed}
use choam.Sql.RoundTrip.Pieces.{ReadBack, Anything, IsName, ident-ReadBack, OneOrMore, listed}
use choam.Sql.RoundTrip.Clauses.{bind_ok, Place}

-- No constraint of a column comes next.
abbrev NoConstraint : Tokens → Type 0
NoConstraint ts = (at_keyword (utf8 "PRIMARY") ts ≡ false) × (at_keyword (utf8 "NOT") ts ≡ false)

comma-NoConstraint : (at : ℕ) (ts : Tokens) → NoConstraint ((Token.comma, at) ∷ ts)
unfolding at_keyword
comma-NoConstraint at ts = (refl, refl)

close-NoConstraint : (at : ℕ) (ts : Tokens) → NoConstraint ((Token.r_paren, at) ∷ ts)
unfolding at_keyword
close-NoConstraint at ts = (refl, refl)

close-no_comma : (at : ℕ) (ts : Tokens) → is_next Token.comma ((Token.r_paren, at) ∷ ts) ≡ false
unfolding is_next
close-no_comma at ts = refl

type_read :
    (start : ℕ) (ty : ColumnType) (ts : Tokens)
    → column_type (word_at (type_name ty) start ∷ ts) ≡ ok (ty, ts)
unfolding column_type type_name at_keyword eq_ignore_ascii_case utf8
type_read start ColumnType.integer ts = refl
type_read start ColumnType.text ts = refl
type_read start ColumnType.bytes ts = refl
type_read start ColumnType.boolean ts = refl

-- The tokens of a column's constraints.
abbrev key_tokens : ℕ → Bool → Tokens → Tokens
key_tokens start false out = out
key_tokens start true out =
    word_at (utf8 "PRIMARY") (start + 1) ∷ word_at (utf8 "KEY") (start + 9) ∷ out

abbrev null_words : ℕ → Bool → Tokens → Tokens
null_words start false out = out
null_words start true out =
    word_at (utf8 "NOT") (start + 1) ∷ word_at (utf8 "NULL") (start + 5) ∷ out

abbrev flag_tokens : ℕ → Bool → Bool → Tokens → Tokens
flag_tokens start primary_key not_null out =
    key_tokens start primary_key
      (null_words (start + length (text_if primary_key (utf8 " PRIMARY KEY"))) not_null out)

flags_read :
    (start : ℕ) (primary_key not_null : Bool) (out : Tokens)
    → NoConstraint out
    → constraints
        (suc (length (flag_tokens start primary_key not_null out)))
        false
        false
        (flag_tokens start primary_key not_null out)
      ≡ ok ((primary_key, not_null), out)
unfolding constraints at_keyword expect_keyword eq_ignore_ascii_case utf8
flags_read start false false out (no_key, no_null) = rw (no_key, no_null)
flags_read start false true out (no_key, no_null) = rw (no_key, no_null)
flags_read start true false out (no_key, no_null) = rw (no_key, no_null)
flags_read start true true out (no_key, no_null) = rw (no_key, no_null)

column_read :
    (at start : ℕ) (name : Bytes) (ty : ColumnType) (primary_key not_null : Bool) (ts out : Tokens)
    → NoConstraint out
    → ident (utf8 "column name") ts
      ≡ ok (name, word_at (type_name ty) at ∷ flag_tokens start primary_key not_null out)
    → column_spec ts
      ≡ ok (record { name = name; ty = ty; primary_key = primary_key; not_null = not_null }, out)
unfolding column_spec
column_read at start name ty primary_key not_null ts out fine named =
    bind_ok _ named
    ∙ bind_ok _ (type_read at ty (flag_tokens start primary_key not_null out))
    ∙ bind_ok _ (flags_read start primary_key not_null out fine)

create_read :
    (start at opening close : ℕ) (name : Bytes) (columns : List ColumnSpec) (ts after out : Tokens)
    → ident (utf8 "table name") ts ≡ ok (name, (Token.l_paren, opening) ∷ after)
    → comma_list column_spec (suc (length after)) after ≡ ok (columns, (Token.r_paren, close) ∷ out)
    → statement (word_at (utf8 "CREATE") start ∷ word_at (utf8 "TABLE") at ∷ ts)
      ≡ ok (Statement.create_table name columns, out)
unfolding statement create_table expect_keyword expect is_next at_keyword eq_ignore_ascii_case utf8
create_read start at opening close name columns ts after out named listed_as =
    bind_ok _ named ∙ bind_ok _ listed_as

column_text :
    (name T K N tail : Bytes)
    → ((name ++ (utf8 " " ++ (T ++ (K ++ N)))) ++ tail) ≡ name ++ 32 ∷ (T ++ (K ++ (N ++ tail)))
unfolding utf8
column_text name T K N tail = simp append_assoc

column_length :
    (name T K N : Bytes)
    → length (name ++ (utf8 " " ++ (T ++ (K ++ N))))
      ≡ length name + 1 + length T + length K + length N
unfolding utf8
column_length name T K N =
    omega (
      arith,
      length-append name (32 ∷ (T ++ (K ++ N))),
      length-append T (K ++ N),
      length-append K N,
    )

flag_Stops :
    (primary_key not_null : Bool) (tail : Bytes)
    → Stops tail
    → Stops (text_if not_null (utf8 " NOT NULL") ++ tail)
      × Stops (
          text_if primary_key (utf8 " PRIMARY KEY")
          ++ (text_if not_null (utf8 " NOT NULL") ++ tail))
unfolding utf8
flag_Stops false false tail h = (h, h)
flag_Stops false true tail h = (refl, refl)
flag_Stops true false tail h = (h, refl)
flag_Stops true true tail h = (refl, refl)

module _ (chars : CharClass) (documented : DocumentedClasses chars) where
  key_lexed :
      (start : ℕ) (primary_key : Bool) (tail : Bytes) (out : Tokens)
      → Stops tail
      → Place chars documented (start + length (text_if primary_key (utf8 " PRIMARY KEY"))) tail out
      → Place chars documented start
          (text_if primary_key (utf8 " PRIMARY KEY") ++ tail)
          (key_tokens start primary_key out)
  unfolding utf8
  key_lexed start false tail out stops later =
      moved chars documented _ _ tail out (omega arith) later
  key_lexed start true tail out stops later = space-Lexed chars documented start _ _ (
      keyword chars documented (start + 1) 80 (82 ∷ 73 ∷ 77 ∷ 65 ∷ 82 ∷ 89 ∷ []) (start + 9) _ _
        refl (omega arith)
        (spaced_word chars documented (start + 9) 75 (69 ∷ 89 ∷ []) tail out refl stops
          (moved chars documented _ _ tail out (omega arith) later)))

  null_words_lexed :
      (start : ℕ) (not_null : Bool) (tail : Bytes) (out : Tokens)
      → Stops tail
      → Place chars documented (start + length (text_if not_null (utf8 " NOT NULL"))) tail out
      → Place chars documented start
          (text_if not_null (utf8 " NOT NULL") ++ tail)
          (null_words start not_null out)
  unfolding utf8
  null_words_lexed start false tail out stops later =
      moved chars documented _ _ tail out (omega arith) later
  null_words_lexed start true tail out stops later = space-Lexed chars documented start _ _ (
      keyword chars documented (start + 1) 78 (79 ∷ 84 ∷ []) (start + 5) _ _ refl (omega arith) (
        spaced_word chars documented (start + 5) 78 (85 ∷ 76 ∷ 76 ∷ []) tail out refl stops
          (moved chars documented _ _ tail out (omega arith) later)))

  type_lexed :
      (start : ℕ) (ty : ColumnType) (tail : Bytes) (out : Tokens)
      → Stops tail
      → Place chars documented (start + length (type_name ty)) tail out
      → Place chars documented start (type_name ty ++ tail) (word_at (type_name ty) start ∷ out)
  unfolding type_name utf8
  type_lexed start ColumnType.integer tail out =
      spaced_word chars documented start 73 (78 ∷ 84 ∷ 69 ∷ 71 ∷ 69 ∷ 82 ∷ []) tail out refl
  type_lexed start ColumnType.text tail out =
      spaced_word chars documented start 84 (69 ∷ 88 ∷ 84 ∷ []) tail out refl
  type_lexed start ColumnType.bytes tail out =
      spaced_word chars documented start 66 (89 ∷ 84 ∷ 69 ∷ 83 ∷ []) tail out refl
  type_lexed start ColumnType.boolean tail out =
      spaced_word chars documented start 66 (79 ∷ 79 ∷ 76 ∷ 69 ∷ 65 ∷ 78 ∷ []) tail out refl

  abbrev pub IsColumn : ColumnSpec → Type 0
  IsColumn c = IsName chars documented c.name

  column-ReadBack :
      (c : ColumnSpec)
      → IsColumn c
      → ReadBack chars documented column_spec NoConstraint (display_column c) c
  unfolding display_column
  column-ReadBack c h start tail out stops fine later =
      let stops' = flag_Stops c.primary_key c.not_null tail stops in
      let T = type_name c.ty in
      let K = text_if c.primary_key (utf8 " PRIMARY KEY") in
      let N = text_if c.not_null (utf8 " NOT NULL") in
      let type_at : ℕ = start + length c.name + 1 in
      let key_at : ℕ = type_at + length T in
      let flags : Tokens = flag_tokens key_at c.primary_key c.not_null out in
      let nulls =
        null_words_lexed (key_at + length K) c.not_null tail out stops
          (moved chars documented _ _ tail out (omega (arith, column_length c.name T K N)) later) in
      let keys = key_lexed key_at c.primary_key (N ++ tail) _ stops'.0 nulls in
      let typed = type_lexed type_at c.ty (K ++ (N ++ tail)) flags stops'.1 keys in
      let (ts, lexed, named) =
        ident-ReadBack chars documented (utf8 "column name") c.name h start
          (32 ∷ (T ++ (K ++ (N ++ tail)))) (word_at T type_at ∷ flags) refl tt
          (space-Lexed chars documented (start + length c.name) _ _ typed) in
      (
        ts,
        rw (column_text c.name T K N tail) lexed,
        column_read type_at key_at c.name c.ty c.primary_key c.not_null ts out fine named,
      )

  pub create-ReadBack :
      (name : Bytes) (columns : List ColumnSpec)
      → IsName chars documented name
      → OneOrMore IsColumn columns
      → ReadBack chars documented statement Anything
          (display (Statement.create_table name columns))
          (Statement.create_table name columns)
  unfolding display utf8
  create-ReadBack name columns h all start tail out stops fine later =
      let list = join (map display_column columns) in
      let at : ℕ = start + 13 + length name in
      let close : ℕ = at + 2 + length list in
      let (after, after_lexed, listed_as) =
        listed chars documented column_spec NoConstraint display_column comma-NoConstraint
          column_spec-Done IsColumn column-ReadBack columns all (at + 2) (41 ∷ tail)
          ((Token.r_paren, close) ∷ out) refl
          (close-NoConstraint close out, close-no_comma close out)
          (closed chars documented close _ tail out
            (omega (
              arith,
              length-append list (41 ∷ []),
              length-append name (32 ∷ 40 ∷ (list ++ 41 ∷ [])),
            ))
            later) in
      let (ts, lexed, named) =
        ident-ReadBack chars documented (utf8 "table name") name h (start + 13)
          (32 ∷ 40 ∷ (list ++ 41 ∷ tail)) ((Token.l_paren, at + 1) ∷ after) refl tt
          (space-Lexed chars documented at _ _ (
            open_paren chars documented (at + 1) (list ++ 41 ∷ tail) after
              (moved chars documented (at + 2) (at + 1 + 1) _ after (omega arith) after_lexed))) in
      (
        word_at (utf8 "CREATE") start ∷ word_at (utf8 "TABLE") (start + 7) ∷ ts,
        keyword chars documented start 67 (82 ∷ 69 ∷ 65 ∷ 84 ∷ 69 ∷ []) (start + 7) _ _ refl
            (omega arith)
            (keyword chars documented (start + 7) 84 (65 ∷ 66 ∷ 76 ∷ 69 ∷ []) (start + 13) _ ts refl
              (omega arith)
              (rw
                (
                  append_assoc name (32 ∷ 40 ∷ (list ++ 41 ∷ [])) tail,
                  append_assoc list (41 ∷ []) tail,
                )
                lexed)),
        create_read start (start + 7) (at + 1) close name columns ts after out named listed_as,
      )
