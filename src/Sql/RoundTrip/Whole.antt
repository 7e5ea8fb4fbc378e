-- ===== src/Sql/RoundTrip/Whole.antt =====
-- A statement is read back from its text.
use choam.Base.{
  ℕ, suc, ◌+◌, ◌≡◌, refl, ap, ◌∙◌, [], ◌∷◌, ◌++◌, Bytes, ok, map_err, length, append-nil, utf8,
}
use choam.Sql.Ast.{Statement}
use choam.Sql.Token.{Token, ParseError}
use choam.Sql.Keyword.{eq_ignore_ascii_case}
use choam.Sql.Display.{display}
use choam.Sql.Lexer.{CharClass, lex, lex_from}
use choam.Sql.Parser.{Tokens, is_next, at_keyword}
use choam.Sql.Parser.Statement.{statement}
use choam.Sql.Parser.Script.{skip_semicolons, statements_at, statements, parse_script, parse}
use choam.Sql.RoundTrip.Levels.{word_at}
use choam.Sql.RoundTrip.Steps.{Lexed, DocumentedClasses}
use choam.Sql.RoundTrip.Texts.{spaced_word}
use choam.Sql.RoundTrip.Pieces.{ReadBack, IsName, OneOrMore}
use choam.Sql.RoundTrip.Clauses.{bind_ok, NoLimit, end-NoLimit, MaybeExpr, MaybeOrder, MaybeLimit}
use choam.Sql.RoundTrip.Creates.{IsColumn, create-ReadBack}
use choam.Sql.RoundTrip.Inserts.{IsRow, MaybeNames, insert-ReadBack}
use choam.Sql.RoundTrip.Selects.{IsProjection, select-ReadBack}
use choam.Sql.RoundTrip.Changes.{IsAssignment, update-ReadBack, delete-ReadBack}

begin_read :
    (start : ℕ) (ts : Tokens)
    → statement (word_at (utf8 "BEGIN") start ∷ ts) ≡ ok (Statement.begin, ts)
unfolding statement at_keyword eq_ignore_ascii_case utf8
begin_read start ts = refl

commit_read :
    (start : ℕ) (ts : Tokens)
    → statement (word_at (utf8 "COMMIT") start ∷ ts) ≡ ok (Statement.commit, ts)
unfolding statement at_keyword eq_ignore_ascii_case utf8
commit_read start ts = refl

rollback_read :
    (start : ℕ) (ts : Tokens)
    → statement (word_at (utf8 "ROLLBACK") start ∷ ts) ≡ ok (Statement.rollback, ts)
unfolding statement at_keyword eq_ignore_ascii_case utf8
rollback_read start ts = refl

-- A statement does not start with a semicolon.
skip_nothing :
    (ts out : Tokens) (s : Statement) → statement ts ≡ ok (s, out) → skip_semicolons ts ≡ ts
unfolding statement at_keyword skip_semicolons is_next
skip_nothing [] out s h = refl
skip_nothing ((Token.semicolon, start) ∷ ts) out s h = cc
skip_nothing ((t, start) ∷ ts) out s h = refl

no_statement : (s : Statement) (out : Tokens) → statement [] ≡ ok (s, out) → ⊥
unfolding statement at_keyword
no_statement s out h = cc

statements_end : (fuel : ℕ) → statements (suc fuel) [] ≡ ok []
unfolding statements statements_at skip_semicolons
statements_end fuel = refl

last_statement :
    (fuel : ℕ) (t : Token × ℕ) (ts : Tokens) (s : Statement)
    → statement (t ∷ ts) ≡ ok (s, [])
    → statements_at (statements (suc fuel)) (t ∷ ts) ≡ ok (s ∷ [])
unfolding statements_at
last_statement fuel t ts s h = bind_ok _ h ∙ bind_ok _ (statements_end fuel)

-- A script of the tokens of one statement is that statement.
single_statement :
    (ts : Tokens) (s : Statement)
    → statement ts ≡ ok (s, [])
    → statements (suc (length ts)) ts ≡ ok (s ∷ [])
unfolding statements
single_statement [] s h = absurd (no_statement s [] h)
single_statement (t ∷ ts) s h =
    ap (statements_at (statements (suc (length ts)))) (skip_nothing (t ∷ ts) [] s h)
    ∙ last_statement (length ts) t ts s h

module _ (chars : CharClass) (documented : DocumentedClasses chars) where
  -- What a parsed statement satisfies: its names are words and no keywords, its lists are not empty,
  -- its integers are not negative and fit an `i64`.
  abbrev pub IsParsedStatement : Statement → Type 0
  IsParsedStatement (Statement.create_table name columns) =
      IsName chars documented name × OneOrMore (IsColumn chars documented) columns
  IsParsedStatement (Statement.insert table columns rows) =
      IsName chars documented table
      × MaybeNames chars documented columns
      × OneOrMore (IsRow chars documented) rows
  IsParsedStatement (Statement.select picked table filter order count) =
      IsProjection chars documented picked
      × IsName chars documented table
      × MaybeExpr chars documented filter
      × MaybeOrder chars documented order
      × MaybeLimit chars documented count
  IsParsedStatement (Statement.update table assignments filter) =
      IsName chars documented table
      × OneOrMore (IsAssignment chars documented) assignments
      × MaybeExpr chars documented filter
  IsParsedStatement (Statement.delete table filter) =
      IsName chars documented table × MaybeExpr chars documented filter
  IsParsedStatement Statement.begin = Unit
  IsParsedStatement Statement.commit = Unit
  IsParsedStatement Statement.rollback = Unit

  statement-ReadBack :
      (s : Statement)
      → IsParsedStatement s
      → ReadBack chars documented statement NoLimit (display s) s
  unfolding display utf8
  statement-ReadBack (Statement.create_table name columns) h start tail out stops fine later =
      create-ReadBack chars documented name columns h.0 h.1 start tail out stops tt later
  statement-ReadBack (Statement.insert table columns rows) h start tail out stops fine later =
      insert-ReadBack chars documented table columns rows h.0 h.1 h.2 start tail out stops
        fine.0.0.0 later
  statement-ReadBack (Statement.select picked table filter order count) h start tail out stops fine
        later =
      select-ReadBack chars documented picked table filter order count h.0 h.1 h.2 h.3 h.4 start
        tail out stops fine later
  statement-ReadBack (Statement.update table assignments filter) h start tail out stops fine later =
      update-ReadBack chars documented table assignments filter h.0 h.1 h.2 start tail out stops
        fine.0.0 later
  statement-ReadBack (Statement.delete table filter) h start tail out stops fine later =
      delete-ReadBack chars documented table filter h.0 h.1 start tail out stops fine.0.0 later
  statement-ReadBack Statement.begin h start tail out stops fine later = (
    word_at (utf8 "BEGIN") start ∷ out,
    spaced_word chars documented start 66 (69 ∷ 71 ∷ 73 ∷ 78 ∷ []) tail out refl stops later,
    begin_read start out,
  )
  statement-ReadBack Statement.commit h start tail out stops fine later = (
    word_at (utf8 "COMMIT") start ∷ out,
    spaced_word chars documented start 67 (79 ∷ 77 ∷ 77 ∷ 73 ∷ 84 ∷ []) tail out refl stops later,
    commit_read start out,
  )
  statement-ReadBack Statement.rollback h start tail out stops fine later = (
    word_at (utf8 "ROLLBACK") start ∷ out,
    spaced_word chars documented start 82 (79 ∷ 76 ∷ 76 ∷ 66 ∷ 65 ∷ 67 ∷ 75 ∷ []) tail out refl
        stops later,
    rollback_read start out,
  )

  end-Lexed : (start : ℕ) → Lexed chars documented start [] []
  unfolding lex_from
  end-Lexed start = refl

  parse_lexed :
      (sql : Bytes) (ts : Tokens) (s : Statement)
      → lex chars sql ≡ ok ts
      → statement ts ≡ ok (s, [])
      → parse chars sql ≡ ok s
  unfolding parse parse_script
  parse_lexed sql ts s lexed read =
      let script : parse_script chars sql ≡ ok (s ∷ []) =
        bind_ok _ (ap (map_err ParseError.lex) lexed) ∙ single_statement ts s read in
      bind_ok _ script

  lex-display :
      (s : Statement) (ts : Tokens)
      → Lexed chars documented 0 (display s ++ []) ts
      → lex chars (display s) ≡ ok ts
  unfolding lex
  lex-display s ts lexed = rw (append-nil (display s)) at lexed

  -- The text of a statement is parsed to that very statement, for every kind of statement and every
  -- nesting of expressions: over character classes as `char` documents them, if the names in it are
  -- words and no keywords, its lists of columns, rows, values and assignments are not empty, and
  -- its integer literals and its LIMIT are not negative and below 2^63.
  pub parse-display : (s : Statement) → IsParsedStatement s → parse chars (display s) ≡ ok s
  parse-display s h =
      let (ts, lexed, read) =
        statement-ReadBack s h 0 [] [] tt end-NoLimit (end-Lexed (0 + length (display s))) in
      parse_lexed (display s) ts s (lex-display s ts lexed) read
