-- ===== src/Sql/Keyword.antt =====
-- crates/sql/src/parser.rs: the reserved words.
use choam.Base.{
  ℕ, ◌-◌, Bool, true, false, ◌&&◌, ◌||◌, ◌==◌, leb, List, [], ◌∷◌, Bytes, utf8, if◌then◌else◌,
}

-- `u8::to_ascii_uppercase`
abbrev pub upper : ℕ → ℕ
upper b = if leb 97 b && leb b 122 then b - 32 else b

-- `str::eq_ignore_ascii_case`
unfoldable pub eq_ignore_ascii_case : Bytes → Bytes → Bool
eq_ignore_ascii_case [] [] = true
eq_ignore_ascii_case [] (b ∷ bs) = false
eq_ignore_ascii_case (a ∷ as₁) [] = false
eq_ignore_ascii_case (a ∷ as₁) (b ∷ bs) = upper a == upper b && eq_ignore_ascii_case as₁ bs

unfoldable pub keywords : List Bytes
keywords =
    utf8 "SELECT"
    ∷ utf8 "FROM"
    ∷ utf8 "WHERE"
    ∷ utf8 "INSERT"
    ∷ utf8 "INTO"
    ∷ utf8 "VALUES"
    ∷ utf8 "UPDATE"
    ∷ utf8 "SET"
    ∷ utf8 "DELETE"
    ∷ utf8 "CREATE"
    ∷ utf8 "TABLE"
    ∷ utf8 "PRIMARY"
    ∷ utf8 "KEY"
    ∷ utf8 "NOT"
    ∷ utf8 "NULL"
    ∷ utf8 "AND"
    ∷ utf8 "OR"
    ∷ utf8 "IS"
    ∷ utf8 "ORDER"
    ∷ utf8 "BY"
    ∷ utf8 "ASC"
    ∷ utf8 "DESC"
    ∷ utf8 "LIMIT"
    ∷ utf8 "BEGIN"
    ∷ utf8 "COMMIT"
    ∷ utf8 "ROLLBACK"
    ∷ utf8 "TRUE"
    ∷ utf8 "FALSE"
    ∷ utf8 "INTEGER"
    ∷ utf8 "TEXT"
    ∷ utf8 "BYTES"
    ∷ utf8 "BOOLEAN"
    ∷ []

unfoldable pub is_any : List Bytes → Bytes → Bool
unfolding eq_ignore_ascii_case
is_any [] word = false
is_any (k ∷ ks) word = eq_ignore_ascii_case k word || is_any ks word

unfoldable pub is_keyword : Bytes → Bool
unfolding is_any keywords
is_keyword word = is_any keywords word
