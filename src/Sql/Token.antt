-- ===== src/Sql/Token.antt =====
-- crates/sql/src/lexer.rs and parser.rs: tokens and errors.
use choam.Base.{ℕ, Bytes}
use choam.Base.Int.{ℤ}

pub data Token : Type 0 where
  word : Bytes → Token
  integer : ℤ → Token
  str : Bytes → Token
  l_paren r_paren comma semicolon star plus minus slash eq ne lt le gt ge : Token

-- `ch` is a code point.
pub data LexError : Type 0 where
  unexpected_char : ℕ → ℕ → LexError
  unterminated_string : ℕ → LexError
  integer_out_of_range : ℕ → LexError

-- `found` is a token, or another statement.
pub data Found : Type 0 where
  token : Token → Found
  another_statement : Found

pub data ParseError : Type 0 where
  lex : LexError → ParseError
  unexpected : Found → Bytes → ℕ → ParseError
  unexpected_end : Bytes → ParseError
  empty : ParseError
