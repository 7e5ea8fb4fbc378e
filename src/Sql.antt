-- ===== src/Sql.antt =====
-- The crate `sql`: the syntax tree, the lexer and the parser.
pub mod Ast
pub mod Token
pub mod Display
pub mod Lexer
pub mod Keyword
pub mod Parser
pub mod RoundTrip
