-- ===== src/Lib.antt =====
-- choam: a relational database over the transactional key-value store `sietch`.
--
-- The program is a stack of crates, each over the one before it:
--
-- - crates/row: values, schemas, the encoding of a row, and the storage keys of rows and of catalog
--   entries. Row/Value is value.rs; Row/Schema and Row/Row are row.rs; Row/Key is key.rs.
-- - crates/catalog: tables by name, kept as entries in the same store. Catalog/Codec is codec.rs,
--   Catalog/Tables is catalog.rs. Creating a table bumps a counter, writes the entry of the table and
--   extends an index of names, all in one storage transaction.
-- - crates/txn: rows by table name and primary key. Txn/Database is lib.rs. It reads the catalog
--   for the schema, encodes keys and rows with crates/row, and names the row of a conflict.
-- - crates/sql: Sql/Ast and Sql/Display are ast.rs, Sql/Token and Sql/Lexer are lexer.rs. Sql/Token
--   also has the errors of parser.rs; Sql/Keyword and Sql/Parser (with Expr, Statement and Script) are
--   the rest of it. A parser function takes the tokens that are left and returns those it leaves.
--   Sql/RoundTrip is about both, from the levels of the expression parser (Levels to Exprs) and the
--   lexer's steps (Steps to Lexed) to the statements (Pieces to Whole).
-- - crates/engine: Engine/Eval and Engine/Eval/Check are eval.rs. Engine/Access, Engine/Query (with
--   Insert, Select and Update) and Engine/Session are lib.rs: access paths, the four row statements,
--   and sessions, which run a statement on its own or inside a transaction. Engine/Session/Script runs
--   a text of one statement or of several. Engine/Session/States has the states of a session that
--   lib.rs and docs/design/decisions/ADR-004-sql-executor.md describe.
-- - crates/cli: Cli/Split, Cli/Table and Cli/Shell are lib.rs; Cli/Chars has the methods of `str` that
--   it calls. The lines of the input are a list, and what is written is kept in the shell's state.
--
-- Storage is the interface to `sietch`, whose code is not in the repository: a record of the operations
-- that are called, and `StorageLaws`, the documented behaviour that the theorems take as a hypothesis
-- (a transaction reads its own writes over a snapshot, a commit is all or nothing, a conflict names a
-- written key). Storage/Memory is a small store that obeys the laws.
--
-- State and errors. A Rust function that changes a transaction or the store returns the changed one.
-- `Result` has a third outcome, `panic`, for an index out of range, an `unwrap` of nothing or an
-- overflow that a debug build traps, so that a theorem about `ok` or `err` also says that there is no
-- panic. A statement is given two stores: `now`, which it reads the catalog from and begins its
-- transaction on, and `later`, which it commits to; other sessions may have committed in between. In
-- Engine/Session/Script and in the shell there is one session, and both are the same store.
--
-- Numbers. Text is its bytes (`Base/Utf8` decides UTF-8). `i64` is an integer with the range in its
-- hypotheses, with checked arithmetic; a cast to fewer bits is written `% 2 ^ w`; `usize` is
-- unbounded. `Sql/Display` writes a number with fuel for 20 digits, as many as a `u64` has.
-- `Sql/Lexer` has as much fuel as its text has bytes, and takes at least one byte in every round;
-- where the fuel ends before the text it answers with `panic`. The loops of Sql/Parser have more
-- fuel than there are tokens, and each round takes one; `expr` has fuel for as many parentheses as
-- there are tokens. The shell's loop over the statements of a line has more fuel than the buffer
-- has bytes, and answers with `out_of_fuel`, which the code has no counterpart of, where that does
-- not do. The classes of Unicode characters are a parameter of the lexer (`DocumentedClasses` is
-- what the documentation of `char` says of them), and the texts of errors are one of the shell.
--
-- A message that the code builds with `format!` is a list of pieces: what `Debug` makes of a text,
-- which the standard library defines, is kept as the text.
--
-- Not modelled: the program's arguments and files (crates/cli/src/main.rs), opening a database
-- directory, errors of reading and writing text, the texts of errors other than a type mismatch, the
-- limit of the call stack, and the storage engine itself.
pub mod Base
pub mod Row
pub mod Catalog
pub mod Txn
pub mod Engine
pub mod Sql
pub mod Cli
pub mod Storage
pub mod Tests
