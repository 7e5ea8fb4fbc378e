-- ===== src/Engine/Error.antt =====
-- The error type of crates/engine.
use choam.Base.{ℕ, List, [], ◌∷◌, Bytes}
use choam.Row.Value.{Value}
use choam.Sql.Token.{ParseError}
use choam.Txn.Error.{DbError}

-- A part of a text that `format!` writes: bytes as they are, or a text by its `Debug`, which the
-- standard library defines.
pub data Piece : Type 0 where
  plain : Bytes → Piece
  debugged : Bytes → Piece

-- A text with no `Debug` in it.
abbrev pub message : Bytes → List Piece
message bytes = Piece.plain bytes ∷ []

pub data ExecError (StoreError : Type 0) : Type 0 where
  parse : ParseError → ExecError StoreError
  db : DbError StoreError → ExecError StoreError
  unknown_column : Bytes → ExecError StoreError
  type_mismatch : List Piece → ExecError StoreError
  division_by_zero : ExecError StoreError
  integer_overflow : ExecError StoreError
  primary_key_count : ExecError StoreError
  null_primary_key : ExecError StoreError
  duplicate_primary_key : Value → ExecError StoreError
  duplicate_column : Bytes → ExecError StoreError
  value_count : ℕ → ℕ → ExecError StoreError
  update_primary_key : Bytes → ExecError StoreError
  ddl_in_transaction : ExecError StoreError
  already_in_transaction : ExecError StoreError
  no_active_transaction : ExecError StoreError
  transaction_aborted : ExecError StoreError
