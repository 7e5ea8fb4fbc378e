-- ===== src/Tests/Fixtures.antt =====
-- The table, the stores and the character classes that the tests run on.
use choam.Base.{◌≡◌, refl, true, false, some, List, [], ◌∷◌, ok, utf8, arith, bytes_eq}
use choam.Base.Utf8.{is_utf8}
use choam.Storage.Memory.Sorted.{lookup}
use Prim.Native.Nat.{Ordering}
use choam.Base.Order.{compare_bytes}
use choam.Base.Int.{pos, negsuc}
use choam.Row.Value.{Value, ColumnType, HasType, column_type}
use choam.Row.Row.RoundTrip.{FitsColumns}
use choam.Row.Schema.{ColumnDef, Schema}
use choam.Row.Schema.Rules.{IsSchema, Distinct}
use choam.Row.Key.{catalog_table_key}
use choam.Storage.Memory.{Table, memory}
use choam.Catalog.Tables
use choam.Catalog.Tables.{TableHandle}
use choam.Catalog.Codec.{encode_table_entry, encode_table_index}
use choam.Catalog.Codec.RoundTrip.{FitsEntry, decode-encode_table_entry}
use choam.Txn.Database.Rows.{IsTable}
use choam.Base.{leb, ◌==◌, ◌&&◌, ◌||◌, true, ◌≡◌}
use choam.Sql.Lexer.{CharClass, is_digit}
use choam.Sql.RoundTrip.Steps.{is_letter, DocumentedClasses}
use choam.Sql.Lexer.Fuel.{LettersAreWordChars}

abbrev pub id_column : ColumnDef
id_column = record { name = utf8 "id"; ty = ColumnType.integer; nullable = false }

abbrev pub name_column : ColumnDef
name_column = record { name = utf8 "n"; ty = ColumnType.text; nullable = true }

abbrev pub users : Schema
users = record {
  table_name = utf8 "users";
  columns = id_column ∷ name_column ∷ [];
  primary_key = 0;
}

abbrev pub users_handle : TableHandle
users_handle = record { table_id = 7; schema = users }

abbrev pub ann : List Value
ann = Value.integer (negsuc 4) ∷ Value.text (utf8 "Ann") ∷ []

abbrev pub nobody : List Value
nobody = Value.integer (pos 300) ∷ Value.null ∷ []

abbrev pub empty : Table
empty = record { entries = []; sorted = tt }

pub users_Distinct : Distinct users.columns
unfolding utf8
users_Distinct = ((λ e. ground arith, tt), (tt, tt))

abbrev pub users_IsSchema : IsSchema users
users_IsSchema = record {
  key = id_column;
  key_at = refl;
  key_not_null = refl;
  distinct = users_Distinct;
}

pub users-FitsEntry : FitsEntry users
unfolding utf8 is_utf8
users-FitsEntry = record {
  table_name = (refl, omega arith);
  columns = ((refl, omega arith), ((refl, omega arith), tt));
  few = omega arith;
  key = omega arith;
}

pub index_first : compare_bytes (0 ∷ 1 ∷ []) (0 ∷ 2 ∷ utf8 "users") ≡ Ordering.lt
unfolding compare_bytes
index_first = refl

-- A store with one table.
abbrev pub one_table : Table
one_table = record {
  entries =
      (0 ∷ 1 ∷ [], encode_table_index (utf8 "users" ∷ []))
      ∷ (0 ∷ 2 ∷ utf8 "users", encode_table_entry 7 users)
      ∷ [];
  sorted = ((index_first, tt), (tt, tt));
}

pub users_found : Tables.get_table memory one_table (utf8 "users") ≡ ok (some users_handle)
unfolding Tables.get_table catalog_table_key lookup bytes_eq utf8
users_found = rw (decode-encode_table_entry 7 users (omega arith) users_IsSchema users-FitsEntry)

abbrev pub users_IsTable : IsTable memory one_table (utf8 "users") users_handle
users_IsTable = record { found = users_found; schema = users_IsSchema; id = omega arith }

pub ann-FitsColumns : FitsColumns users.columns ann
unfolding column_type is_utf8 utf8
ann-FitsColumns = ((refl, omega arith, tt), ((refl, refl, omega arith), tt))

abbrev pub minus_five : Value
minus_five = Value.integer (negsuc 4)

pub an_integer : HasType minus_five ColumnType.integer
unfolding column_type
an_integer = refl

-- Classes of characters that know ASCII only.
abbrev pub ascii : CharClass
ascii = record {
  is_whitespace = λ c. c == 32 || (leb 9 c && leb c 13);
  is_alphabetic = λ c. is_letter c;
  is_alphanumeric = λ c. is_letter c || is_digit c;
}

pub ascii-LettersAreWordChars : LettersAreWordChars ascii
ascii-LettersAreWordChars = λ c h. ground arith

pub ascii-DocumentedClasses : DocumentedClasses ascii
ascii-DocumentedClasses = record {
  letters = ascii-LettersAreWordChars;
  letter_no_space = λ c h. ground arith;
  space = refl;
  visible = λ c low high. ground arith;
  ascii_letters = λ c h. refl;
  ascii_word_chars = λ c h. refl;
}
