-- ===== src/Tests/Rows.antt =====
-- The codecs, the keys and the expressions, on the rows of one table.
use choam.Base.{
  leb, ◌==◌, ℕ, ◌≡◌, ◌≢◌, refl, false, some, [], ◌∷◌, ◌++◌, Bytes, ok, panic, ◌>>=◌, starts_with,
  utf8, arith, length-replicate, replicate,
}
use choam.Base.Int.{pos}
use choam.Base.Utf8.{is_utf8}
use choam.Base.Order.{compare_bytes}
use choam.Row.Value.{Value, ColumnType, HasType, column_type}
use choam.Row.Schema
use choam.Row.Schema.{ColumnDef, Schema}
use choam.Row.Schema.Rules.{IsSchema, new-IsSchema, IsSchema-new, new-ne-panic}
use choam.Row.Row.{encode_row, decode_row}
use choam.Row.Row.RoundTrip.{decode_row-encode_row}
use choam.Row.Key.{
  row_key, row_key_prefix, split_row_key, decode_key_component, catalog_table_key,
  catalog_counter_key, catalog_index_key,
}
use choam.Row.Key.Laws.{component, row_key-ok}
use choam.Row.Key.Separation.{split-row_key, row_key-injective, row_key-prefix, catalog_keys_apart}
use choam.Engine.KeyOrder.{compare-row_key}
use choam.Engine.Eval.{compare_values}
use choam.Catalog.Codec.{
  encode_table_entry, decode_table_entry, encode_table_index, decode_table_index,
}
use choam.Catalog.Codec.RoundTrip.{decode-encode_table_entry}
use choam.Catalog.Codec.Index.{decode-encode_table_index}
use choam.Catalog.Codec.Limits.{long_name_lost}
use choam.Sql.Ast.{Literal}
use choam.Sql.Token.{Token}
use choam.Sql.Display.{display_literal}
use choam.Sql.Lexer.{CharClass, lex}
use choam.Sql.Lexer.Quotes.{lex-display_literal}
use choam.Tests.Fixtures.{
  id_column, name_column, users, ann, users_IsSchema, users-FitsEntry, ann-FitsColumns, minus_five,
  an_integer,
}

decode_row-encode_row_example : (encode_row users ann >>= decode_row users) ≡ ok ann
decode_row-encode_row_example = decode_row-encode_row users ann ann-FitsColumns

abbrev key_of : Value → Bytes
key_of v = row_key_prefix 7 ++ component v

has_key :
    (v : Value) → HasType v ColumnType.integer → row_key 7 v ColumnType.integer ≡ ok (key_of v)
has_key v h = row_key-ok 7 v ColumnType.integer h

another_integer : HasType (Value.integer (pos 300)) ColumnType.integer
unfolding column_type
another_integer = refl

row_key-injective_example : (◌≡◌ {A = ℕ} 7 7) × (minus_five ≡ minus_five)
row_key-injective_example =
    row_key-injective 7 7 minus_five minus_five ColumnType.integer (key_of minus_five) (omega arith)
      (omega arith) (omega arith) (omega arith) (has_key minus_five an_integer)
      (has_key minus_five an_integer)

split-row_key_example :
    (bs : Bytes) × (split_row_key (key_of minus_five) ≡ some (7, bs))
    × (decode_key_component bs ColumnType.integer ≡ ok minus_five)
split-row_key_example =
    split-row_key 7 minus_five ColumnType.integer (key_of minus_five) (omega arith) (omega arith)
      (has_key minus_five an_integer)

row_key-prefix_example : starts_with (row_key_prefix 8) (key_of minus_five) ≡ false
row_key-prefix_example =
    row_key-prefix 8 7 minus_five ColumnType.integer (key_of minus_five) (omega arith) (omega arith)
      (has_key minus_five an_integer)

compare-row_key_example :
    compare_values minus_five (Value.integer (pos 300))
    ≡ some (compare_bytes (key_of minus_five) (key_of (Value.integer (pos 300))))
compare-row_key_example =
    compare-row_key 7 minus_five (Value.integer (pos 300)) ColumnType.integer (key_of minus_five)
      (key_of (Value.integer (pos 300))) (omega arith) (omega arith) (has_key minus_five an_integer)
      (has_key (Value.integer (pos 300)) another_integer)

decode-encode_table_entry_example : decode_table_entry (encode_table_entry 7 users) ≡ ok (7, users)
decode-encode_table_entry_example =
    decode-encode_table_entry 7 users (omega arith) users_IsSchema users-FitsEntry

decode-encode_table_index_example :
    decode_table_index (encode_table_index (utf8 "users" ∷ utf8 "t" ∷ []))
    ≡ ok (utf8 "users" ∷ utf8 "t" ∷ [])
unfolding is_utf8 utf8
decode-encode_table_index_example =
    decode-encode_table_index (utf8 "users" ∷ utf8 "t" ∷ [])
      ((refl, omega arith), ((refl, omega arith), tt)) (omega arith)

new-IsSchema_example :
    IsSchema users
    × (users.table_name ≡ utf8 "users")
    × (users.columns ≡ id_column ∷ name_column ∷ [])
    × (users.primary_key ≡ 0)
new-IsSchema_example =
    new-IsSchema (utf8 "users") (id_column ∷ name_column ∷ []) 0 (IsSchema-new users users_IsSchema)

new-ne-panic_example : Schema.new (utf8 "users") (id_column ∷ []) 3 ≢ panic
new-ne-panic_example = new-ne-panic (utf8 "users") (id_column ∷ []) 3

abbrev long_name : Schema
long_name = record { table_name = replicate 65536 97; columns = id_column ∷ []; primary_key = 0 }

long_name_lost_example : decode_table_entry (encode_table_entry 7 long_name) ≢ ok (7, long_name)
long_name_lost_example =
    long_name_lost 7 long_name (omega (arith, length-replicate {A = ℕ} 65536 97))

names_differ : utf8 "users" ≢ utf8 "t"
unfolding utf8
names_differ e = ground arith

abbrev entry_key : Bytes → Bytes
entry_key name = 0 ∷ 2 ∷ name

users_entry : catalog_table_key (utf8 "users") ≡ some (entry_key (utf8 "users"))
unfolding catalog_table_key utf8
users_entry = refl

t_entry : catalog_table_key (utf8 "t") ≡ some (entry_key (utf8 "t"))
unfolding catalog_table_key utf8
t_entry = refl

catalog_keys_apart_example :
    (catalog_counter_key ≢ catalog_index_key)
    × (entry_key (utf8 "users") ≢ entry_key (utf8 "t"))
    × (entry_key (utf8 "users") ≢ catalog_counter_key)
    × (entry_key (utf8 "users") ≢ catalog_index_key)
    × (key_of minus_five ≢ entry_key (utf8 "users"))
    × (key_of minus_five ≢ catalog_counter_key)
    × (key_of minus_five ≢ catalog_index_key)
catalog_keys_apart_example =
    catalog_keys_apart (utf8 "users") (utf8 "t") (entry_key (utf8 "users")) (entry_key (utf8 "t")) 7
      minus_five ColumnType.integer (key_of minus_five) names_differ users_entry t_entry
      (has_key minus_five an_integer)

IsSchema-new_example : Schema.new users.table_name users.columns users.primary_key ≡ ok users
IsSchema-new_example = IsSchema-new users users_IsSchema

abbrev ascii : CharClass
ascii = record {
  is_whitespace = λ c. c == 32;
  is_alphabetic = λ c. leb 97 c;
  is_alphanumeric = λ c. leb 48 c;
}

lex-display_literal_example :
    lex ascii (display_literal (Literal.text (utf8 "it's")))
    ≡ ok ((Token.str (utf8 "it's"), 0) ∷ [])
lex-display_literal_example = lex-display_literal ascii (utf8 "it's") refl
