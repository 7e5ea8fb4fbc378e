-- ===== src/Cli/Table.antt =====
-- crates/cli/src/lib.rs: what is printed of rows and of tables.
use choam.Base.{
  ℕ, ◌+◌, ◌/◌, ◌%◌, ◌==◌, ltb, leb, not, true, false, List, [], ◌∷◌, ◌++◌, Bytes, Result, ok, ◌>>=◌,
  index, length, replicate, if◌then◌else◌, utf8,
}
use mathlib.Core.List.{map}
use choam.Row.Value.{Value}
use choam.Row.Schema.{ColumnDef}
use choam.Catalog.Tables.{TableHandle}
use choam.Sql.Lexer.{CharClass}
use choam.Sql.Display
use choam.Sql.Display.{integer_text, decimal, join, parens}
use choam.Engine.Query.{QueryResult}
use choam.Cli.Chars.{char_count, pad, trim_end}

abbrev pub hex_digit : ℕ → ℕ
hex_digit n = if ltb n 10 then 48 + n else 87 + n

-- `{x:02x}` of each byte
unfoldable pub hex : Bytes → Bytes
hex [] = []
hex (b ∷ bs) = hex_digit (b / 16) ∷ hex_digit (b % 16) ∷ hex bs

unfoldable pub cell : Value → Bytes
unfolding integer_text hex
cell Value.null = utf8 "NULL"
cell (Value.integer n) = integer_text n
cell (Value.text s) = s
cell (Value.boolean true) = utf8 "TRUE"
cell (Value.boolean false) = utf8 "FALSE"
cell (Value.bytes b) = utf8 "x'" ++ (hex b ++ utf8 "'")

abbrev pub larger : ℕ → ℕ → ℕ
larger a b = if leb a b then b else a

-- The width of column `i`: that of its longest cell or of its name.
unfoldable pub width : {E : Type 0} → ℕ → Bytes → List (List Bytes) → Result E ℕ
unfolding char_count
width i name [] = ok (char_count name)
width i name (row ∷ body) = do c ← index row i; w ← width i name body; ok (larger (char_count c) w)

unfoldable pub widths_from : {E : Type 0} → ℕ → List Bytes → List (List Bytes) → Result E (List ℕ)
unfolding width
widths_from i [] body = ok []
widths_from i (name ∷ names) body = do
  w ← width i name body
  ws ← widths_from (i + 1) names body
  ok (w ∷ ws)

-- `cells.iter().zip(&widths)`
unfoldable pub padded : List Bytes → List ℕ → List Bytes
unfolding pad
padded [] widths = []
padded (c ∷ cells) [] = []
padded (c ∷ cells) (w ∷ widths) = pad w c ∷ padded cells widths

unfoldable pub join_by : Bytes → List Bytes → Bytes
join_by sep [] = []
join_by sep (x ∷ []) = x
join_by sep (x ∷ y ∷ xs) = x ++ (sep ++ join_by sep (y ∷ xs))

-- `if n == 1 { "" } else { "s" }`
abbrev pub plural : ℕ → Bytes
plural n = if n == 1 then [] else utf8 "s"

module _ (classes : CharClass) where
  unfoldable pub line : List ℕ → List Bytes → Bytes
  unfolding padded join_by trim_end
  line widths cells = trim_end classes (join_by (utf8 " | ") (padded cells widths))

  unfoldable pub lines : List ℕ → List (List Bytes) → Bytes
  unfolding line
  lines widths [] = []
  lines widths (row ∷ body) = line widths row ++ (10 ∷ lines widths body)

  unfoldable pub format_table : {E : Type 0} → QueryResult → Result E Bytes
  unfolding cell widths_from line lines join_by decimal
  format_table r = do
    let body = map (map cell) r.rows
    widths ← widths_from 0 r.columns body
    let rule = join_by (utf8 "-+-") (map (λ w. replicate w 45) widths)
    let count =
        utf8 "(" ++ (decimal (length body) ++ (utf8 " row" ++ (plural (length body) ++ utf8 ")\n")))
    ok (line widths r.columns ++ (10 ∷ (rule ++ (10 ∷ (lines widths body ++ count)))))

-- The text of column `i` and the later ones.
unfoldable pub described : ℕ → ℕ → List ColumnDef → List Bytes
described i pk [] = []
described i pk (c ∷ cs) =
    let mark =
      if i == pk then utf8 " PRIMARY KEY" else if not c.nullable then utf8 " NOT NULL" else [] in
    (c.name ++ (utf8 " " ++ (Display.type_name c.ty ++ mark))) ∷ described (i + 1) pk cs

unfoldable pub describe : TableHandle → Bytes
unfolding described join
describe t =
    t.schema.table_name
    ++ (utf8 " " ++ parens (join (described 0 t.schema.primary_key t.schema.columns)))
