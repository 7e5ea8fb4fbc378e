-- ===== src/Tests/Sessions.antt =====
-- Statements in their sessions, and expressions on the rows of one table.
use choam.Base.{◌≡◌, refl, true, none, some, [], ◌∷◌, ok, err, utf8, bytes_eq, false}
use choam.Base.Int.{pos}
use choam.Sql.Ast.{Literal, BinaryOp, Expr, Statement, UnaryOp}
use choam.Storage.Memory.{MemoryTxn, memory, memory_laws}
use choam.Engine.Error.{no_active_transaction}
use choam.Engine.Eval.{
  eval, keeps_row, find_column, op_class, from_logic, literal_value, column_value, position,
}
use choam.Engine.Eval.Check.{Ty, check_type, check_filter, check_binary, check_class, column_ty}
use choam.Engine.Eval.Operators.{Safe}
use choam.Engine.Eval.Safety.{SafeBool, eval-Safe, keeps_row-Safe}
use choam.Engine.Session.{Session, new_session, is_err, execute_statement}
use choam.Engine.Session.States.{
  diverges, Mode, mode, IsSession, start, documented_mode, Reachable-mode,
  execute_statement-diverges,
}
use choam.Engine.Session.Atomic.{
  execute_statement-err, execute_statement-in_transaction, execute_statement-aborted,
}
use choam.Catalog.Error.{empty_table_name}
use choam.Catalog.Tables.{create_table, prepare_create}
use choam.Catalog.Tables.Create.{create_table-err}
use mathlib.Core.List.{Perm}
use choam.Engine.Query.Select.{sort_order, insert_sorted, sort_by, sort_rows}
use choam.Engine.Access.{AccessPath, other_side, is_key_constant, pinned, find, access_path}
use choam.Engine.Access.Lookup.{access_path-keeps_row}
use choam.Engine.Eval.{kept, binary, binary_of, logic, as_bool, comparison, compare_values, holds}
use choam.Base.{get_elem?, List, Bool, true, false}
use choam.Base.Int.{compare_ℤ}
use choam.Row.Value.{Value, ColumnType, column_type}
use choam.Row.Schema.{primary_key_type}
use choam.Tests.Fixtures.{users_IsSchema}
use choam.Engine.Query.Sorted.{AtMostIn, InPairs, sort_rows-InPairs}
use choam.Engine.Query.Stable.{picked, picked-sort_rows}
use choam.Engine.Eval.Logic.{eval-de_morgan}
use choam.Tests.Fixtures.{id_column, users, ann, one_table, empty, nobody}

-- id / 0
abbrev id_over_zero : Expr
id_over_zero =
    Expr.binary (Expr.column (utf8 "id")) BinaryOp.div (Expr.literal (Literal.integer (pos 0)))

-- id / 0 = 1
abbrev zero_filter : Expr
zero_filter = Expr.binary id_over_zero BinaryOp.eq (Expr.literal (Literal.integer (pos 1)))

id_over_zero_type : check_type {S = ⊥} id_over_zero (some users) ≡ ok Ty.integer
unfolding check_type column_ty find_column check_binary check_class op_class utf8 bytes_eq
id_over_zero_type = refl

zero_filter_check : check_filter {S = ⊥} (some zero_filter) users ≡ ok tt
unfolding check_filter check_type column_ty find_column check_binary check_class op_class utf8
    bytes_eq
zero_filter_check = refl

eval-Safe_example : Safe {S = ⊥} Ty.integer (eval id_over_zero (some (users, ann)))
eval-Safe_example =
    eval-Safe ⊥ id_over_zero (some (users, ann)) Ty.integer (refl, (refl, tt)) id_over_zero_type

keeps_row-Safe_example : SafeBool {S = ⊥} (keeps_row (some zero_filter) users ann)
keeps_row-Safe_example =
    keeps_row-Safe ⊥ (some zero_filter) users ann (refl, (refl, tt)) zero_filter_check

no_transaction :
    (execute_statement memory one_table one_table (new_session memory) Statement.commit).0
    ≡ err no_active_transaction
unfolding execute_statement
no_transaction = refl

execute_statement-err_example :
    (execute_statement memory one_table one_table (new_session memory) Statement.commit).2
    ≡ one_table
execute_statement-err_example =
    execute_statement-err memory memory_laws one_table one_table (new_session memory)
      Statement.commit no_active_transaction no_transaction

Reachable-mode_example :
    IsSession memory
      (execute_statement memory one_table empty (new_session memory) Statement.begin).1
    × (mode memory (execute_statement memory one_table empty (new_session memory) Statement.begin).1
        ≡ documented_mode Mode.idle Statement.begin (
            is_err memory
              (execute_statement memory one_table empty (new_session memory) Statement.begin).0))
Reachable-mode_example =
    Reachable-mode memory (new_session memory) one_table empty Statement.begin start refl

-- The session after BEGIN, in which a second one fails.
abbrev begun : Session memory
begun = (execute_statement memory one_table one_table (new_session memory) Statement.begin).1

begun_open : diverges (mode memory begun) Statement.begin ≡ true
unfolding execute_statement
begun_open = refl

execute_statement-diverges_example :
    (is_err memory (execute_statement memory one_table empty begun Statement.begin).0 ≡ true)
    × (mode memory (execute_statement memory one_table empty begun Statement.begin).1
        ≡ Mode.working)
    × (documented_mode (mode memory begun) Statement.begin true ≡ Mode.aborted)
execute_statement-diverges_example =
    execute_statement-diverges memory begun one_table empty Statement.begin begun_open

abbrev fresh : MemoryTxn
fresh = memory.begin one_table

abbrev failed_session : Session memory
failed_session = record { txn = some fresh; failed = true }

abbrev delete_all : Statement
delete_all = Statement.delete (utf8 "users") none

execute_statement-in_transaction_example :
    (execute_statement memory one_table empty failed_session delete_all).2 ≡ empty
execute_statement-in_transaction_example =
    execute_statement-in_transaction memory one_table empty failed_session fresh refl delete_all
      (λ e. cc e)

execute_statement-aborted_example :
    is_err memory (execute_statement memory one_table empty failed_session delete_all).0 ≡ true
execute_statement-aborted_example =
    execute_statement-aborted memory one_table empty failed_session fresh refl delete_all refl
      (λ e. cc e)

no_name : (create_table memory empty one_table [] (id_column ∷ []) 0).0 ≡ err empty_table_name
unfolding create_table prepare_create
no_name = refl

create_table-err_example : (create_table memory empty one_table [] (id_column ∷ []) 0).1 ≡ one_table
create_table-err_example =
    create_table-err memory memory_laws empty one_table [] (id_column ∷ []) 0 empty_table_name
      no_name

abbrev no_flag : Expr
no_flag = Expr.literal (Literal.boolean false)

abbrev unknown : Expr
unknown = Expr.column (utf8 "n")

no_flag_value : eval {S = ⊥} no_flag (some (users, nobody)) ≡ ok (from_logic (some false))
unfolding eval literal_value
no_flag_value = refl

unknown_value : eval {S = ⊥} unknown (some (users, nobody)) ≡ ok (from_logic none)
unfolding eval column_value position bytes_eq utf8
unknown_value = refl

eval-de_morgan_example :
    eval {S = ⊥}
      (Expr.unary UnaryOp.not_op (Expr.binary no_flag BinaryOp.and_op unknown))
      (some (users, nobody))
    ≡ eval
        (Expr.binary
          (Expr.unary UnaryOp.not_op no_flag)
          BinaryOp.or_op
          (Expr.unary UnaryOp.not_op unknown))
        (some (users, nobody))
eval-de_morgan_example =
    eval-de_morgan ⊥ no_flag unknown (some (users, nobody)) (some false) none no_flag_value
      unknown_value

-- A second row without a name.
abbrev somebody : List Value
somebody = Value.integer (pos 7) ∷ Value.null ∷ []

abbrev three_rows : List (List Value)
three_rows = nobody ∷ ann ∷ somebody ∷ []

sort_rows-InPairs_example :
    Perm (sort_rows memory (some (1, true)) three_rows) three_rows
    × InPairs (AtMostIn 1 true) (sort_rows memory (some (1, true)) three_rows)
unfolding column_type
sort_rows-InPairs_example =
    sort_rows-InPairs memory 1 ColumnType.text true three_rows (
      (Value.null, refl, tt),
      ((Value.text (utf8 "Ann"), refl, refl), ((Value.null, refl, tt), tt)),
    )

abbrev unnamed : List Value → Bool
unnamed (id ∷ Value.null ∷ row) = true
unnamed _ = false

unnamed_null : (row : List Value) → unnamed row ≡ true → get_elem? row 1 ≡ some Value.null
unnamed_null [] h = cc
unnamed_null (id ∷ []) h = cc
unnamed_null (id ∷ Value.null ∷ row) h = refl
unnamed_null (id ∷ _ ∷ row) h = cc

picked-sort_rows_example :
    picked unnamed (sort_rows memory (some (1, true)) three_rows) ≡ nobody ∷ somebody ∷ []
picked-sort_rows_example = picked-sort_rows memory 1 true Value.null unnamed three_rows unnamed_null

-- A NULL comes last where the order is descending.
sort_run : sort_rows memory (some (1, true)) three_rows ≡ ann ∷ nobody ∷ somebody ∷ []
unfolding sort_rows sort_by insert_sorted sort_order
sort_run = refl

-- 300 = id, and n IS NULL AND 300 = id
abbrev id_is_300 : Expr
id_is_300 =
    Expr.binary (Expr.literal (Literal.integer (pos 300))) BinaryOp.eq (Expr.column (utf8 "id"))

abbrev id_and_null : Expr
id_and_null = Expr.binary (Expr.is_null (Expr.column (utf8 "n")) false) BinaryOp.and_op id_is_300

looks_up :
    access_path {S = ⊥} users (some id_and_null)
    ≡ ok (AccessPath.point_lookup (Value.integer (pos 300)))
unfolding access_path find pinned other_side is_key_constant eval literal_value primary_key_type
    utf8 bytes_eq
looks_up = refl

keeps_nobody : keeps_row {S = ⊥} (some id_and_null) users nobody ≡ ok true
unfolding keeps_row kept eval literal_value column_value position binary binary_of op_class logic
    as_bool comparison compare_values compare_ℤ holds utf8 bytes_eq
keeps_nobody = refl

access_path-keeps_row_example : get_elem? nobody users.primary_key ≡ some (Value.integer (pos 300))
access_path-keeps_row_example =
    access_path-keeps_row {S = ⊥} users users_IsSchema nobody (some id_and_null)
      (Value.integer (pos 300)) looks_up keeps_nobody
