-- ===== src/Sql/Parser/Stmt.antt =====
-- internal/sql/parse.go and Parse of internal/sql/sql.go: the statements.
use go_msi.Prelude.{
  ℕ, zero, suc, ◌+◌, ◌*◌, ◌==◌, ◌&&◌, leb, not, if◌then◌else◌, Bool, true, false, List, [], ◌∷◌,
  Option, none, some, length,
}
use go_msi.Prelude.Int.{ℤ, pos, negsuc}
use go_msi.Prelude.Text.{Str, bytes, eq_str}
use go_msi.Sql.{
  ColumnRef, Value, Expr, DataType, type_char, type_long_char, type_short, type_int, type_long,
  type_object, ColumnDef, Assignment, AlterAction, alter_hold, alter_free, alter_add, Stmt, select,
  insert, update, delete, create_table, alter_table, drop_table,
}
use go_msi.Sql.Token.{
  Token, kind_eof, kind_int, kind_l_paren, kind_r_paren, kind_comma, kind_star, kind_eq, kw_add,
  kw_alter, kw_by, kw_char, kw_create, kw_delete, kw_distinct, kw_drop, kw_free, kw_from, kw_hold,
  kw_insert, kw_int, kw_into, kw_key, kw_localizable, kw_long, kw_longchar, kw_not, kw_null,
  kw_object, kw_order, kw_primary, kw_select, kw_set, kw_short, kw_table, kw_temporary, kw_update,
  kw_values, kw_where,
}
use go_msi.Sql.Scan.{expected, expected_values, plain, scan}
use go_msi.Sql.Parser.{
  Parser, M, Outcome, ◌>>=◌, ◌>>◌, pure, current, skip, accept, errorf, expect, parse_name,
  parse_column_ref, comma_list, atoi, parse_value,
}
use go_msi.Sql.Parser.Expr.{parse_expr}

unfoldable pub parse_table_list : ℕ → M (List Str)
parse_table_list fuel = comma_list fuel (parse_name (bytes "table name"))

-- `if p.accept(kwWHERE) { ... parseExpr }`
unfoldable pub where_after : ℕ → Bool → M (Option Expr)
where_after fuel true = do e ← parse_expr fuel; pure (some e)
where_after fuel false = pure none

unfoldable pub parse_where : ℕ → M (Option Expr)
parse_where fuel = accept kw_where >>= where_after fuel

unfoldable pub columns_after : ℕ → Bool → M (List ColumnRef)
columns_after fuel true = pure []
columns_after fuel false = comma_list fuel parse_column_ref

unfoldable pub order_after : ℕ → Bool → M (List ColumnRef)
order_after fuel true = do expect kw_by (bytes "'BY'"); comma_list fuel parse_column_ref
order_after fuel false = pure []

unfoldable pub parse_select : ℕ → M Stmt
parse_select fuel = do
  skip
  distinct ← accept kw_distinct
  star ← accept kind_star
  columns ← columns_after fuel star
  expect kw_from (bytes "'FROM'")
  tables ← parse_table_list fuel
  condition ← parse_where fuel
  ordered ← accept kw_order
  order_by ← order_after fuel ordered
  pure (
      select (record {
        distinct = distinct;
        columns = columns;
        tables = tables;
        condition = condition;
        order_by = order_by;
      }))

-- A column of INSERT may be qualified by the statement's own table alone.
unfoldable pub own_column : Str → Token → ColumnRef → M Str
own_column table t col =
    if not (eq_str col.table []) && not (eq_str col.table table)
    then errorf t (expected table)
    else pure col.name

unfoldable pub insert_column : Str → M Str
insert_column table = do t ← current; col ← parse_column_ref; own_column table t col

unfoldable pub wrong_count : ℕ → M (List Value)
wrong_count total = do t ← current; errorf t (expected_values total)

-- What follows a value when `left` more are wanted.
unfoldable pub values_after : ℕ → ℕ → Value → M (List Value) → Bool → M (List Value)
values_after total left v more true = do vs ← more; pure (v ∷ vs)
values_after total zero v more false = pure (v ∷ [])
values_after total (suc left) v more false = wrong_count total

-- The values of INSERT, as many as there are columns: `left` are still wanted, of `total`.
unfoldable pub values_list : ℕ → ℕ → M (List Value)
values_list total zero p = wrong_count total p
values_list total (suc left) p =
    (do
      v ← parse_value
      comma ← accept kind_comma
      values_after total left v (values_list total left) comma)
      p

unfoldable pub parse_insert : ℕ → M Stmt
parse_insert fuel = do
  skip
  expect kw_into (bytes "'INTO'")
  table ← parse_name (bytes "table name")
  expect kind_l_paren (bytes "'('")
  columns ← comma_list fuel (insert_column table)
  expect kind_r_paren (bytes "')'")
  expect kw_values (bytes "'VALUES'")
  expect kind_l_paren (bytes "'('")
  values ← values_list (length columns) (length columns)
  expect kind_r_paren (bytes "')'")
  temporary ← accept kw_temporary
  pure
      (insert (record { table = table; columns = columns; values = values; temporary = temporary }))

unfoldable pub parse_assignment : M Assignment
parse_assignment = do
  col ← parse_column_ref
  expect kind_eq (bytes "'='")
  v ← parse_value
  pure (record { column = col; value = v })

unfoldable pub parse_update : ℕ → M Stmt
parse_update fuel = do
  skip
  tables ← parse_table_list fuel
  expect kw_set (bytes "'SET'")
  set ← comma_list fuel parse_assignment
  condition ← parse_where fuel
  pure (update (record { tables = tables; set = set; condition = condition }))

unfoldable pub parse_delete : ℕ → M Stmt
parse_delete fuel = do
  skip
  expect kw_from (bytes "'FROM'")
  table ← parse_name (bytes "table name")
  condition ← parse_where fuel
  pure (delete (record { table = table; condition = condition }))

-- `n < 0 || n > 255`, or a number that Atoi refuses
unfoldable pub width_of : Token → Option ℤ → M ℕ
width_of t none = errorf t (plain (bytes "column width must be 0-255"))
width_of t (some (negsuc n)) = errorf t (plain (bytes "column width must be 0-255"))
width_of t (some (pos n)) =
    if leb n 255 then pure n else errorf t (plain (bytes "column width must be 0-255"))

unfoldable pub parse_width : M ℕ
parse_width = do t ← expect kind_int (bytes "column width"); width_of t (atoi t.text)

unfoldable pub width_after : Bool → M ℕ
width_after true = do n ← parse_width; expect kind_r_paren (bytes "')'"); pure n
width_after false = pure 0

-- The type of a column, with its size.
abbrev pub Typed : Type 0
Typed = DataType × ℕ

unfoldable pub column_type_of : Token → M Typed
column_type_of t =
    if t.kind == kw_char
    then (do skip; sized ← accept kind_l_paren; n ← width_after sized; pure (type_char, n))
    else if t.kind == kw_longchar
    then skip >> pure (type_long_char, 0)
    else if t.kind == kw_short
    then skip >> pure (type_short, 0)
    else if t.kind == kw_int
    then skip >> pure (type_int, 0)
    else if t.kind == kw_long
    then skip >> pure (type_long, 0)
    else if t.kind == kw_object
    then skip >> pure (type_object, 0)
    else errorf t (expected (bytes "column type"))

unfoldable pub not_null_after : Bool → M Bool
not_null_after true = do expect kw_null (bytes "'NULL'"); pure true
not_null_after false = pure false

unfoldable pub parse_column_def : M ColumnDef
parse_column_def = do
  name ← parse_name (bytes "column name")
  t ← current
  typed ← column_type_of t
  negated ← accept kw_not
  not_null ← not_null_after negated
  temporary ← accept kw_temporary
  localizable ← accept kw_localizable
  pure (record {
    name = name;
    type = typed.0;
    size = typed.1;
    not_null = not_null;
    localizable = localizable;
    temporary = temporary;
  })

unfoldable pub parse_create : ℕ → M Stmt
parse_create fuel = do
  skip
  expect kw_table (bytes "'TABLE'")
  table ← parse_name (bytes "table name")
  expect kind_l_paren (bytes "'('")
  columns ← comma_list fuel parse_column_def
  expect kw_primary (bytes "',' or 'PRIMARY KEY'")
  expect kw_key (bytes "'KEY'")
  keys ← comma_list fuel (parse_name (bytes "key column name"))
  expect kind_r_paren (bytes "')'")
  hold ← accept kw_hold
  pure (create_table (record { table = table; columns = columns; primary_key = keys; hold = hold }))

unfoldable pub alter_action_of : Token → M AlterAction
alter_action_of t =
    if t.kind == kw_hold
    then skip >> pure alter_hold
    else if t.kind == kw_free
    then skip >> pure alter_free
    else if t.kind == kw_add
    then (do skip; cd ← parse_column_def; hold ← accept kw_hold; pure (alter_add cd hold))
    else errorf t (plain (bytes "expected 'HOLD', 'FREE', or 'ADD'"))

unfoldable pub parse_alter : M Stmt
parse_alter = do
  skip
  expect kw_table (bytes "'TABLE'")
  table ← parse_name (bytes "table name")
  t ← current
  action ← alter_action_of t
  pure (alter_table (record { table = table; action = action }))

unfoldable pub parse_drop : M Stmt
parse_drop = do
  skip
  expect kw_table (bytes "'TABLE'")
  table ← parse_name (bytes "table name")
  pure (drop_table table)

-- The switch of parser.parse on the first token.
unfoldable pub statement_of : ℕ → Token → M Stmt
statement_of fuel t =
    if t.kind == kw_select
    then parse_select fuel
    else if t.kind == kw_insert
    then parse_insert fuel
    else if t.kind == kw_update
    then parse_update fuel
    else if t.kind == kw_delete
    then parse_delete fuel
    else if t.kind == kw_create
    then parse_create fuel
    else if t.kind == kw_alter
    then parse_alter
    else if t.kind == kw_drop
    then parse_drop
    else errorf t (plain (bytes "expected statement keyword"))

-- The end of the input must follow.
unfoldable pub at_end : Stmt → Token → M Stmt
at_end stmt t =
    if t.kind == kind_eof then pure stmt else errorf t (plain (bytes "unexpected trailing input"))

unfoldable pub parse_statement : ℕ → M Stmt
parse_statement fuel = do
  first ← current
  stmt ← statement_of fuel first
  last ← current
  at_end stmt last

-- The first token is scanned before the parser starts.
unfoldable pub start : Str → Parser
start sql =
    let (t, sc) = scan (record { rest = sql; pos = 0; err = none }) in
    record { sc = sc; tok = t; params = 0 }

unfoldable pub parse_fuel : Str → ℕ
parse_fuel sql = 3 * length sql + 6

-- Parse of sql.go.
unfoldable pub parse : Str → Outcome Stmt
unfolding parse_fuel
parse sql = parse_statement (parse_fuel sql) (start sql)
