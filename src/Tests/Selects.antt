-- ===== src/Tests/Selects.antt =====
-- Runs of SELECT with ORDER BY and DISTINCT, msidb/dml.go.
use go_msi.Prelude.{if◌then◌else◌, ℕ, ◌≡◌, refl, Bool, true, false, List, [], ◌∷◌, none, some}
use go_msi.Prelude.Text.{Str, bytes, eq_str}
use go_msi.Column.{Column, column_integer}
use go_msi.Sql.{ColumnRef, Select}
use go_msi.StringPool.{empty_pool}
use go_msi.Table.{Table, Row, new_table}
use go_msi.Errors.{or_value}
use go_msi.Query.{
  Source, Tuple, BoundCol, bind_col, new_query, find_tables, contains_str, find_column, names_cell,
  column, columns,
}
use go_msi.Query.Walk.{gather, walk, walk_rows, window}
use go_msi.Dml.{
  Rows, exec_select, restrict_by, result_columns, all_columns, table_columns, arrange, ordered_by,
  sort_tuples, place_tuple, less, distinct, distinct_from, project, tuples,
}
use go_msi.Dml.Order.{Arranged, arrange-Arranged}

abbrev int_column : Str → Bool → Bool → Column
int_column name key null = record {
  name = name;
  type = column_integer;
  size = 2;
  primary_key = key;
  nullable = null;
  localizable = false;
  temporary = false;
  table = [];
}

abbrev row : ℕ → ℕ → Row
row k v = record { cells = k ∷ v ∷ []; temporary = false }

abbrev table_a : Table
table_a =
    record (new_table (bytes "A")
      (int_column (bytes "K") true false ∷ int_column (bytes "V") false true ∷ [])) {
        records = row 1 9 ∷ row 2 5 ∷ row 3 9 ∷ row 4 5 ∷ [];
      }

abbrev source : Source
source = record {
  tables = λ s. if eq_str s (bytes "A") then some table_a else none;
  pool = empty_pool 1252 false;
}

abbrev value : ColumnRef
value = record { table = []; name = bytes "V" }

-- SELECT * FROM A ORDER BY V and SELECT DISTINCT V FROM A ORDER BY V
abbrev ordered : Select
ordered = record {
  distinct = false;
  columns = [];
  tables = bytes "A" ∷ [];
  condition = none;
  order_by = value ∷ [];
}

abbrev once : Select
once = record ordered { distinct = true; columns = value ∷ [] }

abbrev no_rows : Rows
no_rows = record { res = []; tabs = []; buf = [] }

abbrev one : ℕ → ℕ → Tuple
one k v = row k v ∷ []

ordered_run :
    (or_value no_rows (exec_select source ordered [])).buf
    ≡ one 2 5 ∷ one 4 5 ∷ one 1 9 ∷ one 3 9 ∷ []
unfolding exec_select new_query find_tables contains_str eq_str new_table restrict_by columns column
    find_column names_cell result_columns all_columns table_columns arrange ordered_by sort_tuples
    place_tuple less tuples gather walk walk_rows window
ordered_run = refl

once_run : (or_value no_rows (exec_select source once [])).buf ≡ one 2 5 ∷ one 1 9 ∷ []
unfolding exec_select new_query find_tables contains_str eq_str new_table restrict_by columns column
    find_column names_cell result_columns arrange ordered_by sort_tuples place_tuple less tuples
    distinct distinct_from project gather walk walk_rows window
once_run = refl

abbrev v : BoundCol
v = bind_col table_a 0 1

abbrev gathered : List Tuple
gathered = one 1 9 ∷ one 2 5 ∷ one 3 9 ∷ one 4 5 ∷ []

arrange-Arranged_example :
    Arranged (v ∷ []) true (v ∷ []) gathered (arrange (v ∷ []) true (v ∷ []) gathered)
arrange-Arranged_example = arrange-Arranged (v ∷ []) true (v ∷ []) gathered
