-- ===== src/Query.antt =====
-- msidb/query.go: the records that a statement reads. Here its columns are resolved; the WHERE
-- clause is compiled and the records are walked in the two children.
pub mod Compile
pub mod Walk
pub mod Select
pub mod Window
pub mod Levels
pub mod Gather
pub mod Resolve
pub mod Named
pub mod Columns
pub mod Constants
pub mod Honest
pub mod Compiled
pub mod Scans
pub mod Restrict
pub mod Meaning
pub mod Cells
pub mod Texts
pub mod Where
pub mod Evaluate
pub mod Stored
pub mod Kept
pub mod Sorted
pub mod Answer
use go_msi.Prelude.{
  ℕ, zero, suc, ◌+◌, ◌-◌, ◌^◌, ◌==◌, ◌||◌, ◌&&◌, not, ltb, leb, if◌then◌else◌, Bool, true, false,
  List, [], ◌∷◌, ◌++◌, Option, none, some, length, get_or, set, take, drop, replicate, map, max,
}
use go_msi.Prelude.Int.{ℤ, pos, negsuc, pos_part, neg_part, ltb_ℤ}
use go_msi.Prelude.Text.{Str, bytes, eq_str}
use go_msi.Column.{Column, ColumnType, column_string, column_integer, column_binary, column_invalid}
use go_msi.Format.{decode_int}
use go_msi.Search.{first_index}
use go_msi.Sql.{
  ColumnRef, Expr, and, or, column_equal, comparison, is_null, Value, int_lit, string_lit, marker,
  null, CompareOp, op_equal, op_not_equal, op_less, op_less_equal, op_greater, op_greater_equal,
}
use go_msi.StringPool.{Pool, lookup_id}
use go_msi.Table.{Table, Row, no_row, cell_at, col_at}
use go_msi.Errors.{
  Problem, Error, new_error, new_col_error, Result, ok, err, ◌>>=◌, wrap, not_exist,
  duplicate_table, ambiguous_column, not_in_table_list, incomparable, null_operator,
  string_operator, cannot_compare,
}
use go_msi.Convert.{Any, nil, text, number, normalize, int_value, string_value}

-- A record of each of a statement's tables.
abbrev pub Tuple : Type 0
Tuple = List Row

pub record BoundCol : Type 0 where
  pub column : Column
  pub table : ℕ
  pub cell : ℕ

abbrev pub raw_of : BoundCol → Tuple → ℕ
raw_of col tuple = cell_at (get_or tuple col.table no_row) col.cell

abbrev pub min_int32 : ℤ
min_int32 = negsuc 2147483647

unfoldable pub ordinal : Column → ℕ → ℤ
ordinal c raw = elim c.type [
  | column_integer ↦ if raw == 0 then min_int32 else decode_int raw c.size
  | column_string ↦ pos raw
  | column_binary ↦ pos raw
  | column_invalid ↦ pos raw
]

-- boundCol.ordinal
abbrev pub ordinal_of : BoundCol → Tuple → ℤ
ordinal_of col tuple = ordinal col.column (raw_of col tuple)

pub record Scan : Type 0 where
  pub seek : Option (Tuple → ℤ)
  pub match : Option (Tuple → Bool)

-- What a query reads of a database.
pub record Source : Type 0 where
  pub tables : Str → Option Table
  pub pool : Pool

pub record Query : Type 0 where
  pub db : Source
  pub op : Str
  pub tables : List Table
  pub args : List Any
  pub scans : List Scan

unfoldable pub contains_str : Str → List Str → Bool
contains_str s [] = false
contains_str s (t ∷ ts) = eq_str t s || contains_str s ts

-- The loop of `query`; `seen` are the names before.
unfoldable pub find_tables : Source → Str → List Str → List Str → Result Error (List Table)
unfolding contains_str
find_tables db op seen [] = ok []
find_tables db op seen (name ∷ names) =
    let rest = find_tables db op (seen ++ (name ∷ [])) names in
    elim (db.tables name) [
      | none ↦ err (new_error op name not_exist)
      | some t ↦
          if contains_str name seen
          then err (new_error op name duplicate_table)
          else (do ts ← rest; ok (t ∷ ts))
    ]

abbrev pub no_scan : Scan
no_scan = record { seek = none; match = none }

abbrev pub fresh_query : Source → Str → List Any → List Table → Query
fresh_query db op args ts = record {
  db = db;
  op = op;
  tables = ts;
  args = args;
  scans = replicate (length ts) no_scan;
}

unfoldable pub new_query : Source → Str → List Str → List Any → Result Error Query
unfolding find_tables
new_query db op names args = do ts ← find_tables db op [] names; ok (fresh_query db op args ts)

abbrev pub bind_col : Table → ℕ → ℕ → BoundCol
bind_col t i cell = record { column = col_at t cell; table = i; cell = cell }

-- `!ok || (ref.Table != "" && ref.Table != t.name)`, negated: the cell that the reference names.
unfoldable pub names_cell : ColumnRef → Table → Option ℕ
names_cell ref t = elim (t.by_name ref.name) [
  | none ↦ none
  | some cell ↦
      if not (eq_str ref.table []) && not (eq_str ref.table t.name) then none else some cell
]

-- The loop of `column`, at the table i.
unfoldable pub find_column :
    Str → ColumnRef → ℕ → List Table → Option BoundCol → Result Error (Option BoundCol)
unfolding names_cell
find_column op ref i [] found = ok found
find_column op ref i (t ∷ ts) found =
    let skip = find_column op ref (suc i) ts found in
    elim (names_cell ref t) [
      | none ↦ skip
      | some cell ↦ elim found [
        | some col ↦ err (new_error op ref.name ambiguous_column)
        | none ↦ find_column op ref (suc i) ts (some (bind_col t i cell))
      ]
    ]

unfoldable pub has_table : Str → List Table → Bool
has_table name [] = false
has_table name (t ∷ ts) = eq_str t.name name || has_table name ts

unfoldable pub qualified_name : ColumnRef → List Table → Str
qualified_name ref ts =
    if not (eq_str ref.table []) then ref.table ++ (bytes "." ++ ref.name) else elim ts [
      | [] ↦ ref.name
      | t ∷ [] ↦ t.name ++ (bytes "." ++ ref.name)
      | t ∷ u ∷ us ↦ ref.name
    ]

-- The error of `column` for a reference that names no column.
unfoldable pub missing_column : Query → ColumnRef → Error
unfolding has_table qualified_name
missing_column q ref =
    if not (eq_str ref.table []) && not (has_table ref.table q.tables)
    then elim (q.db.tables ref.table) [
      | some t ↦ new_error q.op ref.table not_in_table_list
      | none ↦ new_error q.op ref.table not_exist
    ]
    else new_error q.op (qualified_name ref q.tables) not_exist

abbrev pub or_missing : Query → ColumnRef → Option BoundCol → Result Error BoundCol
or_missing q ref none = err (missing_column q ref)
or_missing q ref (some col) = ok col

-- query.column
unfoldable pub column : Query → ColumnRef → Result Error BoundCol
unfolding find_column missing_column
column q ref = do found ← find_column q.op ref 0 q.tables none; or_missing q ref found

-- query.columns
unfoldable pub columns : Query → List ColumnRef → Result Error (List BoundCol)
unfolding column
columns q [] = ok []
columns q (ref ∷ refs) = do col ← column q ref; cols ← columns q refs; ok (col ∷ cols)

abbrev pub no_table : Table
no_table = record { name = []; cols = []; by_name = λ s. none; keys = []; records = [] }

abbrev pub table_at : Query → ℕ → Table
table_at q i = get_or q.tables i no_table

unfoldable pub first_key : Query → BoundCol → Bool
first_key q col = col.column.primary_key && get_or (table_at q col.table).keys 0 0 == col.cell

-- `literal`; the parser has numbered every marker below the number of arguments.
unfoldable pub literal : Value → List Any → Any
literal (int_lit n) args = number n
literal (string_lit s) args = text s
literal (marker n) args = get_or args n nil
literal null args = nil

abbrev pub eq_ℤ : ℤ → ℤ → Bool
eq_ℤ a b = pos_part a + neg_part b == pos_part b + neg_part a

abbrev pub leb_ℤ : ℤ → ℤ → Bool
leb_ℤ a b = leb (pos_part a + neg_part b) (pos_part b + neg_part a)

unfoldable pub compare_int : ℤ → ℤ → CompareOp → Bool
compare_int a b op_equal = eq_ℤ a b
compare_int a b op_not_equal = not (eq_ℤ a b)
compare_int a b op_less = ltb_ℤ a b
compare_int a b op_less_equal = leb_ℤ a b
compare_int a b op_greater = ltb_ℤ b a
compare_int a b op_greater_equal = leb_ℤ b a
