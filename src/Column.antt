-- ===== src/Column.antt =====
-- msidb/column.go: a column of a table and its type.
use go_msi.Prelude.{ℕ, Bool}
use go_msi.Prelude.Text.{Str, bytes}

pub data ColumnType : Type 0 where
  column_invalid column_string column_integer column_binary : ColumnType

-- The source's Size is an int that no code path makes negative.
pub record Column : Type 0 where
  pub name : Str
  pub type : ColumnType
  pub size : ℕ
  pub primary_key : Bool
  pub nullable : Bool
  pub localizable : Bool
  pub temporary : Bool
  pub table : Str

-- ColumnType.String
unfoldable pub column_type_name : ColumnType → Str
column_type_name column_string = bytes "string"
column_type_name column_integer = bytes "integer"
column_type_name column_binary = bytes "binary"
column_type_name column_invalid = bytes "invalid"
