-- ===== src/Table.antt =====
-- msidb/table.go: tables, with the records in the order of their keys.
pub mod Keys
pub mod Find
pub mod Insert
use go_msi.Prelude.{
  ℕ, zero, suc, ◌==◌, ◌&&◌, not, ltb, if◌then◌else◌, Bool, true, false, List, [], ◌∷◌, ◌++◌, Option,
  none, some, length, get_or,
}
use go_msi.Prelude.Text.{Str, eq_str}
use go_msi.Column.{Column, column_string, column_integer, column_binary, column_invalid}
use go_msi.Search.{first_index}

-- A record: its cells, and whether its backing array is in the table's `temp`.
pub record Row : Type 0 where
  pub cells : List ℕ
  pub temporary : Bool

-- A slot of a tuple that no record was chosen for yet.
abbrev pub no_row : Row
no_row = record { cells = []; temporary = false }

-- rec[i]. No code reads behind the last column: there Go would panic.
abbrev pub cell_at : Row → ℕ → ℕ
cell_at r i = get_or r.cells i 0

-- The map byName is a function. `moved` and the counters serve open Rows.
pub record Table : Type 0 where
  pub name : Str
  pub cols : List Column
  pub by_name : Str → Option ℕ
  pub keys : List ℕ
  pub records : List Row

-- The column at an index; behind the last one Go would panic.
abbrev pub no_column : Column
no_column = record {
  name = [];
  type = column_invalid;
  size = 0;
  primary_key = false;
  nullable = false;
  localizable = false;
  temporary = false;
  table = [];
}

abbrev pub col_at : Table → ℕ → Column
col_at t i = get_or t.cols i no_column

-- `t.byName[c.Name] = i`
unfoldable pub name_set : Str → ℕ → (Str → Option ℕ) → Str → Option ℕ
name_set s i names t = if eq_str t s then some i else names t

-- The loop of newTable.
unfoldable pub add_columns : ℕ → List Column → Table → Table
unfolding name_set
add_columns i [] t = t
add_columns i (c ∷ cs) t = add_columns (suc i) cs (record t {
  by_name = name_set c.name i t.by_name;
  keys = if c.primary_key then t.keys ++ (i ∷ []) else t.keys;
})

unfoldable pub new_table : Str → List Column → Table
unfolding add_columns
new_table name cols =
    add_columns 0 cols
      (record { name = name; cols = cols; by_name = λ s. none; keys = []; records = [] })

-- What compareKeys tells of two records.
pub data Order : Type 0 where
  before same after : Order

-- cmp.Compare
abbrev pub compare_cells : ℕ → ℕ → Order
compare_cells a b = if ltb a b then before else if a == b then same else after

unfoldable pub compare_keys : List ℕ → Row → Row → Order
compare_keys [] a b = same
compare_keys (i ∷ is) a b =
    let rest = compare_keys is a b in
    elim (compare_cells (cell_at a i) (cell_at b i)) [
      | before ↦ before
      | same ↦ rest
      | after ↦ after
    ]

abbrev pub is_before : Order → Bool
is_before before = true
is_before same = false
is_before after = false

abbrev pub is_same : Order → Bool
is_same before = false
is_same same = true
is_same after = false

abbrev pub record_at : Table → ℕ → Row
record_at t i = get_or t.records i no_row

-- find, by slices.BinarySearchFunc.
unfoldable pub find : Table → Row → ℕ × Bool
unfolding compare_keys first_index
find t rec =
    let i =
      first_index (length t.records)
        (λ k. not (is_before (compare_keys t.keys (record_at t k) rec))) in
    (i, ltb i (length t.records) && is_same (compare_keys t.keys (record_at t i) rec))

-- slices.Insert of one record; behind the end Go would panic.
unfoldable pub insert_at : ℕ → Row → List Row → List Row
insert_at zero rec rows = rec ∷ rows
insert_at (suc i) rec [] = rec ∷ []
insert_at (suc i) rec (r ∷ rows) = r ∷ insert_at i rec rows

-- `t.cols[0].Temporary`, negated.
unfoldable pub persistent : Table → Bool
persistent t = not (col_at t 0).temporary

unfoldable pub cell_persistent : Row → Column → Bool
cell_persistent rec c = if c.temporary then false else not rec.temporary

-- The loop of hasBinary, at the column i.
unfoldable pub has_binary_from : ℕ → List Column → Row → Bool
has_binary_from i [] rec = false
has_binary_from i (c ∷ cs) rec =
    let rest = has_binary_from (suc i) cs rec in
    elim c.type [
      | column_binary ↦ if cell_at rec i == 0 then rest else true
      | column_string ↦ rest
      | column_integer ↦ rest
      | column_invalid ↦ rest
    ]

unfoldable pub has_binary : List Column → Row → Bool
has_binary cols rec = has_binary_from 0 cols rec
