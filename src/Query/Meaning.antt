-- ===== src/Query/Meaning.antt =====
-- What a WHERE clause means, of the values that the cells hold and not of the cells.
use go_msi.Prelude.{
  ℕ, ◌==◌, ◌&&◌, ◌||◌, not, if◌then◌else◌, Bool, true, false, [], Option, none, some, ◌<◌, ◌≡◌, ◌^◌,
}
use go_msi.Prelude.Int.{ℤ, pos}
use go_msi.Prelude.Text.{Str, eq_str}
use go_msi.Column.{Column, ColumnType, column_string, column_integer, column_binary, column_invalid}
use go_msi.Format.{decode_int}
use go_msi.Format.Ints.{IsCell}
use go_msi.Sql.{
  Expr, and, or, column_equal, comparison, is_null, CompareOp, op_equal, op_not_equal, op_less,
  op_less_equal, op_greater, op_greater_equal,
}
use go_msi.StringPool.{Pool, lookup}
use go_msi.Table.{Table, Row, cell_at, col_at}
use go_msi.Errors.{Error, Result, ok, err, or_value}
use go_msi.Convert.{Any, nil, normalize, int_value, string_value}
use go_msi.Query.{Query, Tuple, BoundCol, raw_of, column, literal, eq_ℤ, compare_int}
use go_msi.Query.Compile.{is_null_value}

-- A value: NULL, an integer, a text, or a stream, of which a query sees only that it is there.
pub data Datum : Type 0 where
  missing : Datum
  int : ℤ → Datum
  text : Str → Datum
  stream : ℕ → Datum

abbrev pub said_text : Option (Str × Bool) → Str
said_text (some (s, b)) = s
said_text none = []

-- The value of a cell that is not NULL, by its column's type and size.
abbrev pub typed_value : Pool → ColumnType → ℕ → ℕ → Datum
typed_value p column_integer size raw = int (decode_int raw size)
typed_value p column_string size raw = text (said_text (lookup p raw))
typed_value p column_binary size raw = stream raw
typed_value p column_invalid size raw = stream raw

abbrev pub value_at : Pool → ColumnType → ℕ → ℕ → Datum
value_at p type size raw = if raw == 0 then missing else typed_value p type size raw

-- The value of a cell.
abbrev pub datum : Pool → Column → ℕ → Datum
datum p c raw = value_at p c.type c.size raw

abbrev pub eq_datum : Datum → Datum → Bool
eq_datum missing missing = true
eq_datum (int a) (int b) = eq_ℤ a b
eq_datum (text s) (text t) = eq_str s t
eq_datum (stream a) (stream b) = a == b
eq_datum a b = false

-- An order holds between integers only.
abbrev pub in_order : CompareOp → Datum → Datum → Bool
in_order op (int a) (int b) = compare_int a b op
in_order op a b = false

-- NULL equals NULL and nothing else.
abbrev pub holds : CompareOp → Datum → Datum → Bool
holds op_equal a b = eq_datum a b
holds op_not_equal a b = not (eq_datum a b)
holds op_less a b = in_order op_less a b
holds op_less_equal a b = in_order op_less_equal a b
holds op_greater a b = in_order op_greater a b
holds op_greater_equal a b = in_order op_greater_equal a b

-- The value that a literal or an argument stands for beside a column.
abbrev pub typed_datum : ColumnType → Any → Datum
typed_datum column_integer lit = int (or_value (pos 0) (int_value lit 0x7fff_ffff))
typed_datum column_string lit = text (or_value [] (string_value lit))
typed_datum column_binary lit = missing
typed_datum column_invalid lit = missing

abbrev pub wanted : Column → Any → Datum
wanted c lit = if is_null_value lit then missing else typed_datum c.type lit

abbrev pub col_datum : Query → BoundCol → Tuple → Datum
col_datum q col u = datum q.db.pool col.column (raw_of col u)

-- A test on a column that a reference names.
abbrev pub with_column : Result Error BoundCol → (BoundCol → Bool) → Bool
with_column (ok col) test = test col
with_column (err e) test = false

abbrev pub evaluate : Query → Expr → Tuple → Bool
evaluate q (and a b) u = evaluate q a u && evaluate q b u
evaluate q (or a b) u = evaluate q a u || evaluate q b u
evaluate q (is_null ref inverted) u = with_column (column q ref) λ col.
    if inverted
    then not (eq_datum (col_datum q col u) missing)
    else eq_datum (col_datum q col u) missing
evaluate q (column_equal a b) u =
    with_column (column q a)
      λ l. with_column (column q b) λ r. eq_datum (col_datum q l u) (col_datum q r u)
evaluate q (comparison ref op v) u =
    with_column (column q ref) λ l.
      holds op (col_datum q l u) (wanted l.column (or_value nil (normalize (literal v q.args))))

-- A cell as a database keeps it: an integer column's is of its width, and a string column's is the
-- number of a string, or 0.
abbrev pub TypedCell : Pool → ColumnType → ℕ → ℕ → Type 0
TypedCell p column_integer size raw = IsCell size raw
TypedCell p column_string size raw = 0 < raw → (s : Str) × (lookup p raw ≡ some (s, true))
TypedCell p column_binary size raw = Unit {0}
TypedCell p column_invalid size raw = Unit {0}

abbrev pub GoodCell : Pool → Column → ℕ → Type 0
GoodCell p c raw = (raw < 2 ^ 32) × TypedCell p c.type c.size raw

abbrev pub GoodRow : Pool → Table → Row → Type 0
GoodRow p t rec = (i : ℕ) → GoodCell p (col_at t i) (cell_at rec i)
