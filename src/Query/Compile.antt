-- ===== src/Query/Compile.antt =====
-- msidb/query.go: the WHERE clause, compiled.
use go_msi.Prelude.{
  ℕ, ◌^◌, ◌%◌, ◌==◌, ◌||◌, ◌&&◌, not, ltb, if◌then◌else◌, Bool, true, false, [], Option, none, some,
  get_or, set, max,
}
use go_msi.Prelude.Int.{ℤ, pos, negsuc}
use go_msi.Prelude.Text.{eq_str}
use go_msi.Column.{Column, ColumnType, column_string, column_integer, column_binary, column_invalid}
use go_msi.Sql.{
  ColumnRef, Expr, and, or, column_equal, comparison, is_null, Value, CompareOp, op_equal,
  op_not_equal, op_less, op_less_equal, op_greater, op_greater_equal,
}
use go_msi.StringPool.{lookup_id}
use go_msi.Errors.{
  Problem, Error, new_col_error, Result, ok, err, ◌>>=◌, wrap, incomparable, null_operator,
  string_operator, cannot_compare,
}
use go_msi.Convert.{Any, nil, text, normalize, int_value, string_value}
use go_msi.Query.{
  Tuple, BoundCol, raw_of, ordinal, ordinal_of, Scan, no_scan, Query, column, table_at, first_key,
  literal, eq_ℤ, compare_int,
}

-- `level` is the deepest table read.
pub record Cond : Type 0 where
  pub level : ℕ
  pub match : Tuple → Bool
  pub seek : Option (Tuple → ℤ)

abbrev pub is_equality : CompareOp → Bool
is_equality op_equal = true
is_equality op_not_equal = true
is_equality op_less = false
is_equality op_less_equal = false
is_equality op_greater = false
is_equality op_greater_equal = false

-- `op == sql.OpEqual`
abbrev pub is_equal_op : CompareOp → Bool
is_equal_op op_equal = true
is_equal_op op_not_equal = false
is_equal_op op_less = false
is_equal_op op_less_equal = false
is_equal_op op_greater = false
is_equal_op op_greater_equal = false

-- `if id, ok := …LookupID(s); ok`, with an ordinal that no cell has for a string that is not there.
abbrev pub id_or_none : ℕ × Bool → ℤ
id_or_none (id, true) = pos id
id_or_none (id, false) = negsuc 0

-- The switch of `constant` on the column's type.
unfoldable pub typed_constant : Query → ColumnType → CompareOp → Any → Result Problem ℤ
typed_constant q column_integer op lit = int_value lit 0x7fff_ffff
typed_constant q column_string op lit =
    if is_equality op
    then (do s ← string_value lit; ok (id_or_none (lookup_id q.db.pool s)))
    else err string_operator
typed_constant q column_binary op lit = err (cannot_compare column_binary)
typed_constant q column_invalid op lit = err (cannot_compare column_invalid)

-- `lit == nil || lit == ""`
unfoldable pub is_null_value : Any → Bool
is_null_value nil = true
is_null_value (text s) = eq_str s []
is_null_value v = false

-- `constant` behind normalize.
unfoldable pub plain_constant : Query → Column → CompareOp → Any → Result Problem ℤ
unfolding typed_constant is_null_value
plain_constant q c op lit =
    if is_null_value lit
    then (if is_equality op then ok (ordinal c 0) else err null_operator)
    else typed_constant q c.type op lit

unfoldable pub constant : Query → BoundCol → CompareOp → Any → Result Problem ℤ
unfolding plain_constant
constant q col op lit = do v ← normalize lit; plain_constant q col.column op v

abbrev pub is_integer : ColumnType → Bool
is_integer column_integer = true
is_integer column_string = false
is_integer column_binary = false
is_integer column_invalid = false

-- `tuple[l.table][l.cell] == uint32(v)`, for a v that is not negative.
abbrev pub is_raw : ℕ → ℤ → Bool
is_raw raw (pos n) = raw == n % 2 ^ 32
is_raw raw (negsuc n) = false

abbrev pub iff : Bool → Bool → Bool
iff true b = b
iff false b = not b

-- The match of a comparison, on the column's cell.
unfoldable pub compares : Column → CompareOp → ℤ → ℕ → Bool
unfolding compare_int
compares c op v raw =
    if not (is_integer c.type)
    then iff (is_raw raw v) (is_equal_op op)
    else if not (is_equality op)
    then not (raw == 0) && compare_int (ordinal c raw) v op
    else compare_int (ordinal c raw) v op

abbrev pub comparison_cond : Query → BoundCol → CompareOp → ℤ → Cond
comparison_cond q l op v = record {
  level = l.table;
  match = λ tuple. compares l.column op v (raw_of l tuple);
  seek = if is_equal_op op && first_key q l then some (λ tuple. v) else none;
}

unfoldable pub compile_comparison : Query → ColumnRef → CompareOp → Value → Result Error Cond
unfolding compares
compile_comparison q ref op value = do
  l ← column q ref
  v ←
      wrap (new_col_error q.op (table_at q l.table) l.column)
        (constant q l op (literal value q.args))
  ok (comparison_cond q l op v)

unfoldable pub same_type : ColumnType → ColumnType → Bool
same_type column_integer column_integer = true
same_type column_string column_string = true
same_type column_binary column_binary = true
same_type column_invalid column_invalid = true
same_type a b = false

abbrev pub is_binary : ColumnType → Bool
is_binary column_integer = false
is_binary column_string = false
is_binary column_binary = true
is_binary column_invalid = false

abbrev pub deep_of : BoundCol → BoundCol → BoundCol
deep_of l r = if ltb l.table r.table then r else l

abbrev pub shallow_of : BoundCol → BoundCol → BoundCol
shallow_of l r = if ltb l.table r.table then l else r

abbrev pub equal_cond : Query → BoundCol → BoundCol → Cond
equal_cond q l r = record {
  level = (deep_of l r).table;
  match = λ tuple. eq_ℤ (ordinal_of l tuple) (ordinal_of r tuple);
  seek =
      if ltb (shallow_of l r).table (deep_of l r).table && first_key q (deep_of l r)
      then some (ordinal_of (shallow_of l r))
      else none;
}

unfoldable pub equal_or_refuse : Query → BoundCol → BoundCol → Result Error Cond
unfolding same_type
equal_or_refuse q l r =
    if not (same_type l.column.type r.column.type) || is_binary l.column.type
    then err (
        new_col_error q.op (table_at q l.table) l.column (incomparable l.column.type r.column.type))
    else ok (equal_cond q l r)

unfoldable pub compile_column_equal : Query → ColumnRef → ColumnRef → Result Error Cond
unfolding equal_or_refuse
compile_column_equal q left right = do l ← column q left; r ← column q right; equal_or_refuse q l r

-- `inverted` is the NOT of IS NOT NULL.
abbrev pub null_cond : Query → BoundCol → Bool → Cond
null_cond q col inverted = record {
  level = col.table;
  match = λ tuple. not (iff (raw_of col tuple == 0) inverted);
  seek = if not inverted && first_key q col then some (λ tuple. ordinal col.column 0) else none;
}

unfoldable pub compile_is_null : Query → ColumnRef → Bool → Result Error Cond
compile_is_null q ref inverted = do col ← column q ref; ok (null_cond q col inverted)

abbrev pub and_cond : Cond → Cond → Cond
and_cond l r = record {
  level = max l.level r.level;
  match = λ tuple. l.match tuple && r.match tuple;
  seek = none;
}

abbrev pub or_cond : Cond → Cond → Cond
or_cond l r = record {
  level = max l.level r.level;
  match = λ tuple. l.match tuple || r.match tuple;
  seek = none;
}

unfoldable pub compile : Query → Expr → Result Error Cond
unfolding compile_comparison compile_column_equal compile_is_null
compile q (and a b) = do l ← compile q a; r ← compile q b; ok (and_cond l r)
compile q (or a b) = do l ← compile q a; r ← compile q b; ok (or_cond l r)
compile q (is_null ref inverted) = compile_is_null q ref inverted
compile q (column_equal l r) = compile_column_equal q l r
compile q (comparison ref op v) = compile_comparison q ref op v

-- `prev(tuple) && match(tuple)`, where there is a match already.
abbrev pub add_match : Option (Tuple → Bool) → (Tuple → Bool) → Tuple → Bool
add_match none match tuple = match tuple
add_match (some prev) match tuple = prev tuple && match tuple

abbrev pub add_seek : Option (Tuple → ℤ) → Option (Tuple → ℤ) → Option (Tuple → ℤ)
add_seek none seek = seek
add_seek (some prev) seek = some prev

unfoldable pub add_cond : Scan → Cond → Scan
add_cond s c = record { seek = add_seek s.seek c.seek; match = some (add_match s.match c.match) }

abbrev pub add_at : Query → Cond → Query
add_at q c = record q { scans = set q.scans c.level (add_cond (get_or q.scans c.level no_scan) c) }

-- query.where, of a term that is not an AND.
unfoldable pub add_term : Query → Expr → Result Error Query
unfolding compile add_cond
add_term q e = do c ← compile q e; ok (add_at q c)

-- query.where
unfoldable pub restrict : Query → Expr → Result Error Query
unfolding add_term
restrict q (and a b) = do r ← restrict q a; restrict r b
restrict q (or a b) = add_term q (or a b)
restrict q (is_null ref inverted) = add_term q (is_null ref inverted)
restrict q (column_equal l r) = add_term q (column_equal l r)
restrict q (comparison ref op v) = add_term q (comparison ref op v)
