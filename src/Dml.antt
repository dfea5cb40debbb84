-- ===== src/Dml.antt =====
-- msidb/dml.go: SELECT on top of the queries, with ORDER BY and DISTINCT.
pub mod Sort
pub mod Distinct
pub mod Order
pub mod Combos
pub mod Shown
pub mod Answer
use go_msi.Prelude.{
  ℕ, zero, suc, ◌==◌, ◌&&◌, not, ltb, if◌then◌else◌, Bool, true, false, List, [], ◌∷◌, ◌++◌, Option,
  none, some, length, take, drop,
}
use go_msi.Prelude.Text.{Str, bytes, eq_str}
use go_msi.Sql
use go_msi.Table.{Table, Row}
use go_msi.Convert.{Any}
use go_msi.Errors.{Error, Result, ok, err, ◌>>=◌}
use go_msi.Query.{
  Source, Query, Tuple, BoundCol, bind_col, raw_of, contains_str, columns, new_query,
}
use go_msi.Query.Compile.{restrict}
use go_msi.Query.Walk.{gather}

-- `buf[i : i+stride]` for every i: the records gathered, tuple by tuple. There are at most as many
-- tuples as records.
unfoldable pub tuples : ℕ → ℕ → List Row → List Tuple
tuples zero stride buf = []
tuples (suc fuel) stride [] = []
tuples (suc fuel) stride (rec ∷ buf) =
    take stride (rec ∷ buf) ∷ tuples fuel stride (drop stride (rec ∷ buf))

-- The test of Less and of the comparison for one table: the first column that differs decides.
unfoldable pub less : List BoundCol → Tuple → Tuple → Bool
less [] a b = false
less (k ∷ ks) a b =
    let rest = less ks a b in
    if raw_of k a == raw_of k b then rest else ltb (raw_of k a) (raw_of k b)

-- A stable sort, as slices.SortStableFunc and sort.Stable promise it: a tuple goes before those that
-- are not less, of which all stood behind it.
unfoldable pub place_tuple : List BoundCol → Tuple → List Tuple → List Tuple
place_tuple keys x [] = x ∷ []
place_tuple keys x (y ∷ ys) =
    let rest = place_tuple keys x ys in if less keys y x then y ∷ rest else x ∷ y ∷ ys

unfoldable pub sort_tuples : List BoundCol → List Tuple → List Tuple
unfolding place_tuple
sort_tuples keys [] = []
sort_tuples keys (x ∷ xs) = place_tuple keys x (sort_tuples keys xs)

-- The cells that are shown. Four bytes of the source's key are one cell.
unfoldable pub project : List BoundCol → Tuple → List ℕ
project [] tuple = []
project (r ∷ rs) tuple = raw_of r tuple ∷ project rs tuple

-- The loop of distinct.
unfoldable pub distinct_from : List BoundCol → List (List ℕ) → List Tuple → List Tuple
distinct_from res seen [] = []
distinct_from res seen (x ∷ xs) =
    let old = distinct_from res seen xs in
    let new = distinct_from res (project res x ∷ seen) xs in
    if contains_str (project res x) seen then old else x ∷ new

unfoldable pub distinct : List BoundCol → List Tuple → List Tuple
unfolding distinct_from
distinct res xs = distinct_from res [] xs

-- `if len(order) > 0`
unfoldable pub ordered_by : List BoundCol → List Tuple → List Tuple
ordered_by [] xs = xs
ordered_by (k ∷ ks) xs = sort_tuples (k ∷ ks) xs

-- `if sel.Distinct`
unfoldable pub arrange : List BoundCol → Bool → List BoundCol → List Tuple → List Tuple
unfolding ordered_by
arrange order only_once res xs =
    if only_once then distinct res (ordered_by order xs) else ordered_by order xs

-- The columns of a table, for SELECT *.
unfoldable pub table_columns : Table → ℕ → ℕ → ℕ → List BoundCol
table_columns t i cell zero = []
table_columns t i cell (suc n) = bind_col t i cell ∷ table_columns t i (suc cell) n

unfoldable pub all_columns : ℕ → List Table → List BoundCol
unfolding table_columns
all_columns i [] = []
all_columns i (t ∷ ts) = table_columns t i 0 (length t.cols) ++ all_columns (suc i) ts

unfoldable pub result_columns : Query → List Sql.ColumnRef → Result Error (List BoundCol)
result_columns q [] = ok (all_columns 0 q.tables)
result_columns q (ref ∷ refs) = columns q (ref ∷ refs)

unfoldable pub restrict_by : Query → Option Sql.Expr → Result Error Query
restrict_by q none = ok q
restrict_by q (some e) = restrict q e

-- What execSelect fills of Rows. The position is before the first row, and there is no error yet.
pub record Rows : Type 0 where
  pub res : List BoundCol
  pub tabs : List Table
  pub buf : List Tuple

abbrev pub rows_of : Query → List BoundCol → Bool → List BoundCol → Rows
rows_of q order only_once res = record {
  res = res;
  tabs = q.tables;
  buf = arrange order only_once res (tuples (length (gather q)) (length q.tables) (gather q));
}

unfoldable pub exec_select : Source → Sql.Select → List Any → Result Error Rows
unfolding new_query restrict_by result_columns
exec_select db sel args = do
  q ← new_query db (bytes "query") sel.tables args
  r ← restrict_by q sel.condition
  order ← columns r sel.order_by
  res ← result_columns r sel.columns
  ok (rows_of r order sel.distinct res)
