-- ===== src/Query/Evaluate.antt =====
-- The compiled WHERE clause of msidb/query.go means what the clause says of the values.
use go_msi.Prelude.{
  ℕ, ◌==◌, ◌&&◌, ◌||◌, not, if◌then◌else◌, Bool, true, false, ◌<◌, ◌≡◌, refl, ap, sym, ◌∙◌, inl,
  inr, Bool-cases, arith, length, get_or,
}
use mathlib.Core.Path.{subst}
use go_msi.Column.{ColumnType, column_string, column_integer, column_binary, column_invalid}
use go_msi.Sql.{ColumnRef, Expr, and, or, column_equal, comparison, is_null, Value, CompareOp}
use go_msi.StringPool.{Pool}
use go_msi.StringPool.Valid.{Valid}
use go_msi.Table.{no_row}
use go_msi.Errors.{
  Error, ok, err, wrap, >>=-eq-ok, wrap-eq-ok, ok_injective, or_value, new_col_error,
}
use go_msi.Convert.{nil, normalize}
use go_msi.Query.{Query, Tuple, BoundCol, raw_of, column, table_at, no_table, literal}
use go_msi.Query.Compile.{
  Cond, iff, constant, compile_comparison, comparison_cond, compile_column_equal, equal_or_refuse,
  equal_cond, same_type, is_binary, compile_is_null, null_cond, compile, and_cond, or_cond,
}
use go_msi.Query.Resolve.{Bound, column-Bound}
use go_msi.Query.Meaning.{
  missing, typed_value, value_at, eq_datum, holds, wanted, col_datum, with_column, evaluate,
  GoodCell, TypedCell, GoodRow,
}
use go_msi.Query.Where.{constant_means, cells_equal}

same_type→eq : (a b : ColumnType) → same_type a b ≡ true → b ≡ a
unfolding same_type
same_type→eq column_integer column_integer h = refl
same_type→eq column_string column_string h = refl
same_type→eq column_binary column_binary h = refl
same_type→eq column_invalid column_invalid h = refl
same_type→eq a b h = cc

-- The records of a tuple are those of good tables.
abbrev pub GoodTuple : Query → Tuple → Type 0
GoodTuple q u =
    (i : ℕ)
    → i < length q.tables
    → GoodRow q.db.pool (get_or q.tables i no_table) (get_or u i no_row)

good_cell :
    (q : Query) (col : BoundCol) (u : Tuple)
    → Bound q.tables col
    → GoodTuple q u
    → GoodCell q.db.pool col.column (raw_of col u)
good_cell q col u b g =
    subst (λ c. GoodCell q.db.pool c (raw_of col u)) (sym b.same) (g col.table b.inside col.cell)

comparison_means :
    (q : Query) (ref : ColumnRef) (op : CompareOp) (value : Value) (c : Cond) (u : Tuple)
    → Valid q.db.pool
    → GoodTuple q u
    → compile_comparison q ref op value ≡ ok c
    → c.match u ≡ evaluate q (comparison ref op value) u
unfolding compile_comparison constant
comparison_means q ref op value c u valid good h =
    let lit = literal value q.args in
    let (l, el, h1) = >>=-eq-ok (column q ref) _ h in
    let (v, ev, h2) =
      >>=-eq-ok (wrap (new_col_error q.op (table_at q l.table) l.column) (constant q l op lit)) _
        h1 in
    let (x, ex, kx) = >>=-eq-ok (normalize lit) _ (wrap-eq-ok _ (constant q l op lit) ev) in
    ap (λ z. z.match u) (sym (ok_injective (comparison_cond q l op v) c h2))
    ∙ constant_means q l.column op x v (raw_of l u) valid kx
        (good_cell q l u (column-Bound q ref l el) good)
    ∙ ap (λ r. holds op (col_datum q l u) (wanted l.column (or_value nil r))) (sym ex)
    ∙ ap
        (λ r.
          with_column r
            (λ k. holds op (col_datum q k u) (wanted k.column (or_value nil (normalize lit)))))
        (sym el)

if_ok_test :
    (b : Bool) (e : Error) (a c : Cond) → (if b then err e else ok a) ≡ ok c → (b ≡ false) × (a ≡ c)
if_ok_test true e a c h = absurd cc
if_ok_test false e a c h = (refl, ok_injective a c h)

column_equal_means :
    (q : Query) (left right : ColumnRef) (c : Cond) (u : Tuple)
    → Valid q.db.pool
    → GoodTuple q u
    → compile_column_equal q left right ≡ ok c
    → c.match u ≡ evaluate q (column_equal left right) u
unfolding compile_column_equal equal_or_refuse
column_equal_means q left right c u valid good h =
    let (l, el, h1) = >>=-eq-ok (column q left) _ h in
    let (r, er, h2) = >>=-eq-ok (column q right) _ h1 in
    let (test, e) =
      if_ok_test (not (same_type l.column.type r.column.type) || is_binary l.column.type) _
        (equal_cond q l r) c h2 in
    let types = same_type→eq l.column.type r.column.type (ground (arith, test)) in
    let gl = good_cell q l u (column-Bound q left l el) good in
    let gr = good_cell q r u (column-Bound q right r er) good in
    ap (λ z. z.match u) (sym e)
    ∙ cells_equal q.db.pool l.column r.column l.column.type (raw_of l u) (raw_of r u) valid refl
        types (ground (arith, test)) gl.1
        (subst (λ k. TypedCell q.db.pool k r.column.size (raw_of r u)) types gr.1)
    ∙ ap (λ k. eq_datum (col_datum q l u) (value_at q.db.pool k r.column.size (raw_of r u)))
        (sym types)
    ∙ ap (λ z. with_column z (λ k. eq_datum (col_datum q l u) (col_datum q k u))) (sym er)
    ∙ ap
        (λ z.
          with_column z
            (λ j. with_column (column q right) (λ k. eq_datum (col_datum q j u) (col_datum q k u))))
        (sym el)

null_test :
    (p : Pool) (type : ColumnType) (size raw : ℕ) (inverted : Bool)
    → not (iff (raw == 0) inverted) ≡ (
        if inverted
        then not (eq_datum (value_at p type size raw) missing)
        else eq_datum (value_at p type size raw) missing)
null_test p type size raw inverted = elim (Bool-cases (raw == 0)) [
  | inl z ↦ rw z (of_null inverted)
  | inr nz ↦ rw nz (of_value type inverted)
]
  where
    of_null : (b : Bool) → not (iff true b) ≡ (if b then false else true)
    of_null true = refl
    of_null false = refl

    of_value :
        (k : ColumnType) (b : Bool)
        → not (iff false b) ≡ (
            if b
            then not (eq_datum (typed_value p k size raw) missing)
            else eq_datum (typed_value p k size raw) missing)
    of_value column_integer true = refl
    of_value column_integer false = refl
    of_value column_string true = refl
    of_value column_string false = refl
    of_value column_binary true = refl
    of_value column_binary false = refl
    of_value column_invalid true = refl
    of_value column_invalid false = refl

is_null_means :
    (q : Query) (ref : ColumnRef) (inverted : Bool) (c : Cond) (u : Tuple)
    → compile_is_null q ref inverted ≡ ok c
    → c.match u ≡ evaluate q (is_null ref inverted) u
unfolding compile_is_null
is_null_means q ref inverted c u h =
    let (col, e, h1) = >>=-eq-ok (column q ref) _ h in
    ap (λ z. z.match u) (sym (ok_injective (null_cond q col inverted) c h1))
    ∙ null_test q.db.pool col.column.type col.column.size (raw_of col u) inverted
    ∙ ap
        (λ z. with_column z (λ k.
          if inverted
          then not (eq_datum (col_datum q k u) missing)
          else eq_datum (col_datum q k u) missing))
        (sym e)

-- The match of a compiled condition is the value of the clause.
pub match_means :
    (q : Query) (e : Expr) (c : Cond) (u : Tuple)
    → Valid q.db.pool
    → GoodTuple q u
    → compile q e ≡ ok c
    → c.match u ≡ evaluate q e u
unfolding compile
match_means q (comparison ref op v) c u valid good h = comparison_means q ref op v c u valid good h
match_means q (column_equal l r) c u valid good h = column_equal_means q l r c u valid good h
match_means q (is_null ref inverted) c u valid good h = is_null_means q ref inverted c u h
match_means q (and a b) c u valid good h =
    let (l, el, h1) = >>=-eq-ok (compile q a) _ h in
    let (r, er, h2) = >>=-eq-ok (compile q b) _ h1 in
    ap (λ z. z.match u) (sym (ok_injective (and_cond l r) c h2))
    ∙ ap (λ x. x && r.match u) (match_means q a l u valid good el)
    ∙ ap (λ x. evaluate q a u && x) (match_means q b r u valid good er)
match_means q (or a b) c u valid good h =
    let (l, el, h1) = >>=-eq-ok (compile q a) _ h in
    let (r, er, h2) = >>=-eq-ok (compile q b) _ h1 in
    ap (λ z. z.match u) (sym (ok_injective (or_cond l r) c h2))
    ∙ ap (λ x. x || r.match u) (match_means q a l u valid good el)
    ∙ ap (λ x. evaluate q a u || x) (match_means q b r u valid good er)
