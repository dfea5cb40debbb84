-- ===== src/Dml/Answer.antt =====
-- execSelect in msidb/dml.go: the whole of SELECT.
use go_msi.Prelude.{
  ◌<◌, ◌≡◌, ◌≢◌, ◌⊎◌, inl, inr, refl, ap, sym, ◌∙◌, arith, Bool, true, Option, none, some, List, [],
  ◌∷◌, length,
}
use mathlib.Core.Path.{subst}
use go_msi.Prelude.Text.{Str, bytes}
use go_msi.Sql
use go_msi.StringPool.Valid.{Valid}
use go_msi.Table.{Table}
use go_msi.Convert.{Any}
use go_msi.Errors.{Error, Result, ok, err, ok_injective, ◌>>=◌}
use go_msi.Query.{Source, Query, Tuple, BoundCol, new_query, column, columns}
use go_msi.Query.Walk.{gather}
use go_msi.Query.Select.{select, select_ext}
use go_msi.Query.Gather.{gather-select}
use go_msi.Query.Scans.{with_scans}
use go_msi.Query.Restrict.{restrict-Restricts, new_query-Fresh}
use go_msi.Query.Sorted.{AllGood, AllSorted, AllSorted-AllOrdered}
use go_msi.Query.Meaning.{evaluate}
use go_msi.Query.Answer.{gather-restrict}
use go_msi.Dml.{
  Rows, rows_of, exec_select, restrict_by, result_columns, arrange, tuples, all_columns,
}
use go_msi.Query.Columns.{AllNamed, SomeUnnamed, AllResolved, columns-AllResolved}
use go_msi.Dml.Shown.{Shown, AllShown, result_columns-AllShown}
use go_msi.Dml.Order.{Arranged, arrange-Arranged}
use go_msi.Dml.Combos.{combos, tuples-select}

-- What WHERE means of a tuple; without it every tuple is asked for.
abbrev pub means : Query → Option Sql.Expr → Tuple → Bool
means q none u = true
means q (some e) u = evaluate q e u

-- The query restricted differs from the one made in its scans at most, and gathers what WHERE means.
record Gathers (q r : Query) (condition : Option Sql.Expr) : Type 0 where
  same : r ≡ with_scans q r.scans
  gathered : gather r ≡ select q.tables (means q condition) []

module _ (db : Source) (op : Str) (names : List Str) (args : List Any) (q : Query)
    (made : new_query db op names args ≡ ok q) (valid : Valid db.pool) (some' : q.tables ≢ [])
    (sorted : AllSorted q.tables) (good : AllGood db.pool q.tables) where
  restrict_by-Gathers :
      (condition : Option Sql.Expr) (r : Query)
      → restrict_by q condition ≡ ok r
      → Gathers q r condition
  unfolding restrict_by
  restrict_by-Gathers none r h =
      let (fresh, source) = new_query-Fresh db op names args q made in
      subst (λ z. Gathers q z none) (ok_injective q r h)
        (record {
          same = refl;
          gathered =
              gather-select q some' fresh.honest
              ∙ select_ext q.tables _ _ [] (λ u. fresh.accepting u);
        })
  restrict_by-Gathers (some e) r h =
      let (fresh, source) = new_query-Fresh db op names args q made in
      let valid' = subst (λ d. Valid d.pool) (sym source) valid in
      let good' = subst (λ d. AllGood d.pool q.tables) (sym source) good in
      let ordered = AllSorted-AllOrdered q.db.pool q.tables sorted good' in
      let (c, k, x) = restrict-Restricts e q r valid' fresh.honest ordered h in
      record {
        same = x.same;
        gathered = gather-restrict db op names args e q r made h valid some' sorted good;
      }

columns-with_scans :
    (q r : Query) (refs : List Sql.ColumnRef)
    → r ≡ with_scans q r.scans
    → columns r refs ≡ columns q refs
unfolding columns column
columns-with_scans q r refs h = ap (λ z. columns z refs) h ∙ go refs
  where
    go : (refs : List Sql.ColumnRef) → columns (with_scans q r.scans) refs ≡ columns q refs
    go [] = refl
    go (ref ∷ refs) =
        ap (λ z. (column q ref >>= (λ col. z >>= (λ cols. ok (col ∷ cols))))) (go refs)

result_columns-with_scans :
    (q r : Query) (refs : List Sql.ColumnRef)
    → r ≡ with_scans q r.scans
    → result_columns r refs ≡ result_columns q refs
unfolding result_columns
result_columns-with_scans q r [] h = ap (λ z. ok (all_columns 0 z.tables)) h
result_columns-with_scans q r (ref ∷ refs) h = columns-with_scans q r (ref ∷ refs) h

positive : (ts : List Table) → ts ≢ [] → 0 < length ts
positive [] h = absurd (h refl)
positive (t ∷ ts) h = omega arith

then-ext {ℓ κ μ} :
    {E : Type ℓ} {A : Type κ} {B : Type μ} (r : Result E A) (f g : A → Result E B)
    → ((a : A) → f a ≡ g a)
    → (r >>= f) ≡ (r >>= g)
then-ext (ok a) f g h = h a
then-ext (err e) f g h = refl

then-same {ℓ κ μ} :
    {E : Type ℓ} {A : Type κ} {B : Type μ} (r s : Result E A) (f : A → Result E B)
    → r ≡ s
    → (r >>= f) ≡ (s >>= f)
then-same r s f h = ap (λ z. z >>= f) h

-- The rows that SELECT asks for: the combinations at which WHERE holds, arranged.
abbrev rows_asked : Query → Sql.Select → List BoundCol → List BoundCol → Rows
rows_asked q sel order res = record {
  res = res;
  tabs = q.tables;
  buf = arrange order sel.distinct res (combos q.tables (means q sel.condition) []);
}

-- What SELECT makes of the tables of a query.
abbrev answer : Query → Sql.Select → Result Error Rows
answer q sel = do
  order ← columns q sel.order_by
  res ← result_columns q sel.columns
  ok (rows_asked q sel order res)

rows_of-asked :
    (q r : Query) (sel : Sql.Select) (order res : List BoundCol)
    → Gathers q r sel.condition
    → q.tables ≢ []
    → rows_of r order sel.distinct res ≡ rows_asked q sel order res
rows_of-asked q r sel order res g some' =
    let same : r.tables ≡ q.tables = ap (λ z. z.tables) g.same in
    ap
      (λ ts. record {
        res = res;
        tabs = ts;
        buf = arrange order sel.distinct res (tuples (length (gather r)) (length ts) (gather r));
      })
      same
    ∙ ap (λ us. record { res = res; tabs = q.tables; buf = arrange order sel.distinct res us })
        (ap (λ l. tuples (length l) (length q.tables) l) g.gathered
          ∙ tuples-select q.tables (means q sel.condition) (positive q.tables some'))

exec_select-answer :
    (db : Source) (sel : Sql.Select) (args : List Any) (q r : Query)
    → new_query db (bytes "query") sel.tables args ≡ ok q
    → restrict_by q sel.condition ≡ ok r
    → Valid db.pool
    → q.tables ≢ []
    → AllSorted q.tables
    → AllGood db.pool q.tables
    → exec_select db sel args ≡ answer q sel
unfolding exec_select
exec_select-answer db sel args q r made restricted valid some' sorted good =
    let g : Gathers q r sel.condition =
      restrict_by-Gathers db (bytes "query") sel.tables args q made valid some' sorted good
        sel.condition r restricted in
    then-same (new_query db (bytes "query") sel.tables args) (ok q) _ made
    ∙ then-same (restrict_by q sel.condition) (ok r) _ restricted
    ∙ then-same (columns r sel.order_by) (columns q sel.order_by) _
        (columns-with_scans q r sel.order_by g.same)
    ∙ then-ext (columns q sel.order_by) _ _ λ order.
      then-same (result_columns r sel.columns) (result_columns q sel.columns) _
        (result_columns-with_scans q r sel.columns g.same)
      ∙ then-ext (result_columns q sel.columns) _ _
          λ res. ap ok (rows_of-asked q r sel order res g some')

-- The rows of a SELECT: those combinations of one record of each table at which WHERE holds, sorted by
-- the columns that ORDER BY names and picked by the cells of the columns that are shown.
pub record Selected (q : Query) (sel : Sql.Select) (rows : Rows) : Type 0 where
  pub tables : rows.tabs ≡ q.tables
  pub shown : Shown q.tables sel.columns rows.res
  pub order : List BoundCol
  pub named : AllNamed q.tables sel.order_by order
  pub arranged :
      Arranged order sel.distinct rows.res (combos q.tables (means q sel.condition) []) rows.buf

abbrev pub Answers : Query → Sql.Select → Result Error Rows → Type 0
Answers q sel (ok rows) = Selected q sel rows
Answers q sel (err e) = SomeUnnamed q.tables sel.order_by ⊎ SomeUnnamed q.tables sel.columns

answer-Answers : (q : Query) (sel : Sql.Select) → Answers q sel (answer q sel)
answer-Answers q sel =
    both (columns q sel.order_by) (result_columns q sel.columns)
      (columns-AllResolved q sel.order_by) (result_columns-AllShown q sel.columns)
  where
    both :
        (o r : Result Error (List BoundCol))
        → AllResolved q.tables sel.order_by o
        → AllShown q.tables sel.columns r
        → Answers q sel (o >>= (λ order. r >>= (λ res. ok (rows_asked q sel order res))))
    both (ok order) (ok res) n s = record {
      tables = refl;
      shown = s;
      order = order;
      named = n;
      arranged =
          arrange-Arranged order sel.distinct res (combos q.tables (means q sel.condition) []);
    }
    both (ok order) (err e) n s = inr s
    both (err e) r n s = inl n

pub exec_select-Answers :
    (db : Source) (sel : Sql.Select) (args : List Any) (q r : Query)
    → new_query db (bytes "query") sel.tables args ≡ ok q
    → restrict_by q sel.condition ≡ ok r
    → Valid db.pool
    → q.tables ≢ []
    → AllSorted q.tables
    → AllGood db.pool q.tables
    → Answers q sel (exec_select db sel args)
exec_select-Answers db sel args q r made restricted valid some' sorted good =
    subst (Answers q sel)
      (sym (exec_select-answer db sel args q r made restricted valid some' sorted good))
      (answer-Answers q sel)
