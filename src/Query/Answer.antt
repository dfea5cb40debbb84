-- ===== src/Query/Answer.antt =====
-- query, where and gather of msidb/query.go together: the records that a statement reads.
use go_msi.Prelude.{
  ℕ, zero, suc, ◌+◌, ◌&&◌, Bool, List, [], ◌∷◌, ◌++◌, ◌<◌, ◌≡◌, ◌≢◌, refl, ap, sym, ◌∙◌, inl, inr,
  ◌⊎◌, arith, length, length-append, get_or, if◌then◌else◌,
}
use mathlib.Core.Path.{subst}
use go_msi.Prelude.Text.{Str}
use go_msi.Sql.{Expr}
use go_msi.StringPool.{Pool}
use go_msi.StringPool.Valid.{Valid}
use go_msi.Table.{Table, Row, no_row}
use go_msi.Convert.{Any}
use go_msi.Errors.{ok}
use go_msi.Query.{Source, Query, Tuple, no_table, new_query}
use go_msi.Query.Compile.{restrict}
use go_msi.Query.Walk.{gather}
use go_msi.Query.Select.{each_row, select}
use go_msi.Query.Levels.{AllHonest, all_accept, get_or_end}
use go_msi.Query.Gather.{gather-select}
use go_msi.Query.Restrict.{restrict-Restricts, new_query-Fresh}
use go_msi.Query.Sorted.{AllRows, AllGood, AllSorted, AllSorted-AllOrdered}
use go_msi.Query.Meaning.{GoodRow, evaluate}
use go_msi.Query.Evaluate.{match_means}

each_row_good :
    (p : Pool) (t : Table) (f g : Row → List Row) (rows : List Row)
    → AllRows p t rows
    → ((rec : Row) → GoodRow p t rec → f rec ≡ g rec)
    → each_row f rows ≡ each_row g rows
each_row_good p t f g [] a h = refl
each_row_good p t f g (rec ∷ rows) (a, as') h =
    ap (λ l. l ++ each_row f rows) (h rec a) ∙ ap (◌++◌ (g rec)) (each_row_good p t f g rows as' h)

get_or-append {ℓ} :
    {A : Type ℓ} (i : ℕ) (u v : List A) (d : A) → i < length u → get_or (u ++ v) i d ≡ get_or u i d
get_or-append i [] v d h = absurd (omega arith)
get_or-append zero (x ∷ u) v d h = refl
get_or-append (suc i) (x ∷ u) v d h = get_or-append i u v d (omega arith)

-- The first records of a tuple are those of good tables.
abbrev Front : Pool → List Table → ℕ → Tuple → Type 0
Front p all n u = (i : ℕ) → i < n → GoodRow p (get_or all i no_table) (get_or u i no_row)

-- The tables from the n-th on.
abbrev Rest : List Table → ℕ → List Table → Type 0
Rest all n ts = (k : ℕ) → get_or all (n + k) no_table ≡ get_or ts k no_table

Front-append :
    (p : Pool) (all : List Table) (t : Table) (n : ℕ) (chosen : Tuple) (rec : Row)
    → length chosen ≡ n
    → get_or all n no_table ≡ t
    → GoodRow p t rec
    → Front p all n chosen
    → Front p all (suc n) (chosen ++ (rec ∷ []))
Front-append p all t n chosen rec depth e good front i h = elim (below_or i n h) [
  | inl lt ↦
      subst (GoodRow p (get_or all i no_table))
        (sym (get_or-append i chosen (rec ∷ []) no_row (omega arith))) (front i lt)
  | inr eq ↦
      subst (λ k. GoodRow p (get_or all k no_table) (get_or (chosen ++ (rec ∷ [])) k no_row))
        (sym eq)
        (subst (λ s. GoodRow p s (get_or (chosen ++ (rec ∷ [])) n no_row)) (sym e)
          (subst (GoodRow p t) (sym (get_or_end n chosen rec depth)) good))
]
  where
    below_or : (i n : ℕ) → i < suc n → (i < n) ⊎ (i ≡ n)
    below_or i n h = ground arith

-- Two tests that agree on the tuples of good tables select the same.
select_good :
    (p : Pool) (all ts : List Table) (n : ℕ) (chosen : Tuple) (f g : Tuple → Bool)
    → AllGood p ts
    → Rest all n ts
    → length all ≡ n + length ts
    → length chosen ≡ n
    → Front p all n chosen
    → ((u : Tuple) → Front p all (length all) u → f u ≡ g u)
    → select ts f chosen ≡ select ts g chosen
select_good p all [] n chosen f g a rest size depth front same =
    ap (λ b. if b then chosen else [])
      (same chosen (subst (λ k. Front p all k chosen) (sym (size ∙ omega arith)) front))
select_good p all (t ∷ ts) n chosen f g (a, as') rest size depth front same =
    each_row_good p t _ _ t.records a λ rec good.
      let here : n ≡ n + 0 = omega arith in
      select_good p all ts (suc n) (chosen ++ (rec ∷ [])) f g as'
        (λ k.
          let e : suc n + k ≡ n + suc k = omega arith in
          ap (λ j. get_or all j no_table) e ∙ rest (suc k))
        (size ∙ omega arith) (omega (arith, length-append chosen (rec ∷ []), depth))
        (Front-append p all t n chosen rec depth (ap (λ j. get_or all j no_table) here ∙ rest 0)
          good front)
        same

-- A statement whose tables are found and whose WHERE clause compiles reads, of the combinations of
-- one record of each table in the order of the tables, those at which the clause is true of the
-- values that the cells hold: for at least one table, tables with a key whose records stand in the
-- order of their keys, cells that have their columns' widths and, in string columns, name strings
-- of the pool, and a valid pool.
pub gather-restrict :
    (db : Source) (op : Str) (names : List Str) (args : List Any) (e : Expr) (q r : Query)
    → new_query db op names args ≡ ok q
    → restrict q e ≡ ok r
    → Valid db.pool
    → q.tables ≢ []
    → AllSorted q.tables
    → AllGood db.pool q.tables
    → gather r ≡ select q.tables (evaluate q e) []
gather-restrict db op names args e q r made restricted valid some' sorted good =
    let (fresh, source) = new_query-Fresh db op names args q made in
    let valid' = subst (λ d. Valid d.pool) (sym source) valid in
    let good' = subst (λ d. AllGood d.pool q.tables) (sym source) good in
    let ordered = AllSorted-AllOrdered q.db.pool q.tables sorted good' in
    let (c, k, x) = restrict-Restricts e q r valid' fresh.honest ordered restricted in
    let tables : r.tables ≡ q.tables = ap (λ z. z.tables) x.same in
    gather-select r (λ none'. some' (sym tables ∙ none'))
      (subst (λ ts. AllHonest 0 ts r.scans) (sym tables) x.honest)
    ∙ ap (λ ts. select ts (all_accept r.scans) []) tables
    ∙ select_good q.db.pool q.tables q.tables 0 [] (all_accept r.scans) (evaluate q e) good'
        (λ k. ap (λ j. get_or q.tables j no_table) (omega arith)) (omega arith) refl
        (λ i h. absurd (omega arith))
        (λ u front.
          x.accepts_all u
          ∙ ap (λ b. b && c.match u) (fresh.accepting u)
          ∙ match_means q e c u valid' front k)
