-- ===== src/Query/Resolve.antt =====
-- What column of msidb/query.go resolves a reference to.
use go_msi.Prelude.{
  ℕ, suc, ◌+◌, ◌<◌, ◌≡◌, refl, ap, sym, ◌∙◌, ◌⊎◌, inl, inr, Option-cases, List, [], ◌∷◌, length,
  get_or, Option, none, some, arith,
}
use mathlib.Core.Path.{subst}
use go_msi.Prelude.Text.{Str}
use go_msi.Sql.{ColumnRef}
use go_msi.Table.{Table, col_at}
use go_msi.Errors.{ok, >>=-eq-ok, ok_injective}
use go_msi.Query.{Query, BoundCol, bind_col, names_cell, find_column, or_missing, column, no_table}

-- The column is one of a table of the query.
pub record Bound (ts : List Table) (col : BoundCol) : Type 0 where
  pub inside : col.table < length ts
  pub same : col.column ≡ col_at (get_or ts col.table no_table) col.cell

-- At the tables from `i` on: what was found before, or a column of one of them.
abbrev Finds : ℕ → List Table → Option BoundCol → Option BoundCol → Type 0
Finds i ts before none = Unit {0}
Finds i ts before (some col) =
    (before ≡ some col)
    ⊎ ((k : ℕ) × (col.table ≡ i + k)
        × (k < length ts)
        × (col.column ≡ col_at (get_or ts k no_table) col.cell))

or_col : BoundCol → Option BoundCol → BoundCol
or_col d none = d
or_col d (some col) = col

find_column-Finds :
    (op : Str) (ref : ColumnRef) (ts : List Table) (i : ℕ) (before found : Option BoundCol)
    → find_column op ref i ts before ≡ ok found
    → Finds i ts before found
unfolding find_column or_col
find_column-Finds op ref [] i before none h = tt
find_column-Finds op ref [] i before (some col) h = inl (ok_injective _ _ h)
find_column-Finds op ref (t ∷ ts) i before none h = tt
find_column-Finds op ref (t ∷ ts) i before (some col) h = elim (Option-cases (names_cell ref t)) [
  | inl skip ↦
      later (find_column-Finds op ref ts (suc i) before (some col) (rw (skip, find_column) at h))
  | inr (cell, e) ↦ elim (Option-cases before) [
    | inl first ↦
        here cell first
          (find_column-Finds op ref ts (suc i) _ (some col) (rw (e, first, find_column) at h))
    | inr (c, again) ↦ absurd (ground (arith, rw (e, again, find_column) at h))
  ]
]
  where
    later : Finds (suc i) ts before (some col) → Finds i (t ∷ ts) before (some col)
    later (inl e) = inl e
    later (inr (k, a, b, c)) = inr (suc k, omega arith, omega arith, c)

    sub : {cell : ℕ} → bind_col t i cell ≡ col → col.column ≡ col_at t col.cell
    sub c = subst (λ b. b.column ≡ col_at t b.cell) c refl

    here :
        (cell : ℕ)
        → before ≡ none
        → Finds (suc i) ts (some (bind_col t i cell)) (some col)
        → Finds i (t ∷ ts) before (some col)
    here cell first (inl e) =
        let c : bind_col t i cell ≡ col = ap (or_col col) e in
        inr (0, ap (λ b. b.table) (sym c) ∙ omega arith, omega arith, sub c)
    here cell first (inr (k, a, b, c)) = inr (suc k, omega arith, omega arith, c)

by_zero : (n m : ℕ) → m ≡ 0 + n → n ≡ m
by_zero n m h = omega arith

pub column-Bound :
    (q : Query) (ref : ColumnRef) (col : BoundCol) → column q ref ≡ ok col → Bound q.tables col
unfolding column
column-Bound q ref col h =
    let (found, e, rest) = >>=-eq-ok (find_column q.op ref 0 q.tables none) (or_missing q ref) h in
    of_found found (find_column-Finds q.op ref q.tables 0 none found e) rest
  where
    of_found :
        (found : Option BoundCol)
        → Finds 0 q.tables none found
        → or_missing q ref found ≡ ok col
        → Bound q.tables col
    of_found none f k = absurd (cc)
    of_found (some c) (inl e) k = absurd (cc)
    of_found (some c) (inr (n, a, b, d)) k = subst (Bound q.tables) (ok_injective c col k) (record {
      inside = omega arith;
      same = d ∙ ap (λ j. col_at (get_or q.tables j no_table) c.cell) (by_zero n c.table a);
    })
