-- ===== src/Query/Columns.antt =====
-- `column` and `columns` of msidb/query.go find the columns that are named, and no others.
use go_msi.Prelude.{
  ◌≡◌, ◌⊎◌, inl, inr, refl, ap, sym, ◌∙◌, Option, none, some, List, [], ◌∷◌, get_or, arith,
}
use mathlib.Core.Path.{subst}
use go_msi.Sql.{ColumnRef}
use go_msi.Table.{Table}
use go_msi.Errors.{Error, Result, ok, err, ◌>>=◌}
use go_msi.Query.{Query, BoundCol, bind_col, find_column, or_missing, column, columns, no_table}
use go_msi.Query.Named.{
  Named, Unnamed, Resolved, NoCell, OneCell, TwoCells, First, find_column-First, names_cell-Offers,
  Offers-names_cell,
}

-- Every reference names its column.
abbrev pub AllNamed : List Table → List ColumnRef → List BoundCol → Type 0
AllNamed ts [] [] = Unit {0}
AllNamed ts [] (b ∷ bs) = ⊥
AllNamed ts (ref ∷ refs) [] = ⊥
AllNamed ts (ref ∷ refs) (b ∷ bs) = Named ts ref b × AllNamed ts refs bs

abbrev pub SomeUnnamed : List Table → List ColumnRef → Type 0
SomeUnnamed ts [] = ⊥
SomeUnnamed ts (ref ∷ refs) = Unnamed ts ref ⊎ SomeUnnamed ts refs

abbrev pub AllResolved : List Table → List ColumnRef → Result Error (List BoundCol) → Type 0
AllResolved ts refs (ok bs) = AllNamed ts refs bs
AllResolved ts refs (err e) = SomeUnnamed ts refs

OneCell-Named :
    (q : Query) (ref : ColumnRef) (b : BoundCol)
    → OneCell q.op ref 0 q.tables b
    → Named q.tables ref b
OneCell-Named q ref b (k, cell, lt, h, same, u) =
    let found : bind_col (get_or q.tables k no_table) k cell ≡ b =
      ap (λ j. bind_col (get_or q.tables k no_table) j cell) (omega arith) ∙ sym same in
    subst (Named q.tables ref) found (record {
      inside = lt;
      offered = names_cell-Offers ref (get_or q.tables k no_table) cell h;
      bound = refl;
      only = λ i d fits o. u i d fits (Offers-names_cell ref (get_or q.tables i no_table) d o);
    })

TwoCells-Unnamed : (q : Query) (ref : ColumnRef) → TwoCells q.op ref q.tables → Unnamed q.tables ref
TwoCells-Unnamed q ref (i, j, c, d, lt, fits, p, r) = inr (
  i,
  j,
  c,
  d,
  lt,
  fits,
  names_cell-Offers ref (get_or q.tables i no_table) c p,
  names_cell-Offers ref (get_or q.tables j no_table) d r,
)

NoCell-Unnamed : (q : Query) (ref : ColumnRef) → NoCell q.op ref q.tables → Unnamed q.tables ref
NoCell-Unnamed q ref n =
    inl λ i d fits o. n i d fits (Offers-names_cell ref (get_or q.tables i no_table) d o)

-- The column of a reference is the one of its name in the tables of the query, or in the one table that
-- the reference asks for, and no other table offers one. Where none does, or two, there is an error.
pub column-Resolved : (q : Query) (ref : ColumnRef) → Resolved q.tables ref (column q ref)
unfolding column
column-Resolved q ref =
    of_found (find_column q.op ref 0 q.tables none) (find_column-First q.op ref 0 q.tables)
  where
    of_found :
        (r : Result Error (Option BoundCol))
        → First q.op ref 0 q.tables r
        → Resolved q.tables ref (r >>= or_missing q ref)
    of_found (ok none) f = NoCell-Unnamed q ref f
    of_found (ok (some b)) f = OneCell-Named q ref b f
    of_found (err e) f = TwoCells-Unnamed q ref f

pub columns-AllResolved :
    (q : Query) (refs : List ColumnRef) → AllResolved q.tables refs (columns q refs)
unfolding columns
columns-AllResolved q [] = tt
columns-AllResolved q (ref ∷ refs) =
    both (column q ref) (columns q refs) (column-Resolved q ref) (columns-AllResolved q refs)
  where
    both :
        (r : Result Error BoundCol) (rs : Result Error (List BoundCol))
        → Resolved q.tables ref r
        → AllResolved q.tables refs rs
        → AllResolved q.tables (ref ∷ refs) (r >>= (λ col. rs >>= (λ cols. ok (col ∷ cols))))
    both (ok b) (ok bs) h k = (h, k)
    both (ok b) (err e) h k = inr k
    both (err e) rs h k = inl h
