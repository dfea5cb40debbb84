-- ===== src/Dml/Shown.antt =====
-- The columns that execSelect of msidb/dml.go shows, told by the tables alone.
use go_msi.Prelude.{
  ℕ, zero, suc, ◌+◌, ◌<◌, ◌≡◌, refl, ap, ◌∙◌, some, List, [], ◌∷◌, ◌++◌, length, length-append,
  get_or, get_elem?, arith,
}
use go_msi.Sql.{ColumnRef}
use go_msi.Table.{Table, col_at}
use go_msi.Errors.{Error, Result, ok, err}
use go_msi.Query.{Query, BoundCol, bind_col, columns, no_table}
use go_msi.Query.Columns.{AllNamed, SomeUnnamed, AllResolved, columns-AllResolved}
use go_msi.Dml.{table_columns, all_columns, result_columns}

-- How many columns the first tables have.
abbrev pub cells_before : List Table → ℕ → ℕ
cells_before [] i = 0
cells_before (t ∷ ts) zero = 0
cells_before (t ∷ ts) (suc i) = length t.cols + cells_before ts i

-- The columns of all tables, table by table.
abbrev pub Everything : List Table → List BoundCol → Type 0
Everything ts res =
    (length res ≡ cells_before ts (length ts))
    × ((i cell : ℕ)
        → i < length ts
        → cell < length (get_or ts i no_table).cols
        → get_elem? res (cells_before ts i + cell)
          ≡ some (record { column = col_at (get_or ts i no_table) cell; table = i; cell = cell }))

-- For no references, which stands for *, the columns of all tables, and else those that they name.
abbrev pub Shown : List Table → List ColumnRef → List BoundCol → Type 0
Shown ts [] res = Everything ts res
Shown ts (ref ∷ refs) res = AllNamed ts (ref ∷ refs) res

get_elem?-left : (n : ℕ) (u v : List BoundCol) → n < length u → get_elem? (u ++ v) n ≡ get_elem? u n
get_elem?-left n [] v h = absurd (omega arith)
get_elem?-left zero (x ∷ u) v h = refl
get_elem?-left (suc n) (x ∷ u) v h = get_elem?-left n u v (omega arith)

get_elem?-right : (n : ℕ) (u v : List BoundCol) → get_elem? (u ++ v) (length u + n) ≡ get_elem? v n
get_elem?-right n [] v = ap (get_elem? v) (omega arith)
get_elem?-right n (x ∷ u) v =
    ap (get_elem? (x ∷ (u ++ v))) {x = length (x ∷ u) + n} {y = suc (length u + n)} (omega arith)
    ∙ get_elem?-right n u v

table_columns_at :
    (t : Table) (i cell n m : ℕ)
    → m < n
    → get_elem? (table_columns t i cell n) m ≡ some (bind_col t i (cell + m))
unfolding table_columns
table_columns_at t i cell zero m h = absurd (omega arith)
table_columns_at t i cell (suc n) zero h = ap (λ k. some (bind_col t i k)) (omega arith)
table_columns_at t i cell (suc n) (suc m) h =
    table_columns_at t i (suc cell) n m (omega arith)
    ∙ ap (λ k. some (bind_col t i k)) (omega arith)

length-table_columns : (t : Table) (i cell n : ℕ) → length (table_columns t i cell n) ≡ n
unfolding table_columns
length-table_columns t i cell zero = refl
length-table_columns t i cell (suc n) = ap suc (length-table_columns t i (suc cell) n)

length-all_columns :
    (i : ℕ) (ts : List Table) → length (all_columns i ts) ≡ cells_before ts (length ts)
unfolding all_columns
length-all_columns i [] = refl
length-all_columns i (t ∷ ts) = omega (
  arith,
  length-append (table_columns t i 0 (length t.cols)) (all_columns (suc i) ts),
  length-table_columns t i 0 (length t.cols),
  length-all_columns (suc i) ts,
)

all_columns_at :
    (first i cell : ℕ) (ts : List Table)
    → i < length ts
    → cell < length (get_or ts i no_table).cols
    → get_elem? (all_columns first ts) (cells_before ts i + cell)
      ≡ some (bind_col (get_or ts i no_table) (first + i) cell)
unfolding all_columns
all_columns_at first i cell [] lt h = absurd (omega arith)
all_columns_at first zero cell (t ∷ ts) lt h =
    let here = table_columns t first 0 (length t.cols) in
    ap (get_elem? (here ++ all_columns (suc first) ts)) {x = 0 + cell} {y = cell} (omega arith)
    ∙ get_elem?-left cell here (all_columns (suc first) ts)
        (omega (arith, h, length-table_columns t first 0 (length t.cols)))
    ∙ table_columns_at t first 0 (length t.cols) cell h
    ∙ ap (λ k. some (bind_col t first k)) {x = 0 + cell} {y = cell} (omega arith)
    ∙ ap (λ k. some (bind_col t k cell)) {x = first} {y = first + 0} (omega arith)
all_columns_at first (suc i) cell (t ∷ ts) lt h =
    let here = table_columns t first 0 (length t.cols) in
    ap (get_elem? (here ++ all_columns (suc first) ts))
      (omega (arith, length-table_columns t first 0 (length t.cols)))
    ∙ get_elem?-right (cells_before ts i + cell) here (all_columns (suc first) ts)
    ∙ all_columns_at (suc first) i cell ts (omega arith) h
    ∙ ap (λ k. some (bind_col (get_or ts i no_table) k cell)) (omega arith)

pub all_columns-Everything : (ts : List Table) → Everything ts (all_columns 0 ts)
all_columns-Everything ts = (
  length-all_columns 0 ts,
  λ i cell lt h.
      all_columns_at 0 i cell ts lt h
      ∙ ap (λ k. some (bind_col (get_or ts i no_table) k cell)) (omega arith),
)

abbrev pub AllShown : List Table → List ColumnRef → Result Error (List BoundCol) → Type 0
AllShown ts refs (ok res) = Shown ts refs res
AllShown ts refs (err e) = SomeUnnamed ts refs

pub result_columns-AllShown :
    (q : Query) (refs : List ColumnRef) → AllShown q.tables refs (result_columns q refs)
unfolding result_columns
result_columns-AllShown q [] = all_columns-Everything q.tables
result_columns-AllShown q (ref ∷ refs) =
    go (columns q (ref ∷ refs)) (columns-AllResolved q (ref ∷ refs))
  where
    go :
        (r : Result Error (List BoundCol))
        → AllResolved q.tables (ref ∷ refs) r
        → AllShown q.tables (ref ∷ refs) r
    go (ok bs) h = h
    go (err e) h = h
