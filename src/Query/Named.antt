-- ===== src/Query/Named.antt =====
-- What `column` and `columns` of msidb/query.go make of references, told by the tables alone.
use go_msi.Prelude.{
  ℕ, zero, suc, ◌+◌, ◌<◌, ◌≡◌, ◌⊎◌, inl, inr, refl, ap, sym, ◌∙◌, true, Bool-cases, Option, none,
  some, Option-cases, List, [], ◌∷◌, length, get_or, arith,
}
use mathlib.Core.Path.{subst}
use go_msi.Prelude.Text.{Str, eq_str, eq_str→eq, eq_str_iff}
use go_msi.Sql.{ColumnRef}
use go_msi.Table.{Table, col_at}
use go_msi.Errors.{new_error, ambiguous_column, Error, Result, ok, err}
use go_msi.Query.{BoundCol, bind_col, names_cell, find_column, no_table}

-- The table has a column of the reference's name, and is the one that the reference asks for, if it
-- asks for one.
abbrev pub Offers : ColumnRef → Table → ℕ → Type 0
Offers ref t cell = (t.by_name ref.name ≡ some cell) × ((ref.table ≡ []) ⊎ (ref.table ≡ t.name))

-- Of the tables exactly one has the column.
pub record Named (ts : List Table) (ref : ColumnRef) (b : BoundCol) : Type 0 where
  pub inside : b.table < length ts
  pub offered : Offers ref (get_or ts b.table no_table) b.cell
  pub bound : b.column ≡ col_at (get_or ts b.table no_table) b.cell
  pub only : (i cell : ℕ) → i < length ts → Offers ref (get_or ts i no_table) cell → i ≡ b.table

-- Of the tables none has the column, or two.
abbrev pub Unnamed : List Table → ColumnRef → Type 0
Unnamed ts ref =
    ((i cell : ℕ) → i < length ts → Offers ref (get_or ts i no_table) cell → ⊥)
    ⊎ ((i : ℕ) × (j : ℕ) × (c : ℕ) × (d : ℕ) × (i < j)
        × (j < length ts)
        × Offers ref (get_or ts i no_table) c
        × Offers ref (get_or ts j no_table) d)

abbrev pub Resolved : List Table → ColumnRef → Result Error BoundCol → Type 0
Resolved ts ref (ok b) = Named ts ref b
Resolved ts ref (err e) = Unnamed ts ref

eq_str_self : (s t : Str) → s ≡ t → eq_str s t ≡ true
eq_str_self s t e = (eq_str_iff s t).1 e

pub names_cell-Offers :
    (ref : ColumnRef) (t : Table) (cell : ℕ) → names_cell ref t ≡ some cell → Offers ref t cell
unfolding names_cell
names_cell-Offers ref t cell h = elim (Option-cases (t.by_name ref.name)) [
  | inl e ↦ absurd (ground (arith, rw (e, names_cell) at h))
  | inr (c, e) ↦ elim (Bool-cases (eq_str ref.table [])) [
    | inl any ↦ (e ∙ (rw (e, any, names_cell) at h), inl (eq_str→eq ref.table [] any))
    | inr asks ↦ elim (Bool-cases (eq_str ref.table t.name)) [
      | inl hit ↦ (e ∙ (rw (e, asks, hit, names_cell) at h), inr (eq_str→eq ref.table t.name hit))
      | inr miss ↦ absurd (ground (arith, rw (e, asks, miss, names_cell) at h))
    ]
  ]
]

pub Offers-names_cell :
    (ref : ColumnRef) (t : Table) (cell : ℕ) → Offers ref t cell → names_cell ref t ≡ some cell
unfolding names_cell
Offers-names_cell ref t cell (e, inl any) = rw (e, eq_str_self ref.table [] any, names_cell) refl
Offers-names_cell ref t cell (e, inr hit) = elim (Bool-cases (eq_str ref.table [])) [
  | inl any ↦ rw (e, any, names_cell) refl
  | inr asks ↦ rw (e, asks, eq_str_self ref.table t.name hit, names_cell) refl
]

module _ (op : Str) (ref : ColumnRef) where
  past_none :
      (i : ℕ) (t : Table) (ts : List Table) (found : Option BoundCol)
      → names_cell ref t ≡ none
      → find_column op ref i (t ∷ ts) found ≡ find_column op ref (suc i) ts found
  unfolding find_column
  past_none i t ts found e = rw (e, find_column) refl

  second_hit :
      (i : ℕ) (t : Table) (ts : List Table) (c : BoundCol) (cell : ℕ)
      → names_cell ref t ≡ some cell
      → find_column op ref i (t ∷ ts) (some c) ≡ err (new_error op ref.name ambiguous_column)
  unfolding find_column
  second_hit i t ts c cell e = rw (e, find_column) refl

  first_hit :
      (i : ℕ) (t : Table) (ts : List Table) (cell : ℕ)
      → names_cell ref t ≡ some cell
      → find_column op ref i (t ∷ ts) none
        ≡ find_column op ref (suc i) ts (some (bind_col t i cell))
  unfolding find_column
  first_hit i t ts cell e = rw (e, find_column) refl

  abbrev pub cell_of : List Table → ℕ → Option ℕ
  cell_of ts k = names_cell ref (get_or ts k no_table)

  abbrev pub NoCell : List Table → Type 0
  NoCell ts = (k cell : ℕ) → k < length ts → cell_of ts k ≡ some cell → ⊥

  abbrev SomeCell : List Table → Type 0
  SomeCell ts = (k : ℕ) × (cell : ℕ) × (k < length ts) × (cell_of ts k ≡ some cell)

  abbrev pub TwoCells : List Table → Type 0
  TwoCells ts =
      (i : ℕ) × (j : ℕ) × (c : ℕ) × (d : ℕ) × (i < j)
      × (j < length ts)
      × (cell_of ts i ≡ some c)
      × (cell_of ts j ≡ some d)

  abbrev pub OneCell : ℕ → List Table → BoundCol → Type 0
  OneCell i ts b =
      (k : ℕ) × (cell : ℕ) × (k < length ts)
      × (cell_of ts k ≡ some cell)
      × (b ≡ bind_col (get_or ts k no_table) (i + k) cell)
      × ((m d : ℕ) → m < length ts → cell_of ts m ≡ some d → m ≡ k)

  NoCell-cons :
      (t : Table) (ts : List Table) → names_cell ref t ≡ none → NoCell ts → NoCell (t ∷ ts)
  NoCell-cons t ts e n zero cell lt h = ground (arith, sym e ∙ h)
  NoCell-cons t ts e n (suc k) cell lt h = n k cell (omega arith) h

  -- Behind a table that has the column.
  abbrev After : List Table → BoundCol → Result Error (Option BoundCol) → Type 0
  After ts c (ok found) = (found ≡ some c) × NoCell ts
  After ts c (err e) = SomeCell ts

  find_column-After :
      (i : ℕ) (ts : List Table) (c : BoundCol) → After ts c (find_column op ref i ts (some c))
  unfolding find_column
  find_column-After i [] c = (refl, λ k cell lt h. absurd (omega arith))
  find_column-After i (t ∷ ts) c = elim (Option-cases (names_cell ref t)) [
    | inr (cell, e) ↦
        subst (After (t ∷ ts) c) (sym (second_hit i t ts c cell e)) (0, cell, omega arith, e)
    | inl e ↦
        subst (After (t ∷ ts) c) (sym (past_none i t ts (some c) e))
          (later (find_column op ref (suc i) ts (some c)) e (find_column-After (suc i) ts c))
  ]
    where
      later :
          (r : Result Error (Option BoundCol))
          → names_cell ref t ≡ none
          → After ts c r
          → After (t ∷ ts) c r
      later (ok found) e (same, n) = (same, NoCell-cons t ts e n)
      later (err x) e (k, cell, lt, h) = (suc k, cell, omega arith, h)

  abbrev pub First : ℕ → List Table → Result Error (Option BoundCol) → Type 0
  First i ts (ok none) = NoCell ts
  First i ts (ok (some b)) = OneCell i ts b
  First i ts (err e) = TwoCells ts

  pub find_column-First : (i : ℕ) (ts : List Table) → First i ts (find_column op ref i ts none)
  unfolding find_column
  find_column-First i [] = λ k cell lt h. absurd (omega arith)
  find_column-First i (t ∷ ts) = elim (Option-cases (names_cell ref t)) [
    | inr (cell, e) ↦ subst (First i (t ∷ ts)) (sym (first_hit i t ts cell e)) (
        here cell e (find_column op ref (suc i) ts (some (bind_col t i cell)))
          (find_column-After (suc i) ts (bind_col t i cell)))
    | inl e ↦
        subst (First i (t ∷ ts)) (sym (past_none i t ts none e))
          (later (find_column op ref (suc i) ts none) e (find_column-First (suc i) ts))
  ]
    where
      only : (cell m d : ℕ) → NoCell ts → m < suc (length ts) → cell_of (t ∷ ts) m ≡ some d → m ≡ 0
      only cell zero d n lt h = refl
      only cell (suc m) d n lt h = absurd (n m d (omega arith) h)

      here :
          (cell : ℕ)
          → names_cell ref t ≡ some cell
          → (r : Result Error (Option BoundCol)) → After ts (bind_col t i cell) r
          → First i (t ∷ ts) r
      here cell e (ok none) (same, n) = absurd cc
      here cell e (ok (some b)) (same, n) = (
        0,
        cell,
        omega arith,
        e,
        ap (from b) same ∙ ap (λ j. bind_col t j cell) (omega arith),
        λ m d lt h. only cell m d n lt h,
      )
        where
          from : BoundCol → Option BoundCol → BoundCol
          from d (some x) = x
          from d none = d
      here cell e (err x) (k, d, lt, h) = (0, suc k, cell, d, omega arith, omega arith, e, h)

      unique :
          (k : ℕ)
          → names_cell ref t ≡ none
          → ((m d : ℕ) → m < length ts → cell_of ts m ≡ some d → m ≡ k)
          → (m d : ℕ) → m < suc (length ts)
          → cell_of (t ∷ ts) m ≡ some d
          → m ≡ suc k
      unique k e u zero d lt h = absurd (ground (arith, sym e ∙ h))
      unique k e u (suc m) d lt h = ap suc (u m d (omega arith) h)

      later :
          (r : Result Error (Option BoundCol))
          → names_cell ref t ≡ none
          → First (suc i) ts r
          → First i (t ∷ ts) r
      later (ok none) e n = NoCell-cons t ts e n
      later (ok (some b)) e (k, cell, lt, h, same, u) = (
        suc k,
        cell,
        omega arith,
        h,
        same ∙ ap (λ j. bind_col (get_or ts k no_table) j cell) (omega arith),
        unique k e u,
      )
      later (err x) e (j, k, c, d, lt, fits, p, q) =
          (suc j, suc k, c, d, omega arith, omega arith, p, q)
