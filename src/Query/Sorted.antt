-- ===== src/Query/Sorted.antt =====
-- Records in the order of their keys stand in the order of the values of their first key, by which
-- msidb/query.go searches them.
use go_msi.Prelude.{
  ℕ, zero, suc, false, ◌==◌, ltb, ◌≤◌, ◌<◌, ◌≡◌, ◌≢◌, refl, ap, sym, inl, inr, Bool-cases, List, [],
  ◌∷◌, length, get_or, arith,
}
use mathlib.Core.Path.{subst}
use go_msi.Prelude.Int.{◌≤ℤ◌}
use go_msi.Column.{Column, ColumnType, column_string, column_integer, column_binary, column_invalid}
use go_msi.Format.Ints.{decode_int_mono}
use go_msi.StringPool.{Pool}
use go_msi.Table.{Table, Row, no_row, cell_at, col_at}
use go_msi.Table.Keys.{KeyLess, first_key_le}
use go_msi.Table.Find.{IsSorted}
use go_msi.Query.{ordinal}
use go_msi.Query.Window.{Ordered}
use go_msi.Query.Meaning.{TypedCell, GoodRow}
use go_msi.Query.Cells.{decode_above}
use go_msi.Query.Scans.{AllOrdered}

abbrev pub AllRows : Pool → Table → List Row → Type 0
AllRows p t [] = Unit {0}
AllRows p t (rec ∷ rows) = GoodRow p t rec × AllRows p t rows

abbrev pub AllGood : Pool → List Table → Type 0
AllGood p [] = Unit {0}
AllGood p (t ∷ ts) = AllRows p t t.records × AllGood p ts

ordinal_mono :
    (p : Pool) (c : Column) (type : ColumnType) (x y : ℕ)
    → c.type ≡ type
    → TypedCell p type c.size x
    → TypedCell p type c.size y
    → x ≤ y
    → ordinal c x ≤ℤ ordinal c y
unfolding ordinal
ordinal_mono p c column_string x y e gx gy h = rw e (omega arith)
ordinal_mono p c column_binary x y e gx gy h = rw e (omega arith)
ordinal_mono p c column_invalid x y e gx gy h = rw e (omega arith)
ordinal_mono p c column_integer x y e gx gy h = rw e (elim (Bool-cases (x == 0)) [
  | inl zx ↦ elim (Bool-cases (y == 0)) [
    | inl zy ↦ rw (zx, zy) (omega arith)
    | inr ny ↦ rw (zx, ny) (ground (arith, decode_above y c.size gy (ground (arith, ny))))
  ]
  | inr nx ↦
      let ny : (y == 0) ≡ false = ground (arith, nx) in
      rw (nx, ny) ((decode_int_mono x y c.size gx gy).1 h)
])

row_good :
    (p : Pool) (t : Table) (rows : List Row) (i : ℕ)
    → AllRows p t rows
    → i < length rows
    → GoodRow p t (get_or rows i no_row)
row_good p t [] i a h = absurd (omega arith)
row_good p t (rec ∷ rows) zero (a, as') h = a
row_good p t (rec ∷ rows) (suc i) (a, as') h = row_good p t rows i as' (omega arith)

IsSorted-Ordered :
    (p : Pool) (t : Table) (k : ℕ) (ks : List ℕ)
    → t.keys ≡ k ∷ ks
    → IsSorted t.keys t.records
    → AllRows p t t.records
    → Ordered t
IsSorted-Ordered p t k ks e sorted good i j h fits =
    let x = get_or t.records i no_row in
    let y = get_or t.records j no_row in
    let first : get_or t.keys 0 0 ≡ k = ap (λ l. get_or l 0 0) e in
    subst (λ n. ordinal (col_at t n) (cell_at x n) ≤ℤ ordinal (col_at t n) (cell_at y n))
      (sym first)
      (ordinal_mono p (col_at t k) (col_at t k).type (cell_at x k) (cell_at y k) refl
        (row_good p t t.records i good (omega arith) k).1 (row_good p t t.records j good fits k).1
        (elim (Bool-cases (ltb i j)) [
          | inl lt ↦
              first_key_le k ks x y
                (subst (λ l. KeyLess l x y) e (sorted i j (ground (arith, lt)) fits))
          | inr no_lt ↦
              let same' : i ≡ j = ground (arith, no_lt) in
              subst (λ m. cell_at x k ≤ cell_at (get_or t.records m no_row) k) same' (omega arith)
        ]))

-- Tables with a key, whose records stand in the order of their keys.
abbrev pub AllSorted : List Table → Type 0
AllSorted [] = Unit {0}
AllSorted (t ∷ ts) = ((t.keys ≢ []) × IsSorted t.keys t.records) × AllSorted ts

pub AllSorted-AllOrdered :
    (p : Pool) (ts : List Table) → AllSorted ts → AllGood p ts → AllOrdered ts
AllSorted-AllOrdered p [] s g = tt
AllSorted-AllOrdered p (t ∷ ts) (s, ss) (g, gs) =
    (of_keys t.keys refl, AllSorted-AllOrdered p ts ss gs)
  where
    of_keys : (ks : List ℕ) → t.keys ≡ ks → Ordered t
    of_keys [] e = absurd (s.0 e)
    of_keys (k ∷ ks) e = IsSorted-Ordered p t k ks e s.1 g
