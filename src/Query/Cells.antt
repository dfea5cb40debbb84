-- ===== src/Query/Cells.antt =====
-- The tests on cells of msidb/query.go are tests on the values that the cells hold.
use go_msi.Prelude.{
  ℕ, ◌==◌, not, if◌then◌else◌, Bool, true, false, ◌<◌, ◌≡◌, refl, inl, inr, Bool-cases, arith,
}
use go_msi.Prelude.Int.{ℤ, ltb_ℤ}
use go_msi.Column.{Column, column_integer}
use go_msi.Format.{decode_int}
use go_msi.Format.Ints.{IsCell, decode_int_lem}
use go_msi.Sql.{
  CompareOp, op_equal, op_not_equal, op_less, op_less_equal, op_greater, op_greater_equal,
}
use go_msi.Query.{compare_int, ordinal, min_int32}
use go_msi.Query.Compile.{compares, iff, is_raw, is_equality, is_integer}
use go_msi.Query.Meaning.{Datum, missing, int, eq_datum, holds}

-- A cell that is not NULL lies above the least integer, which stands for NULL.
pub decode_above :
    (raw size : ℕ) → IsCell size raw → 0 < raw → ltb_ℤ min_int32 (decode_int raw size) ≡ true
decode_above raw size h some' = ground (arith, decode_int_lem raw size h)

-- A comparison of integers.
pub compares_int :
    (c : Column) (op : CompareOp) (v : ℤ) (raw : ℕ)
    → c.type ≡ column_integer
    → ltb_ℤ min_int32 v ≡ true
    → compares c op v raw
      ≡ holds op (if raw == 0 then missing else int (decode_int raw c.size)) (int v)
unfolding compares compare_int ordinal
compares_int c op_equal v raw e range =
    rw e
      (elim (Bool-cases (raw == 0)) [ inl z ↦ rw z (ground (arith, range)) | inr nz ↦ rw nz refl ])
compares_int c op_not_equal v raw e range =
    rw e
      (elim (Bool-cases (raw == 0)) [ inl z ↦ rw z (ground (arith, range)) | inr nz ↦ rw nz refl ])
compares_int c op_less v raw e range =
    rw e
      (elim (Bool-cases (raw == 0)) [ inl z ↦ rw z (ground (arith, range)) | inr nz ↦ rw nz refl ])
compares_int c op_less_equal v raw e range =
    rw e
      (elim (Bool-cases (raw == 0)) [ inl z ↦ rw z (ground (arith, range)) | inr nz ↦ rw nz refl ])
compares_int c op_greater v raw e range =
    rw e
      (elim (Bool-cases (raw == 0)) [ inl z ↦ rw z (ground (arith, range)) | inr nz ↦ rw nz refl ])
compares_int c op_greater_equal v raw e range =
    rw e
      (elim (Bool-cases (raw == 0)) [ inl z ↦ rw z (ground (arith, range)) | inr nz ↦ rw nz refl ])

-- A comparison of an integer column with NULL.
pub compares_int_null :
    (c : Column) (op : CompareOp) (raw : ℕ)
    → c.type ≡ column_integer
    → is_equality op ≡ true
    → IsCell c.size raw
    → compares c op min_int32 raw
      ≡ holds op (if raw == 0 then missing else int (decode_int raw c.size)) missing
unfolding compares compare_int ordinal
compares_int_null c op_equal raw e eq cell = rw e (elim (Bool-cases (raw == 0)) [
  | inl z ↦ rw z (ground arith)
  | inr nz ↦ rw nz (ground (arith, decode_above raw c.size cell (ground (arith, nz))))
])
compares_int_null c op_not_equal raw e eq cell = rw e (elim (Bool-cases (raw == 0)) [
  | inl z ↦ rw z (ground arith)
  | inr nz ↦ rw nz (ground (arith, decode_above raw c.size cell (ground (arith, nz))))
])
compares_int_null c op_less raw e eq cell = absurd (ground (arith, eq))
compares_int_null c op_less_equal raw e eq cell = absurd (ground (arith, eq))
compares_int_null c op_greater raw e eq cell = absurd (ground (arith, eq))
compares_int_null c op_greater_equal raw e eq cell = absurd (ground (arith, eq))

iff_true : (b : Bool) → iff b true ≡ b
iff_true true = refl
iff_true false = refl

iff_false : (b : Bool) → iff b false ≡ not b
iff_false true = refl
iff_false false = refl

-- A comparison of any other column, by the cell alone.
pub compares_raw :
    (c : Column) (op : CompareOp) (v : ℤ) (raw : ℕ) (d k : Datum)
    → is_integer c.type ≡ false
    → is_equality op ≡ true
    → is_raw raw v ≡ eq_datum d k
    → compares c op v raw ≡ holds op d k
unfolding compares
compares_raw c op_equal v raw d k e eq h = rw (e, h) (iff_true (eq_datum d k))
compares_raw c op_not_equal v raw d k e eq h = rw (e, h) (iff_false (eq_datum d k))
compares_raw c op_less v raw d k e eq h = absurd (ground (arith, eq))
compares_raw c op_less_equal v raw d k e eq h = absurd (ground (arith, eq))
compares_raw c op_greater v raw d k e eq h = absurd (ground (arith, eq))
compares_raw c op_greater_equal v raw d k e eq h = absurd (ground (arith, eq))
