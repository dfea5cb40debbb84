-- ===== src/Query/Constants.antt =====
-- The constants that columns are compared with in msidb/query.go.
use go_msi.Prelude.{
  ℕ, ◌^◌, ◌<◌, ◌≡◌, refl, inl, inr, true, false, Bool-cases, Option-cases, [], arith,
}
use go_msi.Prelude.Int.{ℤ, pos, negsuc}
use go_msi.Column.{Column, ColumnType, column_string, column_integer, column_binary, column_invalid}
use go_msi.Sql.{CompareOp, op_equal}
use go_msi.StringPool.{Pool, lookup_id}
use go_msi.StringPool.Slots.{at_id_range}
use go_msi.Prelude.Text.{Str, eq_str}
use go_msi.Convert.{Any, string_value}
use mathlib.Core.Path.{subst}
use go_msi.StringPool.Valid.{Valid}
use go_msi.Errors.{ok, >>=-eq-ok, ok_injective}
use go_msi.Query.{Query, ordinal, eq_ℤ, compare_int}
use go_msi.Query.Compile.{
  plain_constant, typed_constant, id_or_none, is_null_value, is_equality, compares, is_integer,
}

-- A constant that no cell is wider than.
abbrev pub Small : ℤ → Type 0
Small (pos n) = n < 2 ^ 32
Small (negsuc n) = Unit {0}

eq_ℤ_refl : (a : ℤ) → eq_ℤ a a ≡ true
eq_ℤ_refl a = ground arith

pub compares_found :
    (c : Column) (type : ColumnType) (v : ℤ) (raw : ℕ)
    → c.type ≡ type
    → (is_integer type ≡ false → Small v)
    → compares c op_equal v raw ≡ true
    → eq_ℤ (ordinal c raw) v ≡ true
unfolding compares compare_int ordinal
compares_found c column_integer v raw e small h = rw e (rw (e, compares) at h)
compares_found c column_string (pos n) raw e small h =
    rw e (ground (arith, small refl, rw (e, compares) at h))
compares_found c column_binary (pos n) raw e small h =
    rw e (ground (arith, small refl, rw (e, compares) at h))
compares_found c column_invalid (pos n) raw e small h =
    rw e (ground (arith, small refl, rw (e, compares) at h))
compares_found c column_string (negsuc n) raw e small h =
    absurd (ground (arith, rw (e, compares) at h))
compares_found c column_binary (negsuc n) raw e small h =
    absurd (ground (arith, rw (e, compares) at h))
compares_found c column_invalid (negsuc n) raw e small h =
    absurd (ground (arith, rw (e, compares) at h))

lookup_id-Small : (p : Pool) (s : Str) → Valid p → Small (id_or_none (lookup_id p s))
unfolding lookup_id
lookup_id-Small p s v = elim (Bool-cases (eq_str s [])) [
  | inl e ↦ rw e (omega arith)
  | inr e ↦ elim (Option-cases (p.index s)) [
    | inl out ↦ rw (e, out) tt
    | inr (id, known) ↦
        let (x, at, text, live) = v.sound s id known in
        rw (e, known) (omega (arith, at_id_range p.entries id x at, v.small))
  ]
]

ordinal_null-Small :
    (c : Column) (type : ColumnType) → c.type ≡ type → is_integer type ≡ false → Small (ordinal c 0)
unfolding ordinal
ordinal_null-Small c column_string e h = rw e (omega arith)
ordinal_null-Small c column_binary e h = rw e (omega arith)
ordinal_null-Small c column_invalid e h = rw e (omega arith)
ordinal_null-Small c column_integer e h = cc

typed-Small :
    (q : Query) (type : ColumnType) (op : CompareOp) (lit : Any) (v : ℤ)
    → Valid q.db.pool
    → is_integer type ≡ false
    → typed_constant q type op lit ≡ ok v
    → Small v
unfolding typed_constant
typed-Small q column_integer op lit v valid other h = cc
typed-Small q column_binary op lit v valid other h = cc
typed-Small q column_invalid op lit v valid other h = cc
typed-Small q column_string op lit v valid other h = elim (Bool-cases (is_equality op)) [
  | inr out ↦ absurd (ground (arith, rw (out, typed_constant) at h))
  | inl e ↦
      let (s, a, b) = >>=-eq-ok (string_value lit) _ (rw (e, typed_constant) at h) in
      subst Small (ok_injective (id_or_none (lookup_id q.db.pool s)) v b)
        (lookup_id-Small q.db.pool s valid)
]

-- The constant of a column that is not of integers is a string's number, or that of NULL.
pub constant-Small :
    (q : Query) (c : Column) (op : CompareOp) (lit : Any) (v : ℤ)
    → Valid q.db.pool
    → is_integer c.type ≡ false
    → plain_constant q c op lit ≡ ok v
    → Small v
unfolding plain_constant
constant-Small q c op lit v valid other h = elim (Bool-cases (is_null_value lit)) [
  | inr filled ↦ typed-Small q c.type op lit v valid other (rw (filled, plain_constant) at h)
  | inl empty ↦ elim (Bool-cases (is_equality op)) [
    | inr out ↦ absurd (ground (arith, rw (empty, out, plain_constant) at h))
    | inl e ↦
        subst Small (ok_injective (ordinal c 0) v (rw (empty, e, plain_constant) at h))
          (ordinal_null-Small c c.type refl other)
  ]
]
