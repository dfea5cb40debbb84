-- ===== src/Query/Where.antt =====
-- The comparisons of cells in msidb/query.go are those of the values that the cells hold.
use go_msi.Prelude.{
  ℕ, ◌==◌, if◌then◌else◌, true, false, [], some, ◌≡◌, refl, ap, sym, ◌∙◌, inl, inr, Bool-cases,
  arith,
}
use go_msi.Prelude.Int.{ℤ, pos}
use go_msi.Prelude.Text.{Str, eq_str, eq_str_iff}
use go_msi.Column.{Column, ColumnType, column_string, column_integer, column_binary, column_invalid}
use go_msi.Format.{decode_int}
use go_msi.Format.Ints.{IsCell}
use go_msi.Sql.{CompareOp}
use go_msi.StringPool.{Pool, lookup_id}
use go_msi.StringPool.Valid.{Valid}
use go_msi.Errors.{ok, >>=-eq-ok, ok_injective, or_value}
use go_msi.Convert.{Any, string_value}
use go_msi.Convert.Range.{int_value-Within}
use go_msi.Query.{Query, eq_ℤ, ordinal, min_int32}
use go_msi.Query.Compile.{
  compares, is_raw, is_equality, is_integer, id_or_none, typed_constant, plain_constant,
  is_null_value, is_binary,
}
use go_msi.Query.Meaning.{
  missing, int, text, datum, typed_value, value_at, eq_datum, holds, typed_datum, wanted, GoodCell,
  TypedCell,
}
use go_msi.Query.Cells.{decode_above, compares_int, compares_int_null, compares_raw}
use go_msi.Query.Texts.{text_filled, text_matches, known, id_one_text}

-- A cell of a column that is not of integers, against NULL.
raw_null :
    (p : Pool) (type : ColumnType) (size raw : ℕ)
    → is_raw raw (pos 0) ≡ eq_datum (value_at p type size raw) missing
raw_null p type size raw = elim (Bool-cases (raw == 0)) [
  | inl z ↦ rw z (ground (arith, z))
  | inr nz ↦ rw nz (filled_null type)
]
  where
    filled_null : (type : ColumnType) → false ≡ eq_datum (typed_value p type size raw) missing
    filled_null column_integer = refl
    filled_null column_string = refl
    filled_null column_binary = refl
    filled_null column_invalid = refl

-- What NULL is compared as.
abbrev null_ordinal : ColumnType → ℤ
null_ordinal column_integer = min_int32
null_ordinal column_string = pos 0
null_ordinal column_binary = pos 0
null_ordinal column_invalid = pos 0

ordinal_null : (c : Column) (type : ColumnType) → c.type ≡ type → ordinal c 0 ≡ null_ordinal type
unfolding ordinal
ordinal_null c column_integer e = rw e refl
ordinal_null c column_string e = rw e refl
ordinal_null c column_binary e = rw e refl
ordinal_null c column_invalid e = rw e refl

null_means_at :
    (p : Pool) (c : Column) (type : ColumnType) (op : CompareOp) (raw : ℕ)
    → c.type ≡ type
    → is_equality op ≡ true
    → TypedCell p type c.size raw
    → compares c op (null_ordinal type) raw ≡ holds op (value_at p type c.size raw) missing
null_means_at p c column_integer op raw e eq g = compares_int_null c op raw e eq g
null_means_at p c column_string op raw e eq g =
    compares_raw c op (pos 0) raw _ _ (ap is_integer e) eq (raw_null p column_string c.size raw)
null_means_at p c column_binary op raw e eq g =
    compares_raw c op (pos 0) raw _ _ (ap is_integer e) eq (raw_null p column_binary c.size raw)
null_means_at p c column_invalid op raw e eq g =
    compares_raw c op (pos 0) raw _ _ (ap is_integer e) eq (raw_null p column_invalid c.size raw)

typed_means :
    (q : Query) (c : Column) (type : ColumnType) (op : CompareOp) (x : Any) (v : ℤ) (raw : ℕ)
    → Valid q.db.pool
    → c.type ≡ type
    → is_null_value x ≡ false
    → typed_constant q type op x ≡ ok v
    → TypedCell q.db.pool type c.size raw
    → compares c op v raw ≡ holds op (value_at q.db.pool type c.size raw) (typed_datum type x)
unfolding typed_constant
typed_means q c column_integer op x v raw valid e filled h g =
    let w = int_value-Within x v 0x7fff_ffff h in
    compares_int c op v raw e (ground (arith, w.1))
    ∙ sym (
        ap (λ r. holds op (value_at q.db.pool column_integer c.size raw) (int (or_value (pos 0) r)))
          h)
typed_means q c column_string op x v raw valid e filled h g = elim (Bool-cases (is_equality op)) [
  | inr out ↦ absurd (ground (arith, rw (out, typed_constant) at h))
  | inl eq ↦
      let (s, a, b) = >>=-eq-ok (string_value x) _ (rw (eq, typed_constant) at h) in
      ap (λ k. compares c op k raw) (sym (ok_injective (id_or_none (lookup_id q.db.pool s)) v b))
      ∙ compares_raw c op _ raw _ _ (ap is_integer e) eq
          (text_matches q.db.pool s raw valid (text_filled x s filled a) g)
      ∙ sym (
          ap (λ r. holds op (value_at q.db.pool column_string c.size raw) (text (or_value [] r))) a)
]
typed_means q c column_binary op x v raw valid e filled h g = absurd cc
typed_means q c column_invalid op x v raw valid e filled h g = absurd cc

-- The comparison of a cell with the constant that a value was converted to.
pub constant_means :
    (q : Query) (c : Column) (op : CompareOp) (x : Any) (v : ℤ) (raw : ℕ)
    → Valid q.db.pool
    → plain_constant q c op x ≡ ok v
    → GoodCell q.db.pool c raw
    → compares c op v raw ≡ holds op (datum q.db.pool c raw) (wanted c x)
unfolding plain_constant
constant_means q c op x v raw valid h g = elim (Bool-cases (is_null_value x)) [
  | inr filled ↦
      rw filled
        (typed_means q c c.type op x v raw valid refl filled (rw (filled, plain_constant) at h) g.1)
  | inl empty ↦ elim (Bool-cases (is_equality op)) [
    | inr out ↦ absurd (ground (arith, rw (empty, out, plain_constant) at h))
    | inl eq ↦ rw empty (
        ap (λ k. compares c op k raw)
          (sym (ok_injective (ordinal c 0) v (rw (empty, eq, plain_constant) at h)))
        ∙ ap (λ k. compares c op k raw) (ordinal_null c c.type refl)
        ∙ null_means_at q.db.pool c c.type op raw refl eq g.1)
  ]
]

invalid_equal :
    (p : Pool) (m n x y : ℕ)
    → eq_ℤ (pos x) (pos y)
      ≡ eq_datum (value_at p column_invalid m x) (value_at p column_invalid n y)
invalid_equal p m n x y = elim (Bool-cases (x == 0)) [
  | inl zx ↦ elim (Bool-cases (y == 0)) [
    | inl zy ↦ rw (zx, zy) (ground (arith, zx, zy))
    | inr ny ↦ rw (zx, ny) (ground (arith, zx, ny))
  ]
  | inr nx ↦ elim (Bool-cases (y == 0)) [
    | inl zy ↦ rw (nx, zy) (ground (arith, nx, zy))
    | inr ny ↦ rw (nx, ny) (ground arith)
  ]
]

texts_equal :
    (p : Pool) (s t : Str) (x y : ℕ)
    → Valid p
    → p.index s ≡ some x
    → p.index t ≡ some y
    → eq_ℤ (pos x) (pos y) ≡ eq_str s t
texts_equal p s t x y valid ex ey = elim (Bool-cases (eq_str s t)) [
  | inl e ↦ rw e (ground (arith, ex, ey, ap p.index ((eq_str_iff s t).0 e)))
  | inr e ↦
      rw e
        (ground (arith, eq_str_iff s t, λ (k : y ≡ x). id_one_text p s t x y valid ex ey (sym k)))
]

strings_equal :
    (p : Pool) (m n x y : ℕ)
    → Valid p
    → TypedCell p column_string m x
    → TypedCell p column_string n y
    → eq_ℤ (pos x) (pos y) ≡ eq_datum (value_at p column_string m x) (value_at p column_string n y)
strings_equal p m n x y valid gx gy = elim (Bool-cases (x == 0)) [
  | inl zx ↦ elim (Bool-cases (y == 0)) [
    | inl zy ↦ rw (zx, zy) (ground (arith, zx, zy))
    | inr ny ↦ rw (zx, ny) (ground (arith, zx, ny))
  ]
  | inr nx ↦ elim (Bool-cases (y == 0)) [
    | inl zy ↦ rw (nx, zy) (ground (arith, nx, zy))
    | inr ny ↦
        let (s, ls) = gx (ground (arith, nx)) in
        let (t, lt) = gy (ground (arith, ny)) in
        rw (nx, ny, ls, lt)
          (texts_equal p s t x y valid (known p x s valid (ground (arith, nx)) ls)
            (known p y t valid (ground (arith, ny)) lt))
  ]
]

ints_equal :
    (p : Pool) (m n x y : ℕ)
    → IsCell m x
    → IsCell n y
    → eq_ℤ
        (if x == 0 then min_int32 else decode_int x m)
        (if y == 0 then min_int32 else decode_int y n)
      ≡ eq_datum (value_at p column_integer m x) (value_at p column_integer n y)
ints_equal p m n x y gx gy = elim (Bool-cases (x == 0)) [
  | inl zx ↦ elim (Bool-cases (y == 0)) [
    | inl zy ↦ rw (zx, zy) (refl)
    | inr ny ↦ rw (zx, ny) (ground (arith, decode_above y n gy (ground (arith, ny))))
  ]
  | inr nx ↦ elim (Bool-cases (y == 0)) [
    | inl zy ↦ rw (nx, zy) (ground (arith, decode_above x m gx (ground (arith, nx))))
    | inr ny ↦ rw (nx, ny) (refl)
  ]
]

-- Two cells of columns of one type.
pub cells_equal :
    (p : Pool) (a b : Column) (type : ColumnType) (x y : ℕ)
    → Valid p
    → a.type ≡ type
    → b.type ≡ type
    → is_binary type ≡ false
    → TypedCell p type a.size x
    → TypedCell p type b.size y
    → eq_ℤ (ordinal a x) (ordinal b y)
      ≡ eq_datum (value_at p type a.size x) (value_at p type b.size y)
unfolding ordinal
cells_equal p a b column_binary x y valid ea eb h gx gy = absurd cc
cells_equal p a b column_invalid x y valid ea eb h gx gy =
    rw (ea, eb) (invalid_equal p a.size b.size x y)
cells_equal p a b column_string x y valid ea eb h gx gy =
    rw (ea, eb) (strings_equal p a.size b.size x y valid gx gy)
cells_equal p a b column_integer x y valid ea eb h gx gy =
    rw (ea, eb) (ints_equal p a.size b.size x y gx gy)
