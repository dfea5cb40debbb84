-- ===== src/Query/Kept.antt =====
-- A value that msidb/convert.go stores in a cell is the value that a query reads of the cell.
use go_msi.Prelude.{
  ℕ, ◌+◌, ◌^◌, ◌==◌, if◌then◌else◌, ◌<◌, ◌≡◌, ◌≢◌, ◌↔◌, refl, ap, sym, ◌∙◌, inl, inr, Bool, true,
  false, Bool-cases, [], length, some, arith,
}
use mathlib.Core.Path.{subst}
use go_msi.Prelude.Int.{ℤ, neg_part}
use go_msi.Prelude.Text.{Str}
use go_msi.Column.{Column, ColumnType, column_string, column_integer, column_binary, column_invalid}
use go_msi.Format.{encode_int}
use go_msi.Format.Ints.{decode_int-encode_int, half_range, Fits}
use go_msi.StringPool.{Pool, lookup}
use go_msi.StringPool.Slots.{at_id_range}
use go_msi.StringPool.Valid.{Valid}
use go_msi.StringPool.Interned.{Interns}
use go_msi.StringPool.Intern.{intern-Interns}
use go_msi.StringPool.Refs.{lookup-Holds}
use go_msi.Errors.{ok, >>=-eq-ok}
use go_msi.Convert.{Any, normalize}
use go_msi.Convert.Range.{Within}
use go_msi.Convert.Store.{
  Stored, null_stored, int_stored, text_stored, payload_stored, int_limit, convert_value,
  encode_value,
}
use go_msi.Query.Meaning.{missing, text, datum, value_at, TypedCell, GoodCell}
use go_msi.Query.Stored.{stored_datum, Storable, plain-Storable}

-- What encodeValue makes of a value: a cell that holds it, and a pool with what it held before.
pub record Kept (p : Pool) (c : Column) (s : Stored) (raw : ℕ) (q : Pool) : Type 0 where
  pub valid : Valid q
  pub good : GoodCell q c raw
  pub value : datum q c raw ≡ stored_datum s
  pub others : (j : ℕ) (t : Str) → lookup p j ≡ some (t, true) → lookup q j ≡ some (t, true)

int_filled :
    (size : ℕ) (n : ℤ)
    → Within (if size == 2 then 0x7fff else 0x7fff_ffff) n
    → (encode_int n size ≡ 0) ↔ (neg_part n ≡ half_range size)
    → (encode_int n size == 0) ≡ false
int_filled size n w least = elim (Bool-cases (encode_int n size == 0)) [
  | inr e ↦ e
  | inl e ↦ absurd (ground (arith, least.0 (ground (arith, e)), w))
]

int-Kept :
    (p : Pool) (c : Column) (n : ℤ)
    → Valid p
    → c.type ≡ column_integer
    → Within (int_limit c) n
    → Kept p c (int_stored n) (encode_int n c.size) p
int-Kept p c n valid e w =
    let fits : Fits c.size n = ground (arith, w) in
    let (back, cell, least) = decode_int-encode_int n c.size fits in
    let filled : (encode_int n c.size == 0) ≡ false = int_filled c.size n w least in
    record {
      valid = valid;
      good = (
        ground (arith, cell),
        subst (λ t. TypedCell p t c.size (encode_int n c.size)) (sym e) cell,
      );
      value = ap (λ t. value_at p t c.size (encode_int n c.size)) e ∙ rw (filled, back) refl;
      others = λ j t h. h;
    }

id_filled :
    (q : Pool) (s : Str) (id : ℕ) → s ≢ [] → lookup q id ≡ some (s, true) → (id == 0) ≡ false
unfolding lookup
id_filled q s id filled h = elim (Bool-cases (id == 0)) [
  | inr e ↦ e
  | inl e ↦ absurd (filled (ground (arith, rw (e, lookup) at h)))
]

text_value :
    (q : Pool) (size : ℕ) (s : Str) (id : ℕ)
    → (id == 0) ≡ false
    → lookup q id ≡ some (s, true)
    → value_at q column_string size id ≡ text s
text_value q size s id e h = rw (e, h) refl

null_cell : (p : Pool) (type : ColumnType) (size : ℕ) → TypedCell p type size 0
null_cell p column_integer size = ground arith
null_cell p column_string size = λ h. absurd (omega arith)
null_cell p column_binary size = tt
null_cell p column_invalid size = tt

text-Kept :
    (p q : Pool) (c : Column) (s : Str) (k : Bool) (id : ℕ)
    → c.type ≡ column_string
    → s ≢ []
    → Interns s k p id q
    → Kept p c (text_stored s) id q
text-Kept p q c s k id e filled i =
    let pos' : (id == 0) ≡ false = id_filled q s id filled i.found in
    let (x, at, xs, live) = lookup-Holds q id s (ground (arith, pos')) i.found in
    record {
      valid = i.valid;
      good = (
        omega (arith, at_id_range q.entries id x at, i.valid.small),
        subst (λ t. TypedCell q t c.size id) (sym e) (λ h. (s, i.found)),
      );
      value = ap (λ t. value_at q t c.size id) e ∙ text_value q c.size s id pos' i.found;
      others = i.kept;
    }

-- A value that the column may store has a cell, which holds it.
encode_value-Kept :
    (c : Column) (k : Bool) (s : Stored) (p : Pool)
    → Storable c c.type s
    → Valid p
    → length p.entries + 1 < 2 ^ 32
    → (raw : ℕ) × (q : Pool) × (encode_value c k s p ≡ some (raw, q)) × Kept p c s raw q
unfolding encode_value
encode_value-Kept c k null_stored p h valid room = (
  0,
  p,
  refl,
  record {
    valid = valid;
    good = (omega arith, null_cell p c.type c.size);
    value = refl;
    others = λ j t e. e;
  },
)
encode_value-Kept c k (int_stored n) p (e, w) valid room =
    (encode_int n c.size, p, refl, int-Kept p c n valid e w)
encode_value-Kept c k (text_stored s) p (e, filled) valid room =
    let (id, q, made, i) = intern-Interns s k p filled valid room in
    (id, q, made, text-Kept p q c s k id e filled i)
encode_value-Kept c k (payload_stored r) p e valid room = (
  1,
  p,
  refl,
  record {
    valid = valid;
    good = (omega arith, subst (λ t. TypedCell p t c.size 1) (sym e) tt);
    value = ap (λ t. value_at p t c.size 1) e;
    others = λ j t h. h;
  },
)

-- A value that convertValue accepts for a column is encoded: the cell holds the value, it is of the
-- column's width or, for a string, names it in the pool, the pool stays valid and keeps its strings,
-- and it is NULL only where the column is nullable. The pool is valid and has a number left.
pub encode_value-convert_value :
    (encodes : ℕ → ℕ → Bool) (p : Pool) (c : Column) (x : Any) (k : Bool) (s : Stored)
    → convert_value encodes p c x ≡ ok s
    → Valid p
    → length p.entries + 1 < 2 ^ 32
    → (raw : ℕ) × (q : Pool) × (encode_value c k s p ≡ some (raw, q))
      × Kept p c s raw q
      × (raw ≡ 0 → c.nullable ≡ true)
unfolding convert_value
encode_value-convert_value encodes p c x k s h valid room =
    let (v, n, e) = >>=-eq-ok (normalize x) _ h in
    let may = plain-Storable encodes p c v s e in
    let (raw, q, made, kept) = encode_value-Kept c k s p may valid room in
    (raw, q, made, kept, λ z. of_null s may (missing_at q c.type c.size raw z ∙ kept.value))
  where
    missing_at :
        (q : Pool) (t : ColumnType) (size raw : ℕ) → raw ≡ 0 → missing ≡ value_at q t size raw
    missing_at q t size raw z = rw z refl

    of_null : (s : Stored) → Storable c c.type s → missing ≡ stored_datum s → c.nullable ≡ true
    of_null null_stored h e = h
    of_null (int_stored m) h e = ground (arith, e)
    of_null (text_stored t) h e = ground (arith, e)
    of_null (payload_stored r) h e = ground (arith, e)
