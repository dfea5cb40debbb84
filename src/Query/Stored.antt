-- ===== src/Query/Stored.antt =====
-- The values that convertValue of msidb/convert.go accepts for a column.
use go_msi.Prelude.{
  ℕ, if◌then◌else◌, ◌≡◌, ◌≢◌, refl, inl, inr, Bool, true, false, Bool-cases, [], arith,
}
use mathlib.Core.Path.{subst}
use go_msi.Prelude.Text.{Str, eq_str}
use go_msi.Column.{Column, ColumnType, column_string, column_integer, column_binary, column_invalid}
use go_msi.Format.{system_table_streams}
use go_msi.StringPool.{Pool}
use go_msi.StringPool.Codepages.{Checked, fine, not_encodable, invalid_utf8, validate}
use go_msi.Errors.{Problem, ok, err, >>=-eq-ok, ok_injective}
use go_msi.Convert
use go_msi.Convert.{Any, normalize, int_value, string_value, Payload, binary_reader}
use go_msi.Convert.Range.{Within, int_value-Within}
use go_msi.Convert.Store.{
  Stored, null_stored, int_stored, text_stored, payload_stored, is_nil, is_empty_text, int_limit,
  if_fine, text_of_column, convert_typed, convert_plain,
}
use go_msi.Query.Compile.{is_null_value}
use go_msi.Query.Meaning.{Datum, missing, int, text, stream}
use go_msi.Query.Texts.{text_filled}

abbrev pub stored_datum : Stored → Datum
stored_datum null_stored = missing
stored_datum (int_stored n) = int n
stored_datum (text_stored s) = text s
stored_datum (payload_stored r) = stream 1

-- A value that a column of a type may store.
abbrev pub Storable : Column → ColumnType → Stored → Type 0
Storable c type null_stored = c.nullable ≡ true
Storable c type (int_stored n) = (type ≡ column_integer) × Within (int_limit c) n
Storable c type (text_stored s) = (type ≡ column_string) × (s ≢ [])
Storable c type (payload_stored r) = type ≡ column_binary

not_null : (v : Any) → is_nil v ≡ false → is_empty_text v ≡ false → is_null_value v ≡ false
unfolding is_null_value
not_null (Convert.text s) h k = k
not_null Convert.nil h k = h
not_null v h k = refl

text_Storable :
    (encodes : ℕ → ℕ → Bool) (p : Pool) (c : Column) (s : Str) (r : Stored)
    → s ≢ []
    → text_of_column encodes p c s ≡ ok r
    → Storable c column_string r
unfolding text_of_column
text_Storable encodes p c s r filled h = elim (Bool-cases (eq_str c.table system_table_streams)) [
  | inl streams ↦
      subst (Storable c column_string)
        (ok_injective (text_stored s) r (rw (streams, text_of_column) at h)) (refl, filled)
  | inr pooled ↦ checked (validate encodes p s) (rw (pooled, text_of_column) at h)
]
  where
    checked : (k : Checked) → if_fine k s ≡ ok r → Storable c column_string r
    checked fine e =
        subst (Storable c column_string) (ok_injective (text_stored s) r e) (refl, filled)
    checked (not_encodable n) e = cc
    checked invalid_utf8 e = cc

typed-Storable :
    (encodes : ℕ → ℕ → Bool) (p : Pool) (c : Column) (type : ColumnType) (v : Any) (r : Stored)
    → is_null_value v ≡ false
    → convert_typed encodes p c type v ≡ ok r
    → Storable c type r
unfolding convert_typed
typed-Storable encodes p c column_integer v r filled h =
    let (n, e, k) = >>=-eq-ok (int_value v (int_limit c)) _ h in
    subst (Storable c column_integer) (ok_injective (int_stored n) r k)
      (refl, int_value-Within v n (int_limit c) e)
typed-Storable encodes p c column_string v r filled h =
    let (s, e, k) = >>=-eq-ok (string_value v) _ h in
    text_Storable encodes p c s r (text_filled v s filled e) k
typed-Storable encodes p c column_binary v r filled h =
    let (b, e, k) = >>=-eq-ok (binary_reader v) _ h in
    subst (Storable c column_binary) (ok_injective (payload_stored b) r k) refl
typed-Storable encodes p c column_invalid v r filled h = cc

pub plain-Storable :
    (encodes : ℕ → ℕ → Bool) (p : Pool) (c : Column) (v : Any) (r : Stored)
    → convert_plain encodes p c v ≡ ok r
    → Storable c c.type r
unfolding convert_plain
plain-Storable encodes p c v r h = elim (Bool-cases (is_nil v)) [
  | inl n ↦ nullable _ (rw (n, convert_plain) at h)
  | inr not_nil ↦ elim (Bool-cases (is_empty_text v)) [
    | inl e ↦ nullable _ (rw (not_nil, e, convert_plain) at h)
    | inr filled ↦
        typed-Storable encodes p c c.type v r (not_null v not_nil filled)
          (rw (not_nil, filled, convert_plain) at h)
  ]
]
  where
    nullable :
        (e : Problem) → (if c.nullable then ok null_stored else err e) ≡ ok r → Storable c c.type r
    nullable e k = elim (Bool-cases c.nullable) [
      | inl may ↦ subst (Storable c c.type) (ok_injective null_stored r (rw may at k)) may
      | inr refused ↦ absurd (ground (arith, refused, k))
    ]
