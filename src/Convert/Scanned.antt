-- ===== src/Convert/Scanned.antt =====
-- Integers that a caller stores in a column and scans into a variable, by msidb/convert.go.
use go_msi.Prelude.{
  ℕ, ◌==◌, ◌≡◌, ◌≢◌, refl, ap, ◌∙◌, if◌then◌else◌, Bool, true, false, Bool-cases, inl, inr, Option,
  none, some, arith,
}
use go_msi.Prelude.Int.{ℤ, neg_part}
use go_msi.Format.{encode_int}
use go_msi.Format.Ints.{Fits, half_range, decode_int-encode_int}
use go_msi.Errors.{value_out_of_range}
use go_msi.Convert.{format_int}
use go_msi.Convert.Assign.{
  IntType, set_value, set_int, set_null_int, Assigned, store_result, int_of_parsed, parse_into,
  parse_null_int, Variable, an_int, an_int_pointer, a_text, a_text_pointer, a_byte_slice, assigned,
  assign_int, assign_string,
}
use go_msi.Convert.IntRange.{IsInt64, holds_int, set_value_lem}
use go_msi.Convert.Decimal.{parse_int-format_int}

-- An integer variable gets the integer if its type holds it; otherwise it keeps what it held, with an
-- error. A pointer variable gets the integer or nil.
abbrev pub scanned : Variable → ℤ → Assigned Variable
scanned (an_int t old) v =
    if holds_int t v
    then record { value = an_int t v; error = none }
    else record { value = an_int t old; error = some value_out_of_range }
scanned (an_int_pointer t old) v =
    if holds_int t v
    then record { value = an_int_pointer t (some v); error = none }
    else record { value = an_int_pointer t none; error = some value_out_of_range }
scanned x v = record { value = x; error = none }

abbrev pub is_integer_variable : Variable → Bool
is_integer_variable (an_int t old) = true
is_integer_variable (an_int_pointer t old) = true
is_integer_variable x = false

-- What `set` does, as the variable sees it.
set_scanned :
    (t : IntType) (old : ℤ) (v : ℤ)
    → IsInt64 v
    → assigned (an_int t) (store_result (λ k. k) old (set_value t v)) ≡ scanned (an_int t old) v
set_scanned t old v h =
    ap (λ r. assigned (an_int t) (store_result (λ k. k) old r)) (set_value_lem t v h) ∙ ground arith

set_scanned_pointer :
    (t : IntType) (old : Option ℤ) (v : ℤ)
    → IsInt64 v
    → assigned (an_int_pointer t) (store_result some none (set_value t v))
      ≡ scanned (an_int_pointer t old) v
set_scanned_pointer t old v h =
    ap (λ r. assigned (an_int_pointer t) (store_result some none r)) (set_value_lem t v h)
    ∙ ground arith

module _ (v : ℤ) (size : ℕ) (fits : Fits size v) (above : neg_part v ≢ half_range size) where
  filled : (encode_int v size == 0) ≡ false
  filled = elim (Bool-cases (encode_int v size == 0)) [
    | inr e ↦ e
    | inl e ↦ absurd (above ((decode_int-encode_int v size fits).2.0 (ground (arith, e))))
  ]

  small : IsInt64 v
  small = ground (arith, fits)

  set_int-encode_int : (t : IntType) → set_int t (encode_int v size) size ≡ set_value t v
  unfolding set_int
  set_int-encode_int t = rw (filled, (decode_int-encode_int v size fits).0) refl

  parse_into-format_int : (t : IntType) → parse_into t (format_int v) false ≡ set_value t v
  unfolding parse_into int_of_parsed
  parse_into-format_int t = rw (parse_int-format_int v small) refl

  set_null_int-encode_int :
      (t : IntType)
      → set_null_int t (encode_int v size) size ≡ store_result some none (set_value t v)
  unfolding set_null_int
  set_null_int-encode_int t = rw (filled, (decode_int-encode_int v size fits).0) refl

  parse_null_int-format_int :
      (t : IntType) → parse_null_int t (format_int v) false ≡ store_result some none (set_value t v)
  unfolding parse_null_int
  parse_null_int-format_int t = ap (store_result some none) (parse_into-format_int t)

  -- An integer of a column's width other than the least, stored in the column or as text in a string
  -- column, is scanned into an integer variable or through a pointer to one: the variable gets the
  -- integer if its type holds it, and otherwise there is an error, with the variable as before and
  -- the pointer nil.
  pub assign-encode :
      (x : Variable)
      → is_integer_variable x ≡ true
      → (assign_int x (encode_int v size) size ≡ scanned x v)
        × (assign_string x (format_int v) false ≡ scanned x v)
  unfolding assign_int assign_string
  assign-encode (an_int t old) h = (
    ap (λ r. assigned (an_int t) (store_result (λ k. k) old r)) (set_int-encode_int t)
        ∙ set_scanned t old v small,
    ap (λ r. assigned (an_int t) (store_result (λ k. k) old r)) (parse_into-format_int t)
        ∙ set_scanned t old v small,
  )
  assign-encode (an_int_pointer t old) h = (
    ap (assigned (an_int_pointer t)) (set_null_int-encode_int t)
        ∙ set_scanned_pointer t old v small,
    ap (assigned (an_int_pointer t)) (parse_null_int-format_int t)
        ∙ set_scanned_pointer t old v small,
  )
  assign-encode (a_text old) h = absurd cc
  assign-encode (a_text_pointer old) h = absurd cc
  assign-encode (a_byte_slice old) h = absurd cc
