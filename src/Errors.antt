-- ===== src/Errors.antt =====
-- msidb/errors.go: the errors of a database's operations, with what went wrong as data in place of
-- the source's texts.
use go_msi.Prelude.{◌++◌, ◌≡◌, refl, ap}
use go_msi.Prelude.Text.{Str, bytes}
use go_msi.Column.{Column, ColumnType}
use go_msi.Table.{Table}

pub data Problem : Type 0 where
  exist not_exist no_rows database_closed : Problem
  duplicate_table ambiguous_column not_in_table_list unsupported_expression : Problem
  incomparable : ColumnType → ColumnType → Problem
  null_operator string_operator : Problem
  cannot_compare : ColumnType → Problem
  valuer_failed value_out_of_range expected_integer expected_string expected_reader : Problem
  null_not_allowed empty_not_allowed unsupported_type invalid_text : Problem
  read_only temporary_binary no_primary_key no_stream_name bad_stream_name update_key : Problem
  required : Str → Problem
  nil_destination null_into_integer not_an_integer cannot_scan : Problem

pub record Error : Type 0 where
  pub op : Str
  pub name : Str
  pub problem : Problem

unfoldable pub new_error : Str → Str → Problem → Error
new_error op name p = record { op = op; name = name; problem = p }

unfoldable pub new_col_error : Str → Table → Column → Problem → Error
unfolding new_error
new_col_error op t c p = new_error op (t.name ++ (bytes "." ++ c.name)) p

-- The value and the error that a Go function returns: one of them.
pub data Result {ℓ κ} (E : Type ℓ) (A : Type κ) : Type (ℓ ⊔ κ) where
  ok : A → Result E A
  err : E → Result E A

infixl 5 ◌>>=◌
abbrev pub ◌>>=◌ {ℓ κ μ} :
    {E : Type ℓ} {A : Type κ} {B : Type μ} → Result E A → (A → Result E B) → Result E B
ok a >>= f = f a
err e >>= f = err e

-- `if err != nil { return newError(…, err) }`
abbrev pub wrap {ℓ κ μ} : {E : Type ℓ} {F : Type κ} {A : Type μ} → (E → F) → Result E A → Result F A
wrap f (ok a) = ok a
wrap f (err e) = err (f e)

-- A call that succeeds has made its first step, and goes on from there.
pub >>=-eq-ok {ℓ κ μ} :
    {E : Type ℓ} {A : Type κ} {B : Type μ} (r : Result E A) (f : A → Result E B) {b : B}
    → (r >>= f) ≡ ok b
    → (a : A) × (r ≡ ok a) × (f a ≡ ok b)
>>=-eq-ok (ok a) f h = (a, refl, h)
>>=-eq-ok (err e) f h = cc

pub wrap-eq-ok {ℓ κ μ} :
    {E : Type ℓ} {F : Type κ} {A : Type μ} (f : E → F) (r : Result E A) {a : A}
    → wrap f r ≡ ok a
    → r ≡ ok a
wrap-eq-ok f (ok a) h = cc
wrap-eq-ok f (err e) h = cc

-- The value of a call that succeeds.
abbrev pub or_value {ℓ κ} : {E : Type ℓ} {A : Type κ} → A → Result E A → A
or_value d (ok a) = a
or_value d (err e) = d

pub ok_injective {ℓ κ} :
    {E : Type ℓ} {A : Type κ} (a b : A) → ◌≡◌ {A = Result E A} (ok a) (ok b) → a ≡ b
ok_injective a b h = ap (or_value a) h
