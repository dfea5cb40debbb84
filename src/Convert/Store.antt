-- ===== src/Convert/Store.antt =====
-- msidb/convert.go: the values that a column stores, and the cells that they are stored as.
use go_msi.Prelude.{ℕ, ◌==◌, if◌then◌else◌, Bool, true, false, [], Option, some}
use go_msi.Prelude.Int.{ℤ}
use go_msi.Prelude.Text.{Str, eq_str}
use go_msi.Column.{Column, ColumnType, column_string, column_integer, column_binary, column_invalid}
use go_msi.Format.{encode_int, system_table_streams}
use go_msi.StringPool.{Pool, intern}
use go_msi.StringPool.Codepages.{Checked, fine, not_encodable, invalid_utf8, validate}
use go_msi.Errors.{
  Problem, Result, ok, err, ◌>>=◌, null_not_allowed, empty_not_allowed, unsupported_type,
  invalid_text,
}
use go_msi.Convert.{Any, nil, text, normalize, int_value, string_value, Payload, binary_reader}

-- What convertValue returns: nil, an int, a string or a reader.
pub data Stored : Type 0 where
  null_stored : Stored
  int_stored : ℤ → Stored
  text_stored : Str → Stored
  payload_stored : Payload → Stored

abbrev pub is_nil : Any → Bool
is_nil nil = true
is_nil v = false

-- `v == ""`
abbrev pub is_empty_text : Any → Bool
is_empty_text (text s) = eq_str s []
is_empty_text v = false

-- The greatest integer of a column, which is also the magnitude of its least.
abbrev pub int_limit : Column → ℕ
int_limit c = if c.size == 2 then 0x7fff else 0x7fff_ffff

abbrev pub if_fine : Checked → Str → Result Problem Stored
if_fine fine s = ok (text_stored s)
if_fine (not_encodable r) s = err invalid_text
if_fine invalid_utf8 s = err invalid_text

module _ (encodes : ℕ → ℕ → Bool) where
  -- A stream's name is not of the pool, and is not validated. `encodes` is that of Validate.
  unfoldable pub text_of_column : Pool → Column → Str → Result Problem Stored
  text_of_column p c s =
      if eq_str c.table system_table_streams
      then ok (text_stored s)
      else if_fine (validate encodes p s) s

  -- The switch of convertValue on the column's type.
  unfoldable pub convert_typed : Pool → Column → ColumnType → Any → Result Problem Stored
  unfolding text_of_column
  convert_typed p c column_integer v = do n ← int_value v (int_limit c); ok (int_stored n)
  convert_typed p c column_string v = do s ← string_value v; text_of_column p c s
  convert_typed p c column_binary v = do r ← binary_reader v; ok (payload_stored r)
  convert_typed p c column_invalid v = err unsupported_type

  -- convertValue behind normalize.
  unfoldable pub convert_plain : Pool → Column → Any → Result Problem Stored
  unfolding convert_typed
  convert_plain p c v =
      if is_nil v
      then (if c.nullable then ok null_stored else err null_not_allowed)
      else if is_empty_text v
      then (if c.nullable then ok null_stored else err empty_not_allowed)
      else convert_typed p c c.type v

  unfoldable pub convert_value : Pool → Column → Any → Result Problem Stored
  unfolding convert_plain
  convert_value p c x = do v ← normalize x; convert_plain p c v

-- encodeValue, with the pool behind it; `none` is a panic.
unfoldable pub encode_value : Column → Bool → Stored → Pool → Option (ℕ × Pool)
encode_value c persistent null_stored p = some (0, p)
encode_value c persistent (int_stored n) p = some (encode_int n c.size, p)
encode_value c persistent (text_stored s) p = intern s persistent p
encode_value c persistent (payload_stored r) p = some (1, p)
