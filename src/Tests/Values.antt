-- ===== src/Tests/Values.antt =====
-- Values of msidb/convert.go, stored and scanned.
use go_msi.Prelude.{ℕ, ◌≡◌, Bool, refl, true, false, if◌then◌else◌, some, arith}
use go_msi.Prelude.Int.{pos, negsuc}
use go_msi.Prelude.Text.{bytes, eq_str}
use go_msi.Column.{Column, column_string}
use go_msi.Format.{encode_int}
use go_msi.StringPool.{Pool, empty_pool}
use go_msi.StringPool.Valid.{empty_pool-Valid}
use go_msi.StringPool.Codepages.{validate, first_unwritable, among}
use go_msi.Utf8.{runes}
use go_msi.Convert.Store.{
  text_stored, convert_value, convert_plain, convert_typed, text_of_column, encode_value,
}
use go_msi.Query.Kept.{Kept, encode_value-convert_value}
use go_msi.Errors.{ok, err, value_out_of_range, expected_integer}
use go_msi.Convert.{
  text, number, named, pointer, valuer, normalize, reduce, string_value, int_value, in_range,
  int_of_text, parse_int, parse_digits_of, parse_uint, signed_number, format_int, decimal,
}
use go_msi.Convert.Range.{Within, int_value-Within}
use go_msi.Convert.Assign.{int8, uint16, an_int, set_value, assign_int, assign_string}
use go_msi.Convert.IntRange.{holds_int, set_value_lem}
use go_msi.Convert.Scanned.{scanned, assign-encode}

reads_text : int_value (text (bytes "-32768")) 32767 ≡ err value_out_of_range
unfolding int_value int_of_text parse_int parse_digits_of parse_uint signed_number in_range
reads_text = refl

reads_junk : int_value (text (bytes "12x")) 32767 ≡ err expected_integer
unfolding int_value int_of_text parse_int parse_digits_of parse_uint signed_number in_range
reads_junk = refl

-- A pointer to a named type that is a Valuer.
through_pointer : normalize (pointer (valuer (named (number (pos 7))))) ≡ ok (number (pos 7))
unfolding normalize reduce
through_pointer = refl

int_value-Within_example : Within 32767 (negsuc 11)
unfolding int_value int_of_text parse_int parse_digits_of parse_uint signed_number in_range
int_value-Within_example = int_value-Within (text (bytes "-12")) (negsuc 11) 32767 refl

set_value_lem_example :
    set_value uint16 (negsuc 0)
    ≡ (if holds_int uint16 (negsuc 0) then ok (negsuc 0) else err value_out_of_range)
set_value_lem_example = set_value_lem uint16 (negsuc 0) (omega arith)

assign-encode_example :
    (assign_int (an_int int8 (pos 3)) (encode_int (pos 200) 2) 2
      ≡ scanned (an_int int8 (pos 3)) (pos 200))
    × (assign_string (an_int int8 (pos 3)) (format_int (pos 200)) false
        ≡ scanned (an_int int8 (pos 3)) (pos 200))
assign-encode_example =
    assign-encode (pos 200) 2 (omega arith) (λ h. omega arith) (an_int int8 (pos 3)) refl

-- A string column that may be NULL.
abbrev name_column : Column
name_column = record {
  name = bytes "Name";
  type = column_string;
  size = 72;
  primary_key = false;
  nullable = true;
  localizable = true;
  temporary = false;
  table = bytes "Property";
}

abbrev all_encode : ℕ → ℕ → Bool
all_encode cp r = true

abbrev no_strings : Pool
no_strings = empty_pool 1252 false

encode_value-convert_value_example :
    (raw : ℕ) × (q : Pool) × (encode_value name_column true (text_stored (bytes "42")) no_strings
      ≡ some (raw, q))
    × Kept no_strings name_column (text_stored (bytes "42")) raw q
    × (raw ≡ 0 → name_column.nullable ≡ true)
unfolding convert_value convert_plain convert_typed text_of_column string_value format_int decimal
    normalize reduce eq_str validate first_unwritable runes among empty_pool
encode_value-convert_value_example =
    encode_value-convert_value all_encode no_strings name_column (number (pos 42)) true
      (text_stored (bytes "42")) refl (empty_pool-Valid 1252 false) (omega arith)
