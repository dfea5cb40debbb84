-- ===== src/Tests/Guids.antt =====
-- internal/guid on the class of an installer database.
use go_msi.Prelude.{◌≡◌, [], ◌∷◌, ◌++◌, some, none, refl, arith}
use go_msi.Prelude.Text.{Str, bytes, has_prefix}
use go_msi.Guid.{
  hex_value, hex_decode, hex_digit, hex_encode, upper_ascii, reverse_bytes, swap_fields, has_suffix,
  strip_braces, has_dashes, parse_digits, parse, add_dashes, format,
}
use go_msi.Guid.RoundTrip.{AllBytes, parse-format, parse-braces}

-- 000C1084-0000-0000-C000-000000000046
abbrev class : Str
class = 0x84 ∷ 0x10 ∷ 0x0c ∷ 0 ∷ 0 ∷ 0 ∷ 0 ∷ 0 ∷ 0xc0 ∷ 0 ∷ 0 ∷ 0 ∷ 0 ∷ 0 ∷ 0 ∷ 0x46 ∷ []

class_text : format class ≡ bytes "000C1084-0000-0000-C000-000000000046"
unfolding hex_digit hex_encode upper_ascii reverse_bytes swap_fields add_dashes format
class_text = refl

lower_case : parse (bytes "000c108400000000c000000000000046") ≡ some class
unfolding hex_value hex_decode has_prefix has_suffix strip_braces has_dashes parse_digits parse
    reverse_bytes swap_fields
lower_case = refl

bad_digit : parse (bytes "000g108400000000c000000000000046") ≡ none
unfolding hex_value hex_decode has_prefix has_suffix strip_braces has_dashes parse_digits parse
bad_digit = refl

class-AllBytes : AllBytes class
class-AllBytes = grind arith

parse-format_example : parse (format class) ≡ some class
parse-format_example = parse-format class refl class-AllBytes

parse-braces_example : parse (bytes "{" ++ format class ++ bytes "}") ≡ some class
parse-braces_example = parse-braces class refl class-AllBytes
