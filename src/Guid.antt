-- ===== src/Guid.antt =====
-- internal/guid/guid.go: GUIDs as text and as the 16 bytes of COM.
pub mod RoundTrip
use go_msi.Prelude.{
  ℕ, zero, suc, ◌+◌, ◌-◌, ◌*◌, ◌/◌, ◌%◌, ◌==◌, ◌&&◌, leb, ltb, if◌then◌else◌, Bool, List, [], ◌∷◌,
  ◌++◌, Option, none, some, length, take, drop, get_or,
}
use go_msi.Prelude.Text.{Str, bytes, eq_str, has_prefix}
use go_msi.Prelude.Panics.{◌>>=◌}

-- A digit of encoding/hex, of either case.
unfoldable pub hex_value : ℕ → Option ℕ
hex_value c =
    if leb b'0' c && leb c b'9'
    then some (c - b'0')
    else if leb b'a' c && leb c b'f'
    then some (c - b'a' + 10)
    else if leb b'A' c && leb c b'F'
    then some (c - b'A' + 10)
    else none

-- hex.Decode; `none` is an error, of a digit or of an odd length.
unfoldable pub hex_decode : Str → Option Str
hex_decode [] = some []
hex_decode (x ∷ []) = none
hex_decode (x ∷ y ∷ s) = do
  high ← hex_value x
  low ← hex_value y
  rest ← hex_decode s
  some ((high * 16 + low) ∷ rest)

-- hex.EncodeToString
unfoldable pub hex_digit : ℕ → ℕ
hex_digit n = if ltb n 10 then b'0' + n else b'a' + n - 10

unfoldable pub hex_encode : Str → Str
hex_encode [] = []
hex_encode (b ∷ s) = hex_digit (b / 16) ∷ hex_digit (b % 16) ∷ hex_encode s

-- strings.ToUpper on ASCII
unfoldable pub upper_ascii : Str → Str
upper_ascii [] = []
upper_ascii (c ∷ s) = (if leb b'a' c && leb c b'z' then c - 32 else c) ∷ upper_ascii s

unfoldable pub reverse_bytes : Str → Str → Str
reverse_bytes [] acc = acc
reverse_bytes (b ∷ s) acc = reverse_bytes s (b ∷ acc)

-- The three calls of slices.Reverse, on b[0:4], b[4:6] and b[6:8].
unfoldable pub swap_fields : Str → Str
swap_fields b =
    reverse_bytes (take 4 b) []
    ++ reverse_bytes (take 2 (drop 4 b)) []
    ++ reverse_bytes (take 2 (drop 6 b)) []
    ++ drop 8 b

unfoldable pub has_suffix : Str → Str → Bool
has_suffix s t = leb (length t) (length s) && eq_str (drop (length s - length t) s) t

unfoldable pub strip_braces : Str → Str
strip_braces s =
    if has_prefix s (bytes "{") && has_suffix s (bytes "}")
    then take (length s - 2) (drop 1 s)
    else s

abbrev pub is_dash : Str → ℕ → Bool
is_dash s i = get_or s i 0 == b'-'

unfoldable pub has_dashes : Str → Bool
has_dashes s = length s == 36 && is_dash s 8 && is_dash s 13 && is_dash s 18 && is_dash s 23

unfoldable pub drop_dashes : Str → Str
drop_dashes s =
    take 8 s ++ take 4 (drop 9 s) ++ take 4 (drop 14 s) ++ take 4 (drop 19 s) ++ drop 24 s

-- The digits of a text with or without dashes, read as bytes.
unfoldable pub parse_digits : Str → Option Str
parse_digits src =
    if has_dashes src
    then hex_decode (drop_dashes src)
    else if length src == 32
    then hex_decode src
    else none

-- Parse; `none` is its error.
unfoldable pub parse : Str → Option Str
parse s = do b ← parse_digits (strip_braces s); some (swap_fields b)

unfoldable pub add_dashes : Str → Str
add_dashes h =
    take 8 h
    ++ bytes "-"
    ++ take 4 (drop 8 h)
    ++ bytes "-"
    ++ take 4 (drop 12 h)
    ++ bytes "-"
    ++ take 4 (drop 16 h)
    ++ bytes "-"
    ++ take 12 (drop 20 h)

-- Format
unfoldable pub format : Str → Str
format b = add_dashes (upper_ascii (hex_encode (swap_fields b)))
