-- ===== src/Sql/Scan.antt =====
-- internal/sql/scan.go: the scanner.
pub mod Progress
use go_msi.Prelude.{
  ℕ, zero, suc, ◌+◌, ◌==◌, ◌||◌, ◌&&◌, leb, if◌then◌else◌, Bool, true, false, List, [], ◌∷◌, Option,
  none, some, take, drop,
}
use go_msi.Prelude.Text.{Str, bytes, eq_str}
use go_msi.Sql.Token.{
  Kind, Token, keyword_kind, kind_error, kind_eof, kind_ident, kind_string, kind_int, kind_param,
  kind_l_paren, kind_r_paren, kind_comma, kind_dot, kind_star, kind_eq, kind_ne, kind_lt, kind_le,
  kind_gt, kind_ge,
}

-- The texts of errors, with what the source formats into them. `expected` is "expected %s".
pub data Msg : Type 0 where
  unexpected_character : ℕ → Msg
  unrecognized_token : Str → Msg
  expected : Str → Msg
  expected_values : ℕ → Msg
  out_of_range : Str → Msg
  plain : Str → Msg

pub record SqlError : Type 0 where
  pub pos : ℕ
  pub msg : Msg

-- `input` and `pos`: the bytes from the scan position on, and that position.
pub record Scanner : Type 0 where
  pub rest : Str
  pub pos : ℕ
  pub err : Option SqlError

unfoldable pub is_space : ℕ → Bool
is_space b = b == 32 || b == 9 || b == 10 || b == 13 || b == 12

unfoldable pub is_digit : ℕ → Bool
is_digit b = leb b'0' b && leb b b'9'

unfoldable pub is_ident_start : ℕ → Bool
is_ident_start b =
    b == b'_' || b == b'$' || leb 0x80 b || leb b'a' b && leb b b'z' || leb b'A' b && leb b b'Z'

unfoldable pub is_ident : ℕ → Bool
unfolding is_ident_start is_digit
is_ident b = is_ident_start b || is_digit b

-- The first error stays.
abbrev pub keep_first : Option SqlError → SqlError → Option SqlError
keep_first none e = some e
keep_first (some e) _ = some e

unfoldable pub errorf : Scanner → ℕ → Msg → Token × Scanner
errorf s pos msg = (
  record { kind = kind_error; text = []; pos = pos },
  record s { err = keep_first s.err (record { pos = pos; msg = msg }) },
)

-- `s.pos += n`
unfoldable pub forward : ℕ → Scanner → Scanner
forward n s = record s { rest = drop n s.rest; pos = s.pos + n }

-- A token of the next n bytes: the source moves on first and slices then.
unfoldable pub tok : Kind → ℕ → Scanner → Token × Scanner
unfolding forward
tok k n s = (record { kind = k; text = take n s.rest; pos = s.pos }, forward n s)

-- The bytes at the front that pass a test.
unfoldable pub count_while : (ℕ → Bool) → Str → ℕ
count_while p [] = 0
count_while p (b ∷ s) = if p b then suc (count_while p s) else 0

-- strings.IndexByte, `none` for -1
unfoldable pub index_byte : ℕ → Str → Option ℕ
index_byte c [] = none
index_byte c (b ∷ s) =
    if b == c then some 0 else elim (index_byte c s) [ none ↦ none | some n ↦ some (suc n) ]

-- The scanner stands on the byte in front of `r`.
unfoldable pub scan_less : Str → Scanner → Token × Scanner
unfolding tok
scan_less [] s = tok kind_lt 1 s
scan_less (b ∷ r) s =
    if b == b'=' then tok kind_le 2 s else if b == b'>' then tok kind_ne 2 s else tok kind_lt 1 s

unfoldable pub scan_greater : Str → Scanner → Token × Scanner
unfolding tok
scan_greater [] s = tok kind_gt 1 s
scan_greater (b ∷ r) s = if b == b'=' then tok kind_ge 2 s else tok kind_gt 1 s

-- A token of the n bytes behind the opening quote; the closing one is passed.
unfoldable pub quoted : Kind → ℕ → Str → Scanner → Token × Scanner
unfolding forward
quoted k n r s = (record { kind = k; text = take n r; pos = s.pos }, forward (n + 2) s)

-- scanString, from the place of the closing quote
unfoldable pub string_token : Option ℕ → Str → Scanner → Token × Scanner
unfolding errorf quoted
string_token none r s = errorf s s.pos (plain (bytes "unterminated string literal"))
string_token (some n) r s = quoted kind_string n r s

unfoldable pub scan_string : Str → Scanner → Token × Scanner
unfolding index_byte string_token
scan_string r s = string_token (index_byte b'\'' r) r s

-- scanQuoted, from the place of the closing quote
unfoldable pub quoted_token : Option ℕ → Str → Scanner → Token × Scanner
unfolding errorf quoted
quoted_token none r s = errorf s s.pos (plain (bytes "unterminated quoted identifier"))
quoted_token (some n) r s =
    if n == 0
    then errorf s s.pos (plain (bytes "empty quoted identifier"))
    else quoted kind_ident n r s

unfoldable pub scan_quoted : Str → Scanner → Token × Scanner
unfolding index_byte quoted_token
scan_quoted r s = quoted_token (index_byte b'`' r) r s

-- The digits end at byte n; what stands there may not begin an identifier.
unfoldable pub scan_number_end : ℕ → Str → Scanner → Token × Scanner
unfolding tok errorf count_while is_ident
scan_number_end n [] s = tok kind_int n s
scan_number_end n (b ∷ r) s =
    let m = n + count_while is_ident (b ∷ r) in
    if is_ident_start b
    then errorf (forward m s) s.pos (unrecognized_token (take m s.rest))
    else tok kind_int n s

unfoldable pub scan_number : Str → Scanner → Token × Scanner
unfolding scan_number_end eq_str
scan_number r s =
    let n = suc (count_while is_digit r) in
    if eq_str (take n s.rest) (bytes "-")
    then errorf (forward n s) s.pos (plain (bytes "expected digit after '-'"))
    else scan_number_end n (drop n s.rest) s

-- A word of n bytes, with its keyword
unfoldable pub word_token : Option Kind → ℕ → Scanner → Token × Scanner
unfolding tok
word_token (some k) n s = tok k n s
word_token none n s = tok kind_ident n s

unfoldable pub scan_ident : Scanner → Token × Scanner
unfolding word_token count_while is_ident keyword_kind
scan_ident s = let n = count_while is_ident s.rest in word_token (keyword_kind (take n s.rest)) n s

-- The switch of scan, on the byte `b` in front of `r`.
unfoldable pub scan_at : ℕ → Str → Scanner → Token × Scanner
unfolding tok errorf scan_less scan_greater scan_string scan_quoted scan_number scan_ident
scan_at b r s =
    if b == b'('
    then tok kind_l_paren 1 s
    else if b == b')'
    then tok kind_r_paren 1 s
    else if b == b','
    then tok kind_comma 1 s
    else if b == b'.'
    then tok kind_dot 1 s
    else if b == b'*'
    then tok kind_star 1 s
    else if b == b'?'
    then tok kind_param 1 s
    else if b == b'='
    then tok kind_eq 1 s
    else if b == b'<'
    then scan_less r s
    else if b == b'>'
    then scan_greater r s
    else if b == b'\''
    then scan_string r s
    else if b == b'`'
    then scan_quoted r s
    else if b == b'-' || is_digit b
    then scan_number r s
    else if is_ident_start b
    then scan_ident s
    else let (t, s') = errorf s s.pos (unexpected_character b) in (t, forward 1 s')

unfoldable pub scan_next : Str → Scanner → Token × Scanner
unfolding scan_at
scan_next [] s = (record { kind = kind_eof; text = []; pos = s.pos }, s)
scan_next (b ∷ r) s = scan_at b r s

unfoldable pub skip_space : Scanner → Scanner
unfolding forward count_while is_space
skip_space s = forward (count_while is_space s.rest) s

unfoldable pub scan : Scanner → Token × Scanner
unfolding skip_space scan_next
scan s = let s' = skip_space s in scan_next s'.rest s'
