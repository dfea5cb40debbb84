-- ===== src/Utf8.antt =====
-- What the code uses of Go's unicode/utf8 and unicode/utf16: reading one rune off the front of a
-- string, appending one, and the number of UTF-16 code units of a rune.
pub mod RoundTrip
use go_msi.Prelude.{
  ℕ, zero, suc, ◌+◌, ◌-◌, ◌*◌, ◌/◌, ◌%◌, ltb, leb, ◌==◌, ◌&&◌, ◌||◌, not, if◌then◌else◌, Bool, List,
  [], ◌∷◌, ◌++◌, drop, length,
}
use go_msi.Prelude.Text.{Str}

abbrev pub rune_error : ℕ
rune_error = 0xfffd

-- utf8.ValidRune
unfoldable pub valid_rune : ℕ → Bool
valid_rune r = ltb r 0xd800 || (ltb 0xdfff r && ltb r 0x11_0000)

-- utf8.AppendRune to an empty slice
unfoldable pub encode_rune : ℕ → Str
unfolding valid_rune
encode_rune r =
    if ltb r 0x80
    then r ∷ []
    else if ltb r 0x800
    then (0xc0 + r / 0x40) ∷ (0x80 + r % 0x40) ∷ []
    else if not (valid_rune r)
    then 0xef ∷ 0xbf ∷ 0xbd ∷ []
    else if ltb r 0x1_0000
    then (0xe0 + r / 0x1000) ∷ (0x80 + r / 0x40 % 0x40) ∷ (0x80 + r % 0x40) ∷ []
    else (0xf0 + r / 0x4_0000)
      ∷ (0x80 + r / 0x1000 % 0x40)
      ∷ (0x80 + r / 0x40 % 0x40)
      ∷ (0x80 + r % 0x40)
      ∷ []

-- A byte that continues a rune, between the bounds that its first byte sets.
abbrev pub within : ℕ → ℕ → ℕ → Bool
within lo hi b = leb lo b && leb b hi

-- A rune with its number of bytes.
abbrev pub Read : Type 0
Read = ℕ × ℕ

abbrev pub bad : Read
bad = (rune_error, 1)

decode_two : ℕ → Str → Read
decode_two a [] = bad
decode_two a (b ∷ s) = if within 0x80 0xbf b then ((a - 0xc0) * 0x40 + (b - 0x80), 2) else bad

decode_three : ℕ → Str → Read
decode_three a [] = bad
decode_three a (b ∷ []) = bad
decode_three a (b ∷ c ∷ s) =
    let lo = if a == 0xe0 then 0xa0 else 0x80 in
    let hi = if a == 0xed then 0x9f else 0xbf in
    if within lo hi b && within 0x80 0xbf c
    then ((a - 0xe0) * 0x1000 + (b - 0x80) * 0x40 + (c - 0x80), 3)
    else bad

decode_four : ℕ → Str → Read
decode_four a [] = bad
decode_four a (b ∷ []) = bad
decode_four a (b ∷ c ∷ []) = bad
decode_four a (b ∷ c ∷ d ∷ s) =
    let lo = if a == 0xf0 then 0x90 else 0x80 in
    let hi = if a == 0xf4 then 0x8f else 0xbf in
    if within lo hi b && within 0x80 0xbf c && within 0x80 0xbf d
    then ((a - 0xf0) * 0x4_0000 + (b - 0x80) * 0x1000 + (c - 0x80) * 0x40 + (d - 0x80), 4)
    else bad

-- utf8.DecodeRuneInString
unfoldable pub decode_rune : Str → Read
unfolding decode_two decode_three decode_four
decode_rune [] = (rune_error, 0)
decode_rune (a ∷ s) =
    if ltb a 0x80
    then (a, 1)
    else if within 0xc2 0xdf a
    then decode_two a s
    else if within 0xe0 0xef a
    then decode_three a s
    else if within 0xf0 0xf4 a
    then decode_four a s
    else bad

-- The runes that `for _, r := range s` yields. Every round takes a byte, so the bytes bound them.
unfoldable pub runes_loop : ℕ → Str → List ℕ
runes_loop zero s = []
runes_loop (suc fuel) [] = []
runes_loop (suc fuel) (b ∷ s) =
    let (r, n) = decode_rune (b ∷ s) in r ∷ runes_loop fuel (drop n (b ∷ s))

unfoldable pub runes : Str → List ℕ
unfolding runes_loop decode_rune
runes s = runes_loop (length s) s

-- utf16.RuneLen, of a rune that `decode_rune` returns: it never answers -1 there.
unfoldable pub utf16_len : ℕ → ℕ
utf16_len r = if ltb r 0x1_0000 then 1 else 2

-- The bytes of a list of runes.
unfoldable pub utf8 : List ℕ → Str
utf8 [] = []
utf8 (r ∷ rs) = encode_rune r ++ utf8 rs
