-- ===== src/StreamName.antt =====
-- internal/streamname/streamname.go: the names of streams in the compound file.
pub mod ByRune
pub mod RoundTrip
pub mod Length
use go_msi.Prelude.{
  ℕ, zero, suc, ◌+◌, ◌-◌, ◌*◌, ◌/◌, ◌%◌, ltb, leb, ◌==◌, ◌&&◌, if◌then◌else◌, Bool, List, [], ◌∷◌,
  ◌++◌, Option, none, some, take, drop, length, bit_and, ◌^◌, ◌≡◌, refl,
}
use go_msi.Prelude.Text.{Str}
use go_msi.Utf8.{encode_rune, decode_rune, runes, utf16_len}

abbrev pub symbol_bits : ℕ
symbol_bits = 6

abbrev pub symbol_count : ℕ
symbol_count = 64

abbrev pub symbol_mask : ℕ
symbol_mask = 63

abbrev pub single_base : ℕ
single_base = 0x4800

abbrev pub pair_base : ℕ
pair_base = 0x3800

unfoldable pub reserved : ℕ → Bool
reserved r = leb pair_base r && ltb r (single_base + symbol_count)

-- `none` is -1.
unfoldable pub encode_symbol : ℕ → Option ℕ
encode_symbol r =
    if leb b'0' r && leb r b'9'
    then some (r - b'0')
    else if leb b'A' r && leb r b'Z'
    then some (r - b'A' + 10)
    else if leb b'a' r && leb r b'z'
    then some (r - b'a' + 36)
    else if r == b'.'
    then some 62
    else if r == b'_'
    then some 63
    else none

unfoldable pub decode_symbol : ℕ → ℕ
decode_symbol r =
    if ltb r 10
    then b'0' + r
    else if ltb r 36
    then b'A' + r - 10
    else if ltb r 62
    then b'a' + r - 36
    else if r == 62
    then b'.'
    else b'_'

-- The bytes are read off the front. A round takes one at least, so the fuel is the length.
unfoldable pub encode_loop : ℕ → Str → Str
encode_loop zero s = []
encode_loop (suc fuel) [] = []
encode_loop (suc fuel) (b ∷ []) = elim (encode_symbol b) [
  | none ↦
      take (decode_rune (b ∷ [])).1 (b ∷ [])
      ++ encode_loop fuel (drop (decode_rune (b ∷ [])).1 (b ∷ []))
  | some r₁ ↦ encode_rune (single_base + r₁) ++ encode_loop fuel []
]
encode_loop (suc fuel) (b ∷ c ∷ s) = elim (encode_symbol b) [
  | none ↦
      take (decode_rune (b ∷ c ∷ s)).1 (b ∷ c ∷ s)
      ++ encode_loop fuel (drop (decode_rune (b ∷ c ∷ s)).1 (b ∷ c ∷ s))
  | some r₁ ↦ elim (encode_symbol c) [
    | some r₂ ↦ encode_rune (pair_base + r₁ + r₂ * 2 ^ symbol_bits) ++ encode_loop fuel s
    | none ↦ encode_rune (single_base + r₁) ++ encode_loop fuel (c ∷ s)
  ]
]

unfoldable pub encode : Str → Str
encode s = encode_loop (length s) s

-- The switch of Decode on one rune.
unfoldable pub decode_one : ℕ → Str
decode_one c =
    if leb pair_base c && ltb c single_base
    then encode_rune (decode_symbol (bit_and (c - pair_base) symbol_mask))
      ++ encode_rune (decode_symbol ((c - pair_base) / 2 ^ symbol_bits))
    else if leb single_base c && ltb c (single_base + symbol_count)
    then encode_rune (decode_symbol (c - single_base))
    else encode_rune c

unfoldable pub decode_runes : List ℕ → Str
decode_runes [] = []
decode_runes (c ∷ cs) = decode_one c ++ decode_runes cs

unfoldable pub decode : Str → Str
decode s = decode_runes (runes s)

-- The loop of EncodedLen.
unfoldable pub encoded_len_loop : ℕ → Str → ℕ
encoded_len_loop zero s = 0
encoded_len_loop (suc fuel) [] = 0
encoded_len_loop (suc fuel) (b ∷ []) = elim (encode_symbol b) [
  | some r₁ ↦ 1 + encoded_len_loop fuel []
  | none ↦
      utf16_len (decode_rune (b ∷ [])).0
      + encoded_len_loop fuel (drop (decode_rune (b ∷ [])).1 (b ∷ []))
]
encoded_len_loop (suc fuel) (b ∷ c ∷ s) = elim (encode_symbol b) [
  | some r₁ ↦ elim (encode_symbol c) [
    | some r₂ ↦ 1 + encoded_len_loop fuel s
    | none ↦ 1 + encoded_len_loop fuel (c ∷ s)
  ]
  | none ↦
      utf16_len (decode_rune (b ∷ c ∷ s)).0
      + encoded_len_loop fuel (drop (decode_rune (b ∷ c ∷ s)).1 (b ∷ c ∷ s))
]

unfoldable pub encoded_len : Str → ℕ
encoded_len s = encoded_len_loop (length s) s
