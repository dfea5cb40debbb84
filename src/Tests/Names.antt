-- ===== src/Tests/Names.antt =====
-- Stream names.
use go_msi.Prelude.{ℕ, ◌≡◌, refl, List, [], ◌∷◌}
use go_msi.Utf8.{utf8, runes, decode_rune, encode_rune, valid_rune}
use go_msi.Utf8.RoundTrip.{AllValid}
use go_msi.StreamName.{encode, decode, encoded_len, encode_loop, encode_symbol, reserved}
use go_msi.StreamName.RoundTrip.{decode-encode, NoneReserved}
use go_msi.StreamName.Length.{units, encoded_len-encode}

-- hi-é_ : a pair, two runes that pass through, and a lone symbol.
abbrev name : List ℕ
name = b'h' ∷ b'i' ∷ b'-' ∷ 0xe9 ∷ b'_' ∷ []

encoded_name : encode (utf8 name) ≡ utf8 (0x432b ∷ b'-' ∷ 0xe9 ∷ 0x483f ∷ [])
unfolding utf8 encode encode_loop encode_symbol decode_rune encode_rune
encoded_name = refl

name-AllValid : AllValid name
unfolding valid_rune
name-AllValid = (refl, (refl, (refl, (refl, (refl, tt)))))

name-NoneReserved : NoneReserved name
unfolding reserved
name-NoneReserved = (refl, (refl, (refl, (refl, (refl, tt)))))

decode-encode_example : decode (encode (utf8 name)) ≡ utf8 name
decode-encode_example = decode-encode name name-AllValid name-NoneReserved

encoded_len-encode_example : encoded_len (utf8 name) ≡ units (runes (encode (utf8 name)))
encoded_len-encode_example = encoded_len-encode name name-AllValid
