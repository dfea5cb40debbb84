-- ===== src/StreamName/RoundTrip.antt =====
-- Decode undoes Encode: the loops over bytes are followed rune by rune.
use go_msi.Prelude.{
  ℕ, ◌+◌, ◌*◌, ◌<◌, ◌≡◌, false, List, [], ◌∷◌, ◌++◌, length, refl, arith, Option-cases, inl, inr,
  ap, append_assoc,
}
use go_msi.Prelude.Bits.{bit_and-mask}
use go_msi.Utf8.{encode_rune, utf8}
use go_msi.Utf8.RoundTrip.{AllValid, runes-utf8}
use go_msi.StreamName.{
  reserved, encode_symbol, decode_symbol, encode, decode_one, decode_runes, decode, pair_base,
  single_base,
}
use go_msi.StreamName.ByRune.{
  symbol_lem, encode_runes, encode_runes_other, encode_runes_last, encode_runes_single,
  encode_runes_pair, encode_loop-utf8, encode_runes-AllValid,
}

-- The runes that Decode leaves alone.
abbrev pub NoneReserved : List ℕ → Type 0
NoneReserved [] = Unit
NoneReserved (r ∷ rs) = (reserved r ≡ false) × NoneReserved rs

decode_one_other : (r : ℕ) → reserved r ≡ false → decode_one r ≡ encode_rune r
unfolding decode_one reserved
decode_one_other r h = ground arith

decode_one_single : (x : ℕ) → x < 64 → decode_one (single_base + x) ≡ encode_rune (decode_symbol x)
unfolding decode_one
decode_one_single x h = ground arith

decode_one_pair :
    (x y : ℕ)
    → x < 64
    → y < 64
    → decode_one (pair_base + x + y * 64)
      ≡ encode_rune (decode_symbol x) ++ encode_rune (decode_symbol y)
unfolding decode_one
decode_one_pair x y hx hy = ground (arith, bit_and-mask 6 y x hx)

-- Decode on the runes that Encode wrote.
decode_runes-encode_runes :
    (rs : List ℕ) → NoneReserved rs → decode_runes (encode_runes rs) ≡ utf8 rs
unfolding utf8 decode_runes
decode_runes-encode_runes [] h = unfold encode_runes in refl
decode_runes-encode_runes (r ∷ []) (n, h) = elim (Option-cases (encode_symbol r)) [
  | inl e ↦
      rw (encode_runes_other r [] e, decode_one_other r n)
        (ap (λ t. encode_rune r ++ t) (decode_runes-encode_runes [] h))
  | inr (x, e) ↦
      let (a, b, c) = symbol_lem r x e in rw (encode_runes_last r x e, decode_one_single x b, c)
]
decode_runes-encode_runes (r ∷ q ∷ rs) (n, (m, h)) = elim (Option-cases (encode_symbol r)) [
  | inl e ↦
      rw (encode_runes_other r (q ∷ rs) e, decode_one_other r n)
        (ap (λ t. encode_rune r ++ t) (decode_runes-encode_runes (q ∷ rs) (m, h)))
  | inr (x, e) ↦
      let (a, b, c) = symbol_lem r x e in
      elim (Option-cases (encode_symbol q)) [
        | inl d ↦
            rw (encode_runes_single r x e q rs d, decode_one_single x b, c)
              (ap (λ t. encode_rune r ++ t) (decode_runes-encode_runes (q ∷ rs) (m, h)))
        | inr (y, d) ↦
            let (a', b', c') = symbol_lem q y d in
            rw (encode_runes_pair r x e q y rs d, decode_one_pair x y b b', c, c', append_assoc)
              (ap (λ t. encode_rune r ++ (encode_rune q ++ t)) (decode_runes-encode_runes rs h))
      ]
]

-- Decode gives back every valid UTF-8 name that Encode was given, if no rune of the name is one
-- that Decode rewrites (the names that checkStreamName lets through).
pub decode-encode :
    (rs : List ℕ) → AllValid rs → NoneReserved rs → decode (encode (utf8 rs)) ≡ utf8 rs
unfolding encode decode
decode-encode rs h n =
    rw
      (
        encode_loop-utf8 rs (length (utf8 rs)) h (omega arith),
        runes-utf8 _ (encode_runes-AllValid rs h),
      )
      (decode_runes-encode_runes rs n)
