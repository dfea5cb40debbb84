-- ===== src/StreamName/Length.antt =====
-- EncodedLen counts the UTF-16 code units of what Encode writes.
use go_msi.Prelude.{
  ℕ, zero, suc, ◌+◌, ◌*◌, ◌≤◌, ◌<◌, ◌≡◌, List, [], ◌∷◌, ◌++◌, none, some, length, refl, arith, true,
  Option-cases, inl, inr, length-append, ap, ◌∙◌, drop, drop-append_left,
}
use go_msi.Prelude.Text.{Str}
use go_msi.Utf8.{encode_rune, decode_rune, runes, utf16_len, valid_rune, utf8}
use go_msi.Utf8.RoundTrip.{
  AllValid, encode_rune-cons, encode_rune_head, decode_rune-encode_rune, length_positive,
  runes-utf8,
}
use go_msi.StreamName.{encode_symbol, encode, encoded_len_loop, encoded_len, pair_base, single_base}
use go_msi.StreamName.ByRune.{
  symbol_lem, symbol_high, encode_runes, encode_runes_other, encode_runes_last, encode_runes_single,
  encode_runes_pair, encode_rune_symbol, fuel_left, encode_loop-utf8, encode_runes-AllValid,
}

-- The UTF-16 code units of a list of runes.
abbrev pub units : List ℕ → ℕ
units [] = 0
units (r ∷ rs) = utf16_len r + units rs

len_loop-nil : (fuel : ℕ) → encoded_len_loop fuel [] ≡ 0
unfolding encoded_len_loop
len_loop-nil zero = refl
len_loop-nil (suc fuel) = refl

low_unit : (c : ℕ) → c < 0x1_0000 → utf16_len c ≡ 1
unfolding utf16_len
low_unit c h = ground arith

module _ (fuel b : ℕ) where
  len_other :
      (t : Str)
      → encode_symbol b ≡ none
      → encoded_len_loop (suc fuel) (b ∷ t)
        ≡ utf16_len (decode_rune (b ∷ t)).0
          + encoded_len_loop fuel (drop (decode_rune (b ∷ t)).1 (b ∷ t))
  unfolding encoded_len_loop
  len_other [] e = ground arith
  len_other (c ∷ s) e = ground arith

  module _ (x : ℕ) (e : encode_symbol b ≡ some x) where
    len_last : encoded_len_loop (suc fuel) (b ∷ []) ≡ 1
    unfolding encoded_len_loop
    len_last = ground (arith, len_loop-nil fuel)

    len_single :
        (c : ℕ) (s : Str)
        → encode_symbol c ≡ none
        → encoded_len_loop (suc fuel) (b ∷ c ∷ s) ≡ 1 + encoded_len_loop fuel (c ∷ s)
    unfolding encoded_len_loop
    len_single c s f = ground arith

    len_pair :
        (c y : ℕ) (s : Str)
        → encode_symbol c ≡ some y
        → encoded_len_loop (suc fuel) (b ∷ c ∷ s) ≡ 1 + encoded_len_loop fuel s
    unfolding encoded_len_loop
    len_pair c y s f = ground arith

len_rune :
    (fuel r : ℕ) (rest : Str)
    → valid_rune r ≡ true
    → encode_symbol r ≡ none
    → encoded_len_loop (suc fuel) (encode_rune r ++ rest) ≡ utf16_len r + encoded_len_loop fuel rest
len_rune fuel r rest v e =
    let (b, t, eq) = encode_rune-cons r in
    let first : encode_symbol b ≡ none = ground (arith, encode_rune_head r b t eq, symbol_high b) in
    let d = decode_rune-encode_rune r rest v in
    rw eq (len_other fuel b (t ++ rest) first ∙ rw (rw eq at d) (rw (drop-append_left t rest)))

len_loop-utf8 :
    (rs : List ℕ) (fuel : ℕ)
    → AllValid rs
    → length (utf8 rs) ≤ fuel
    → encoded_len_loop fuel (utf8 rs) ≡ units (encode_runes rs)
unfolding utf8
len_loop-utf8 [] fuel h f = unfold encode_runes in len_loop-nil fuel
len_loop-utf8 (r ∷ rs) zero h f =
    absurd (omega (arith, length_positive r, length-append (encode_rune r) (utf8 rs)))
len_loop-utf8 (r ∷ []) (suc fuel) (v, h) f = elim (Option-cases (encode_symbol r)) [
  | inl e ↦ rw (encode_runes_other r [] e) (
      len_rune fuel r [] v e
      ∙ ap (λ t. utf16_len r + t) (len_loop-utf8 [] fuel h (fuel_left r fuel [] f)))
  | inr (x, e) ↦
      rw (encode_rune_symbol r x e, encode_runes_last r x e)
        (len_last fuel r x e ∙ omega (arith, low_unit (single_base + x), symbol_lem r x e))
]
len_loop-utf8 (r ∷ q ∷ rs) (suc fuel) (v, (w, h)) f = elim (Option-cases (encode_symbol r)) [
  | inl e ↦ rw (encode_runes_other r (q ∷ rs) e) (
      len_rune fuel r (utf8 (q ∷ rs)) v e
      ∙ ap (λ t. utf16_len r + t)
          (len_loop-utf8 (q ∷ rs) fuel (w, h) (fuel_left r fuel (q ∷ rs) f)))
  | inr (x, e) ↦ elim (Option-cases (encode_symbol q)) [
    | inl d ↦
        let (b, t, eq) = encode_rune-cons q in
        let first : encode_symbol b ≡ none =
          ground (arith, encode_rune_head q b t eq, symbol_high b) in
        let ih = len_loop-utf8 (q ∷ rs) fuel (w, h) (fuel_left r fuel (q ∷ rs) f) in
        rw (encode_rune_symbol r x e, encode_runes_single r x e q rs d, eq)
          (len_single fuel r x e b (t ++ utf8 rs) first
            ∙ omega (arith, rw eq at ih, low_unit (single_base + x), symbol_lem r x e))
    | inr (y, d) ↦
        rw (encode_rune_symbol r x e, encode_rune_symbol q y d, encode_runes_pair r x e q y rs d)
          (len_pair fuel r x e q y (utf8 rs) d
            ∙ omega (
              arith,
              low_unit (pair_base + x + y * 64),
              symbol_lem r x e,
              symbol_lem q y d,
              len_loop-utf8 rs fuel h (
                  omega (
                    arith,
                    fuel_left r fuel (q ∷ rs) f,
                    length_positive q,
                    length-append (encode_rune q) (utf8 rs),
                  )),
            ))
  ]
]

-- On every valid string EncodedLen is the number of UTF-16 code units in what Encode returns.
pub encoded_len-encode :
    (rs : List ℕ) → AllValid rs → encoded_len (utf8 rs) ≡ units (runes (encode (utf8 rs)))
unfolding encoded_len encode
encoded_len-encode rs h =
    rw
      (
        encode_loop-utf8 rs (length (utf8 rs)) h (omega arith),
        runes-utf8 _ (encode_runes-AllValid rs h),
      )
      (len_loop-utf8 rs (length (utf8 rs)) h (omega arith))
