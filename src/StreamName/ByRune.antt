-- ===== src/StreamName/ByRune.antt =====
-- Encode on the bytes of a valid string, followed rune by rune.
use go_msi.Prelude.{
  ℕ, zero, suc, ◌+◌, ◌*◌, ◌≤◌, ◌<◌, ◌≡◌, true, List, [], ◌∷◌, ◌++◌, none, some, take, drop, length,
  refl, arith, Option-cases, inl, inr, length-append, ap, sym, ◌∙◌, take-append_left,
  drop-append_left, append-nil,
}
use go_msi.Prelude.Text.{Str}
use go_msi.Utf8.{encode_rune, decode_rune, valid_rune, utf8}
use go_msi.Utf8.RoundTrip.{
  AllValid, encode_rune-cons, encode_rune_head, length_positive, encode_rune_ascii,
  decode_rune-encode_rune,
}
use go_msi.StreamName.{encode_symbol, decode_symbol, encode_loop, pair_base, single_base}

-- A symbol is an ASCII character, and its code stands for it alone.
pub symbol_lem :
    (r a : ℕ) → encode_symbol r ≡ some a → (r < 0x80) × (a < 64) × (decode_symbol a ≡ r)
unfolding encode_symbol decode_symbol
symbol_lem r a e = ground arith

pub symbol_high : (r : ℕ) → 0x80 ≤ r → encode_symbol r ≡ none
unfolding encode_symbol
symbol_high r h = ground arith

pub encode_loop-nil : (fuel : ℕ) → encode_loop fuel [] ≡ []
unfolding encode_loop
encode_loop-nil zero = refl
encode_loop-nil (suc fuel) = refl

-- One round of Encode on a byte that is no symbol, on a lone symbol, and on two symbols.
module _ (fuel : ℕ) (b : ℕ) where
  pub step_other :
      (t : Str)
      → encode_symbol b ≡ none
      → encode_loop (suc fuel) (b ∷ t)
        ≡ take (decode_rune (b ∷ t)).1 (b ∷ t)
          ++ encode_loop fuel (drop (decode_rune (b ∷ t)).1 (b ∷ t))
  unfolding encode_loop
  step_other [] e = ground arith
  step_other (c ∷ s) e = ground arith

  module _ (x : ℕ) (e : encode_symbol b ≡ some x) where
    step_last : encode_loop (suc fuel) (b ∷ []) ≡ encode_rune (single_base + x)
    unfolding encode_loop
    step_last = ground (arith, encode_loop-nil fuel, append-nil (encode_rune (single_base + x)))

    pub step_single :
        (c : ℕ) (s : Str)
        → encode_symbol c ≡ none
        → encode_loop (suc fuel) (b ∷ c ∷ s)
          ≡ encode_rune (single_base + x) ++ encode_loop fuel (c ∷ s)
    unfolding encode_loop
    step_single c s f = ground arith

    step_pair :
        (c y : ℕ) (s : Str)
        → encode_symbol c ≡ some y
        → encode_loop (suc fuel) (b ∷ c ∷ s)
          ≡ encode_rune (pair_base + x + y * 64) ++ encode_loop fuel s
    unfolding encode_loop
    step_pair c y s f = ground arith

-- One round on a rune that is no symbol.
pub step_rune :
    (fuel r : ℕ) (rest : Str)
    → valid_rune r ≡ true
    → encode_symbol r ≡ none
    → encode_loop (suc fuel) (encode_rune r ++ rest) ≡ encode_rune r ++ encode_loop fuel rest
step_rune fuel r rest v e =
    let (b, t, eq) = encode_rune-cons r in
    let first : encode_symbol b ≡ none = ground (arith, encode_rune_head r b t eq, symbol_high b) in
    let d = decode_rune-encode_rune r rest v in
    rw eq (
      step_other fuel b (t ++ rest) first
      ∙ rw (rw eq at d) (rw (take-append_left t rest, drop-append_left t rest)))

-- Encode on runes.
unfoldable pub encode_runes : List ℕ → List ℕ
encode_runes [] = []
encode_runes (r ∷ []) = elim (encode_symbol r) [ none ↦ r ∷ [] | some x ↦ (single_base + x) ∷ [] ]
encode_runes (r ∷ q ∷ rs) = elim (encode_symbol r) [
  | none ↦ r ∷ encode_runes (q ∷ rs)
  | some x ↦ elim (encode_symbol q) [
    | none ↦ (single_base + x) ∷ encode_runes (q ∷ rs)
    | some y ↦ (pair_base + x + y * 64) ∷ encode_runes rs
  ]
]

pub encode_runes_other :
    (r : ℕ) (rs : List ℕ) → encode_symbol r ≡ none → encode_runes (r ∷ rs) ≡ r ∷ encode_runes rs
unfolding encode_runes
encode_runes_other r [] e = ground arith
encode_runes_other r (q ∷ rs) e = ground arith

module _ (r x : ℕ) (e : encode_symbol r ≡ some x) where
  pub encode_runes_last : encode_runes (r ∷ []) ≡ (single_base + x) ∷ []
  unfolding encode_runes
  encode_runes_last = ground arith

  pub encode_runes_single :
      (q : ℕ) (rs : List ℕ)
      → encode_symbol q ≡ none
      → encode_runes (r ∷ q ∷ rs) ≡ (single_base + x) ∷ encode_runes (q ∷ rs)
  unfolding encode_runes
  encode_runes_single q rs f = ground arith

  pub encode_runes_pair :
      (q y : ℕ) (rs : List ℕ)
      → encode_symbol q ≡ some y
      → encode_runes (r ∷ q ∷ rs) ≡ (pair_base + x + y * 64) ∷ encode_runes rs
  unfolding encode_runes
  encode_runes_pair q y rs f = ground arith

-- A symbol is one byte.
pub encode_rune_symbol : (r x : ℕ) → encode_symbol r ≡ some x → encode_rune r ≡ r ∷ []
encode_rune_symbol r x e = encode_rune_ascii r (symbol_lem r x e).0

-- What is left of the fuel suffices for the runes behind the first.
pub fuel_left :
    (r fuel : ℕ) (rs : List ℕ) → length (utf8 (r ∷ rs)) ≤ suc fuel → length (utf8 rs) ≤ fuel
unfolding utf8
fuel_left r fuel rs f = omega (arith, length_positive r, length-append (encode_rune r) (utf8 rs))

-- Encode on bytes does what `encode_runes` does on runes, with fuel for every byte.
pub encode_loop-utf8 :
    (rs : List ℕ) (fuel : ℕ)
    → AllValid rs
    → length (utf8 rs) ≤ fuel
    → encode_loop fuel (utf8 rs) ≡ utf8 (encode_runes rs)
unfolding utf8
encode_loop-utf8 [] fuel h f = unfold encode_runes in encode_loop-nil fuel
encode_loop-utf8 (r ∷ rs) zero h f =
    absurd (omega (arith, length_positive r, length-append (encode_rune r) (utf8 rs)))
encode_loop-utf8 (r ∷ []) (suc fuel) (v, h) f = elim (Option-cases (encode_symbol r)) [
  | inl e ↦ rw (encode_runes_other r [] e) (
      step_rune fuel r [] v e
      ∙ ap (λ t. encode_rune r ++ t) (encode_loop-utf8 [] fuel h (fuel_left r fuel [] f)))
  | inr (x, e) ↦
      rw (encode_rune_symbol r x e, encode_runes_last r x e)
        (step_last fuel r x e ∙ sym (append-nil _))
]
encode_loop-utf8 (r ∷ q ∷ rs) (suc fuel) (v, (w, h)) f = elim (Option-cases (encode_symbol r)) [
  | inl e ↦ rw (encode_runes_other r (q ∷ rs) e) (
      step_rune fuel r (utf8 (q ∷ rs)) v e
      ∙ ap (λ t. encode_rune r ++ t)
          (encode_loop-utf8 (q ∷ rs) fuel (w, h) (fuel_left r fuel (q ∷ rs) f)))
  | inr (x, e) ↦ elim (Option-cases (encode_symbol q)) [
    | inl d ↦
        let (b, t, eq) = encode_rune-cons q in
        let first : encode_symbol b ≡ none =
          ground (arith, encode_rune_head q b t eq, symbol_high b) in
        let ih = encode_loop-utf8 (q ∷ rs) fuel (w, h) (fuel_left r fuel (q ∷ rs) f) in
        rw (encode_rune_symbol r x e, encode_runes_single r x e q rs d, eq)
          (step_single fuel r x e b (t ++ utf8 rs) first
            ∙ ap (λ z. encode_rune (single_base + x) ++ z) (rw eq at ih))
    | inr (y, d) ↦
        rw (encode_rune_symbol r x e, encode_rune_symbol q y d, encode_runes_pair r x e q y rs d)
          (step_pair fuel r x e q y (utf8 rs) d
            ∙ ap (λ t. encode_rune (pair_base + x + y * 64) ++ t)
                (encode_loop-utf8 rs fuel h (
                  omega (
                    arith,
                    fuel_left r fuel (q ∷ rs) f,
                    length_positive q,
                    length-append (encode_rune q) (utf8 rs),
                  ))))
  ]
]

pub low_valid : (c : ℕ) → c < 0xd800 → valid_rune c ≡ true
unfolding valid_rune
low_valid c h = ground arith

pub single_valid : (r x : ℕ) → encode_symbol r ≡ some x → valid_rune (single_base + x) ≡ true
single_valid r x e = low_valid _ (omega (arith, symbol_lem r x e))

pub pair_valid :
    (r x q y : ℕ)
    → encode_symbol r ≡ some x
    → encode_symbol q ≡ some y
    → valid_rune (pair_base + x + y * 64) ≡ true
pair_valid r x q y e d = low_valid _ (omega (arith, symbol_lem r x e, symbol_lem q y d))

-- The runes that Encode writes are valid.
pub encode_runes-AllValid : (rs : List ℕ) → AllValid rs → AllValid (encode_runes rs)
encode_runes-AllValid [] h = unfold encode_runes in tt
encode_runes-AllValid (r ∷ []) (v, h) = elim (Option-cases (encode_symbol r)) [
  | inl e ↦ rw (encode_runes_other r [] e) (v, encode_runes-AllValid [] h)
  | inr (x, e) ↦ rw (encode_runes_last r x e) (single_valid r x e, tt)
]
encode_runes-AllValid (r ∷ q ∷ rs) (v, (w, h)) = elim (Option-cases (encode_symbol r)) [
  | inl e ↦ rw (encode_runes_other r (q ∷ rs) e) (v, encode_runes-AllValid (q ∷ rs) (w, h))
  | inr (x, e) ↦ elim (Option-cases (encode_symbol q)) [
    | inl d ↦
        rw (encode_runes_single r x e q rs d)
          (single_valid r x e, encode_runes-AllValid (q ∷ rs) (w, h))
    | inr (y, d) ↦
        rw (encode_runes_pair r x e q y rs d) (pair_valid r x q y e d, encode_runes-AllValid rs h)
  ]
]
