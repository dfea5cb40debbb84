-- ===== src/Utf8/RoundTrip.antt =====
-- Reading a rune that was appended.
use go_msi.Prelude.{
  ℕ, zero, suc, ◌≤◌, ◌<◌, ◌≡◌, ◌≢◌, true, refl, arith, List, [], ◌∷◌, ◌++◌, length,
  drop-append_left, length-append, ap, ◌∙◌, ◌⊎◌,
}
use go_msi.Prelude.Text.{Str}
use go_msi.Utf8.{valid_rune, encode_rune, decode_rune, runes, runes_loop, utf8}

-- A valid rune that was appended is read back with its number of bytes, whatever follows.
pub decode_rune-encode_rune :
    (r : ℕ) (rest : Str)
    → valid_rune r ≡ true
    → decode_rune (encode_rune r ++ rest) ≡ (r, length (encode_rune r))
unfolding decode_rune encode_rune
decode_rune-encode_rune r rest h = ground arith

-- The runes that can stand in a string.
abbrev pub AllValid : List ℕ → Type 0
AllValid [] = Unit
AllValid (r ∷ rs) = (valid_rune r ≡ true) × AllValid rs

-- A rune has a first byte; below 0x80 it is the rune, and the only one.
pub encode_rune_head :
    (r b : ℕ) (t : Str)
    → encode_rune r ≡ b ∷ t
    → ((r < 0x80) × (b ≡ r) × (t ≡ [])) ⊎ ((0x80 ≤ r) × (0xc2 ≤ b))
unfolding encode_rune
encode_rune_head r b t e = ground arith

encode_rune-ne-nil : (r : ℕ) → encode_rune r ≢ []
unfolding encode_rune
encode_rune-ne-nil r e = ground arith

pub encode_rune-cons : (r : ℕ) → (b : ℕ) × (t : Str) × (encode_rune r ≡ b ∷ t)
encode_rune-cons r = go (encode_rune r) refl
  where
    go : (s : Str) → encode_rune r ≡ s → (b : ℕ) × (t : Str) × (encode_rune r ≡ b ∷ t)
    go [] e = absurd (encode_rune-ne-nil r e)
    go (b ∷ t) e = (b, t, e)

pub encode_rune_ascii : (r : ℕ) → r < 0x80 → encode_rune r ≡ r ∷ []
unfolding encode_rune
encode_rune_ascii r h = ground arith

pub length_positive : (r : ℕ) → 0 < length (encode_rune r)
length_positive r = let (b, t, e) = encode_rune-cons r in rw e (omega arith)

runes_loop_step :
    (fuel r : ℕ) (rest : Str)
    → valid_rune r ≡ true
    → runes_loop (suc fuel) (encode_rune r ++ rest) ≡ r ∷ runes_loop fuel rest
runes_loop_step fuel r rest h =
    let (b, t, e) = encode_rune-cons r in
    let d = decode_rune-encode_rune r rest h in
    rw e (unfold runes_loop in rw (rw e at d) (rw (drop-append_left (b ∷ t) rest)))

-- The runes of a string are those whose bytes were joined.
runes_loop-utf8 :
    (rs : List ℕ) (fuel : ℕ)
    → AllValid rs
    → length (utf8 rs) ≤ fuel
    → runes_loop fuel (utf8 rs) ≡ rs
unfolding utf8
runes_loop-utf8 [] zero h f = unfold runes_loop in refl
runes_loop-utf8 [] (suc fuel) h f = unfold runes_loop in refl
runes_loop-utf8 (r ∷ rs) zero h f =
    absurd (omega (arith, length_positive r, length-append (encode_rune r) (utf8 rs)))
runes_loop-utf8 (r ∷ rs) (suc fuel) (v, h) f =
    runes_loop_step fuel r (utf8 rs) v
    ∙ ap (◌∷◌ r) (
        runes_loop-utf8 rs fuel h
          (omega (arith, length_positive r, length-append (encode_rune r) (utf8 rs))))

pub runes-utf8 : (rs : List ℕ) → AllValid rs → runes (utf8 rs) ≡ rs
unfolding runes
runes-utf8 rs h = runes_loop-utf8 rs (length (utf8 rs)) h (omega arith)
