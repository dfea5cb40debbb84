-- ===== src/Guid/RoundTrip.antt =====
-- Parse of internal/guid/guid.go on what Format prints.
use go_msi.Prelude.{
  ℕ, ◌-◌, ◌/◌, ◌%◌, ◌<◌, ◌≡◌, ◌==◌, ◌&&◌, leb, if◌then◌else◌, true, false, [], ◌∷◌, ◌++◌, Option,
  some, length, refl, ap, sym, ◌∙◌, arith,
}
use go_msi.Prelude.Text.{Str, bytes, eq_str, has_prefix}
use go_msi.Prelude.Panics.{◌>>=◌}
use go_msi.Guid.{
  hex_value, hex_decode, hex_digit, hex_encode, upper_ascii, reverse_bytes, swap_fields, has_suffix,
  strip_braces, has_dashes, drop_dashes, parse_digits, parse, add_dashes, format,
}

abbrev pub AllBytes : Str → Type 0
AllBytes [] = Unit {0}
AllBytes (b ∷ s) = (b < 256) × AllBytes s

-- A [16]byte.
data Sixteen : Str → Type 0 where
  sixteen :
      (b0 b1 b2 b3 b4 b5 b6 b7 b8 b9 b10 b11 b12 b13 b14 b15 : ℕ)
      → Sixteen
          (b0 ∷ b1 ∷ b2 ∷ b3 ∷ b4 ∷ b5 ∷ b6 ∷ b7 ∷ b8 ∷ b9 ∷ b10 ∷ b11 ∷ b12 ∷ b13 ∷ b14 ∷ b15 ∷ [])

sixteen? : (b : Str) → length b ≡ 16 → Sixteen b
sixteen? [] h = absurd (omega (arith, h))
sixteen? (b0 ∷ []) h = absurd (omega (arith, h))
sixteen? (b0 ∷ b1 ∷ []) h = absurd (omega (arith, h))
sixteen? (b0 ∷ b1 ∷ b2 ∷ []) h = absurd (omega (arith, h))
sixteen? (b0 ∷ b1 ∷ b2 ∷ b3 ∷ []) h = absurd (omega (arith, h))
sixteen? (b0 ∷ b1 ∷ b2 ∷ b3 ∷ b4 ∷ []) h = absurd (omega (arith, h))
sixteen? (b0 ∷ b1 ∷ b2 ∷ b3 ∷ b4 ∷ b5 ∷ []) h = absurd (omega (arith, h))
sixteen? (b0 ∷ b1 ∷ b2 ∷ b3 ∷ b4 ∷ b5 ∷ b6 ∷ []) h = absurd (omega (arith, h))
sixteen? (b0 ∷ b1 ∷ b2 ∷ b3 ∷ b4 ∷ b5 ∷ b6 ∷ b7 ∷ []) h = absurd (omega (arith, h))
sixteen? (b0 ∷ b1 ∷ b2 ∷ b3 ∷ b4 ∷ b5 ∷ b6 ∷ b7 ∷ b8 ∷ []) h = absurd (omega (arith, h))
sixteen? (b0 ∷ b1 ∷ b2 ∷ b3 ∷ b4 ∷ b5 ∷ b6 ∷ b7 ∷ b8 ∷ b9 ∷ []) h = absurd (omega (arith, h))
sixteen? (b0 ∷ b1 ∷ b2 ∷ b3 ∷ b4 ∷ b5 ∷ b6 ∷ b7 ∷ b8 ∷ b9 ∷ b10 ∷ []) h = absurd (omega (arith, h))
sixteen? (b0 ∷ b1 ∷ b2 ∷ b3 ∷ b4 ∷ b5 ∷ b6 ∷ b7 ∷ b8 ∷ b9 ∷ b10 ∷ b11 ∷ []) h =
    absurd (omega (arith, h))
sixteen? (b0 ∷ b1 ∷ b2 ∷ b3 ∷ b4 ∷ b5 ∷ b6 ∷ b7 ∷ b8 ∷ b9 ∷ b10 ∷ b11 ∷ b12 ∷ []) h =
    absurd (omega (arith, h))
sixteen? (b0 ∷ b1 ∷ b2 ∷ b3 ∷ b4 ∷ b5 ∷ b6 ∷ b7 ∷ b8 ∷ b9 ∷ b10 ∷ b11 ∷ b12 ∷ b13 ∷ []) h =
    absurd (omega (arith, h))
sixteen? (b0 ∷ b1 ∷ b2 ∷ b3 ∷ b4 ∷ b5 ∷ b6 ∷ b7 ∷ b8 ∷ b9 ∷ b10 ∷ b11 ∷ b12 ∷ b13 ∷ b14 ∷ []) h =
    absurd (omega (arith, h))
sixteen? (b0 ∷ b1 ∷ b2 ∷ b3 ∷ b4 ∷ b5 ∷ b6 ∷ b7 ∷ b8 ∷ b9 ∷ b10 ∷ b11 ∷ b12 ∷ b13 ∷ b14 ∷ b15 ∷ [])
      h =
    sixteen b0 b1 b2 b3 b4 b5 b6 b7 b8 b9 b10 b11 b12 b13 b14 b15
sixteen?
      (b0 ∷ b1 ∷ b2 ∷ b3 ∷ b4 ∷ b5 ∷ b6 ∷ b7 ∷ b8 ∷ b9 ∷ b10 ∷ b11 ∷ b12 ∷ b13 ∷ b14 ∷ b15 ∷ c ∷ s)
      h =
    absurd (omega (arith, h))

abbrev upper_digit : ℕ → ℕ
upper_digit n =
    if leb b'a' (hex_digit n) && leb (hex_digit n) b'z' then hex_digit n - 32 else hex_digit n

hex_value_upper : (n : ℕ) → n < 16 → hex_value (upper_digit n) ≡ some n
unfolding hex_value hex_digit
hex_value_upper n h = ground arith

hex_decode-upper : (b : Str) → AllBytes b → hex_decode (upper_ascii (hex_encode b)) ≡ some b
unfolding hex_decode upper_ascii hex_encode
hex_decode-upper [] h = refl
hex_decode-upper (b ∷ s) (h, hs) = rw (hex_value_upper (b / 16) (omega arith)) (
    rw (hex_value_upper (b % 16) (omega arith))
      (rw (hex_decode-upper s hs) (ap (λ x. some (x ∷ s)) (omega arith))))

swap_fields-AllBytes : (b : Str) → Sixteen b → AllBytes b → AllBytes (swap_fields b)
unfolding swap_fields reverse_bytes
swap_fields-AllBytes b (sixteen b0 b1 b2 b3 b4 b5 b6 b7 b8 b9 b10 b11 b12 b13 b14 b15)
      (
        h0,
        (
          h1,
          (
            h2,
            (h3, (h4, (h5, (h6, (h7, (h8, (h9, (h10, (h11, (h12, (h13, (h14, (h15, _))))))))))))),
          ),
        ),
      ) =
    (
      h3,
      (
        h2,
        (
          h1,
          (h0, (h5, (h4, (h7, (h6, (h8, (h9, (h10, (h11, (h12, (h13, (h14, (h15, tt))))))))))))),
        ),
      ),
    )

swap_fields-swap_fields : (b : Str) → Sixteen b → swap_fields (swap_fields b) ≡ b
unfolding swap_fields reverse_bytes
swap_fields-swap_fields b (sixteen b0 b1 b2 b3 b4 b5 b6 b7 b8 b9 b10 b11 b12 b13 b14 b15) = refl

-- The text has its dashes, no brace, and the digits of the bytes.
undashed :
    (b : Str)
    → Sixteen b
    → drop_dashes (add_dashes (upper_ascii (hex_encode b))) ≡ upper_ascii (hex_encode b)
unfolding drop_dashes add_dashes upper_ascii hex_encode
undashed b (sixteen b0 b1 b2 b3 b4 b5 b6 b7 b8 b9 b10 b11 b12 b13 b14 b15) = refl

dashed : (b : Str) → Sixteen b → has_dashes (add_dashes (upper_ascii (hex_encode b))) ≡ true
unfolding has_dashes add_dashes upper_ascii hex_encode
dashed b (sixteen b0 b1 b2 b3 b4 b5 b6 b7 b8 b9 b10 b11 b12 b13 b14 b15) = refl

no_brace : (n : ℕ) → n < 16 → (upper_digit n == 123) ≡ false
unfolding hex_digit
no_brace n h = ground arith

first_digit :
    (b : Str)
    → Sixteen b
    → AllBytes b
    → has_prefix (add_dashes (upper_ascii (hex_encode b))) (bytes "{") ≡ false
unfolding has_prefix add_dashes upper_ascii hex_encode
first_digit b (sixteen b0 b1 b2 b3 b4 b5 b6 b7 b8 b9 b10 b11 b12 b13 b14 b15) (h, _) =
    rw (no_brace (b0 / 16) (omega arith)) refl

swap_fields-Sixteen : (b : Str) → Sixteen b → Sixteen (swap_fields b)
unfolding swap_fields reverse_bytes
swap_fields-Sixteen b (sixteen b0 b1 b2 b3 b4 b5 b6 b7 b8 b9 b10 b11 b12 b13 b14 b15) =
    sixteen b3 b2 b1 b0 b5 b4 b7 b6 b8 b9 b10 b11 b12 b13 b14 b15

-- Parse reads the digits that Format writes.
digits_lem :
    (b : Str)
    → Sixteen b
    → AllBytes b
    → parse (add_dashes (upper_ascii (hex_encode b))) ≡ some (swap_fields b)
unfolding parse strip_braces parse_digits
digits_lem b s h =
    rw (first_digit b s h) (rw (dashed b s) (rw (undashed b s) (rw (hex_decode-upper b h) refl)))

-- Parse gives back the 16 bytes that Format was given.
pub parse-format : (b : Str) → length b ≡ 16 → AllBytes b → parse (format b) ≡ some b
unfolding format
parse-format b len h =
    let s = sixteen? b len in
    digits_lem (swap_fields b) (swap_fields-Sixteen b s) (swap_fields-AllBytes b s h)
    ∙ ap some (swap_fields-swap_fields b s)

braced :
    (b : Str)
    → Sixteen b
    → strip_braces (bytes "{" ++ add_dashes (upper_ascii (hex_encode b)) ++ bytes "}")
      ≡ add_dashes (upper_ascii (hex_encode b))
unfolding strip_braces has_prefix has_suffix eq_str add_dashes upper_ascii hex_encode
braced b (sixteen b0 b1 b2 b3 b4 b5 b6 b7 b8 b9 b10 b11 b12 b13 b14 b15) = refl

abbrev read : Str → Option Str
read src = do b ← parse_digits src; some (swap_fields b)

plain :
    (b : Str)
    → Sixteen b
    → AllBytes b
    → strip_braces (add_dashes (upper_ascii (hex_encode b)))
      ≡ add_dashes (upper_ascii (hex_encode b))
unfolding strip_braces
plain b s h = rw (first_digit b s h) refl

-- Parse gives back the 16 bytes that Format was given also if the text is put in braces.
pub parse-braces :
    (b : Str) → length b ≡ 16 → AllBytes b → parse (bytes "{" ++ format b ++ bytes "}") ≡ some b
unfolding parse format
parse-braces b len h =
    let s = swap_fields-Sixteen b (sixteen? b len) in
    let t = swap_fields-AllBytes b (sixteen? b len) h in
    ap read (braced (swap_fields b) s)
    ∙ sym (ap read (plain (swap_fields b) s t))
    ∙ parse-format b len h
