-- ===== src/Convert/Decimal.antt =====
-- The decimal texts of msidb/convert.go: strconv.ParseInt reads what strconv.FormatInt writes.
use go_msi.Prelude.{
  ℕ, zero, suc, ◌+◌, ◌-◌, ◌*◌, ◌/◌, ◌%◌, ◌^◌, ◌||◌, ltb, leb, ◌≤◌, ◌<◌, ◌≡◌, refl, ap, ◌∙◌, inl,
  inr, Bool, true, false, Bool-cases, [], ◌∷◌, arith,
}
use native.Mathlib.Nat.{pow-suc}
use go_msi.Prelude.Int.{ℤ, pos, negsuc}
use go_msi.Prelude.Text.{Str}
use go_msi.Convert.{
  parsed, parsed_uint, parse_uint, signed_number, parse_digits_of, parse_int, decimal, format_int,
}
use go_msi.Convert.IntRange.{IsInt64}

-- One digit more.
digit_step :
    (n d : ℕ) (s : Str)
    → d < 10
    → n * 10 + d < 2 ^ 64
    → parse_uint n ((b'0' + d) ∷ s) ≡ parse_uint (n * 10 + d) s
unfolding parse_uint
digit_step n d s h small =
    let e : b'0' + d - b'0' ≡ d = omega arith in
    let in_range' : (ltb (b'0' + d) b'0' || ltb b'9' (b'0' + d)) ≡ false = ground arith in
    let fits : leb (2 ^ 64) (n * 10 + d) ≡ false = ground arith in rw e (rw (in_range', fits) refl)

parse_uint-decimal :
    (rounds n : ℕ) (out : Str)
    → n < 10 ^ rounds
    → n < 2 ^ 64
    → parse_uint 0 (decimal rounds n out) ≡ parse_uint n out
unfolding decimal
parse_uint-decimal zero n out h small = ap (λ k. parse_uint k out) (omega arith)
parse_uint-decimal (suc rounds) n out h small = elim (Bool-cases (ltb n 10)) [
  | inl low ↦
      let e : 0 * 10 + n ≡ n = omega arith in
      rw low (digit_step 0 n out (ground (arith, low)) (omega arith) ∙ ap (λ k. parse_uint k out) e)
  | inr high ↦
      let e : n / 10 * 10 + n % 10 ≡ n = omega arith in
      rw high (
        parse_uint-decimal rounds (n / 10) ((b'0' + n % 10) ∷ out)
          (omega (arith, pow-suc 10 rounds)) (omega arith)
        ∙ digit_step (n / 10) (n % 10) out (omega arith) (omega arith)
        ∙ ap (λ k. parse_uint k out) e)
]

-- A text that begins with a digit.
abbrev Digital : Str → Type 0
Digital [] = ⊥
Digital (c ∷ s) = (b'0' ≤ c) × (c ≤ b'9')

decimal-Digital : (rounds n : ℕ) (out : Str) → Digital out → Digital (decimal rounds n out)
unfolding decimal
decimal-Digital zero n out h = h
decimal-Digital (suc rounds) n out h = elim (Bool-cases (ltb n 10)) [
  | inl low ↦ rw low (ground (arith, low))
  | inr high ↦ rw high (decimal-Digital rounds (n / 10) ((b'0' + n % 10) ∷ out) (omega arith))
]

parse_int-Digital : (s : Str) → Digital s → parse_int s ≡ signed_number false (parse_uint 0 s)
unfolding parse_int parse_digits_of
parse_int-Digital [] h = elim h [ ]
parse_int-Digital (c ∷ s) h = ground (arith, h)

digits_read : (n : ℕ) → n < 2 ^ 64 → parse_uint 0 (decimal 20 n []) ≡ parsed_uint n
unfolding parse_uint
digits_read n h = parse_uint-decimal 20 n [] (omega arith) h

-- What FormatInt writes of a number begins with a digit.
digits-Digital : (n : ℕ) → Digital (decimal 20 n [])
unfolding decimal
digits-Digital n = elim (Bool-cases (ltb n 10)) [
  | inl low ↦ rw low (ground (arith, low))
  | inr high ↦ rw high (decimal-Digital 19 (n / 10) ((b'0' + n % 10) ∷ []) (omega arith))
]

parse_digits-Digital :
    (neg : Bool) (s : Str) → Digital s → parse_digits_of neg s ≡ signed_number neg (parse_uint 0 s)
unfolding parse_digits_of
parse_digits-Digital neg [] h = elim h [ ]
parse_digits-Digital neg (c ∷ s) h = refl

minus : (s : Str) → parse_int (b'-' ∷ s) ≡ parse_digits_of true s
unfolding parse_int
minus s = refl

-- ParseInt reads every 64-bit integer back from the text that FormatInt writes of it.
pub parse_int-format_int : (n : ℤ) → IsInt64 n → parse_int (format_int n) ≡ parsed n
unfolding format_int signed_number
parse_int-format_int (pos n) h =
    parse_int-Digital (decimal 20 n []) (digits-Digital n)
    ∙ ap (signed_number false) (digits_read n (omega arith))
    ∙ ground arith
parse_int-format_int (negsuc n) h =
    minus (decimal 20 (suc n) [])
    ∙ parse_digits-Digital true (decimal 20 (suc n) []) (digits-Digital (suc n))
    ∙ ap (signed_number true) (digits_read (suc n) (omega arith))
    ∙ ground arith
