-- ===== src/Sql/Scan/Progress.antt =====
-- What the scanner of internal/sql/scan.go takes of the input with a token.
use go_msi.Prelude.{
  ℕ, suc, ◌+◌, ◌≤◌, ◌<◌, ◌≡◌, ◌⊎◌, ◌==◌, ◌||◌, if◌then◌else◌, Bool, true, false, [], ◌∷◌, Option,
  none, some, take, drop, length, length-drop, refl, arith, inl, inr, Bool-cases, Bool-cases,
}
use go_msi.Prelude.Text.{Str, bytes, eq_str}
use go_msi.Sql.Token.{Kind, Token, keyword_kind, kind_error, kind_eof, kind_ident, kind_string}
use go_msi.Sql.Scan.{
  Scanner, errorf, forward, tok, Msg, plain, unrecognized_token, unexpected_character, string_token,
  quoted_token, word_token, is_digit, count_while, index_byte, scan_less, scan_greater, quoted,
  scan_string, scan_quoted, scan_number_end, scan_number, scan_ident, scan_at, scan_next,
  skip_space, scan, is_ident, is_ident_start, is_space,
}

-- The result of a scan: at the end, an error, or fewer bytes left than there were.
abbrev pub Advances : ℕ → Token × Scanner → Type 0
Advances n r =
    (length r.1.rest ≤ n)
    × ((r.0.kind ≡ kind_eof) ⊎ (r.0.kind ≡ kind_error) ⊎ (length r.1.rest < n))

tok-Advances :
    (k n : ℕ) (s : Scanner) → 0 < n → 0 < length s.rest → Advances (length s.rest) (tok k n s)
unfolding tok
tok-Advances k n s h f =
    (omega (arith, length-drop n s.rest), inr (inr (omega (arith, length-drop n s.rest))))

-- An error is reported where the scanner stands, or further on.
errorf-Advances :
    (s : Scanner) (pos n : ℕ) (m : Msg) → length s.rest ≤ n → Advances n (errorf s pos m)
unfolding errorf
errorf-Advances s pos n m h = (h, inr (inl refl))

quoted-Advances :
    (k n : ℕ) (r : Str) (s : Scanner)
    → 0 < length s.rest
    → Advances (length s.rest) (quoted k n r s)
unfolding quoted
quoted-Advances k n r s f = (
  omega (arith, length-drop (n + 2) s.rest),
  inr (inr (omega (arith, length-drop (n + 2) s.rest))),
)

forward-le : (n : ℕ) (s : Scanner) → length (forward n s).rest ≤ length s.rest
unfolding forward
forward-le n s = omega (arith, length-drop n s.rest)

branch :
    (n : ℕ) (c : Bool) (x y : Token × Scanner)
    → Advances n x
    → Advances n y
    → Advances n (if c then x else y)
branch n true x y p q = p
branch n false x y p q = q

module _ (s : Scanner) (filled : 0 < length s.rest) where
  abbrev size : ℕ
  size = length s.rest

  one : (k n : ℕ) → 0 < n → Advances size (tok k n s)
  one k n h = tok-Advances k n s h filled

  scan_less-Advances : (r : Str) → Advances size (scan_less r s)
  unfolding scan_less
  scan_less-Advances [] = one _ 1 (omega arith)
  scan_less-Advances (b ∷ r) =
      branch size (b == b'=') _ _ (one _ 2 (omega arith))
        (branch size (b == b'>') _ _ (one _ 2 (omega arith)) (one _ 1 (omega arith)))

  scan_greater-Advances : (r : Str) → Advances size (scan_greater r s)
  unfolding scan_greater
  scan_greater-Advances [] = one _ 1 (omega arith)
  scan_greater-Advances (b ∷ r) =
      branch size (b == b'=') _ _ (one _ 2 (omega arith)) (one _ 1 (omega arith))

  scan_string-Advances : (r : Str) → Advances size (scan_string r s)
  scan_string-Advances r = unfold scan_string in go (index_byte b'\'' r)
    where
      go : (o : Option ℕ) → Advances size (string_token o r s)
      go none =
          unfold string_token in
          errorf-Advances s s.pos size (plain (bytes "unterminated string literal")) (omega arith)
      go (some n) = unfold string_token in quoted-Advances kind_string n r s filled

  scan_quoted-Advances : (r : Str) → Advances size (scan_quoted r s)
  scan_quoted-Advances r = unfold scan_quoted in go (index_byte b'`' r)
    where
      go : (o : Option ℕ) → Advances size (quoted_token o r s)
      go none =
          unfold quoted_token in
          errorf-Advances s s.pos size (plain (bytes "unterminated quoted identifier"))
            (omega arith)
      go (some n) =
          unfold quoted_token in
          branch size (n == 0) _ _
            (errorf-Advances s s.pos size (plain (bytes "empty quoted identifier")) (omega arith))
            (quoted-Advances kind_ident n r s filled)

  scan_number_end-Advances : (n : ℕ) (r : Str) → 0 < n → Advances size (scan_number_end n r s)
  unfolding scan_number_end
  scan_number_end-Advances n [] h = one _ n h
  scan_number_end-Advances n (b ∷ r) h =
      let m = n + count_while is_ident (b ∷ r) in
      branch size (is_ident_start b) _ _
        (errorf-Advances (forward m s) s.pos size (unrecognized_token (take m s.rest))
          (forward-le m s))
        (one _ n h)

  scan_number-Advances : (r : Str) → Advances size (scan_number r s)
  unfolding scan_number
  scan_number-Advances r =
      let n = suc (count_while is_digit r) in
      branch size (eq_str (take n s.rest) (bytes "-")) _ _
        (errorf-Advances (forward n s) s.pos size (plain (bytes "expected digit after '-'"))
          (forward-le n s))
        (scan_number_end-Advances n (drop n s.rest) (omega arith))

  scan_ident-Advances : 0 < count_while is_ident s.rest → Advances size (scan_ident s)
  scan_ident-Advances h =
      unfold scan_ident in go (keyword_kind (take (count_while is_ident s.rest) s.rest))
    where
      go : (o : Option Kind) → Advances size (word_token o (count_while is_ident s.rest) s)
      go none = unfold word_token in one kind_ident _ h
      go (some k) = unfold word_token in one k _ h

-- A byte that begins an identifier is one of its bytes.
ident_positive : (b : ℕ) (r : Str) → is_ident_start b ≡ true → 0 < count_while is_ident (b ∷ r)
unfolding count_while is_ident
ident_positive b r e = rw e (omega arith)

module _ (b : ℕ) (r : Str) (s : Scanner) (e : s.rest ≡ b ∷ r) where
  filled : 0 < length s.rest
  filled = rw e (omega arith)

  single : (k : Kind) → Advances (length s.rest) (tok k 1 s)
  single k = one s filled k 1 (omega arith)

  unexpected : Token × Scanner
  unexpected = let (t, s') = errorf s s.pos (unexpected_character b) in (t, forward 1 s')

  unexpected-Advances : Advances (length s.rest) unexpected
  unfolding errorf unexpected forward
  unexpected-Advances = (forward-le 1 s, inr (inl refl))

  word-Advances : Advances (length s.rest) (if is_ident_start b then scan_ident s else unexpected)
  word-Advances = elim (Bool-cases (is_ident_start b)) [
    | inl yes' ↦ rw yes' (scan_ident-Advances s filled (rw e (ident_positive b r yes')))
    | inr no' ↦ rw no' unexpected-Advances
  ]

  scan_at-Advances : Advances (length s.rest) (scan_at b r s)
  unfolding scan_at unexpected
  scan_at-Advances =
      let n = length s.rest in
      branch n (b == b'(') _ _ (single _) (
        branch n (b == b')') _ _ (single _) (
          branch n (b == b',') _ _ (single _) (
            branch n (b == b'.') _ _ (single _) (
              branch n (b == b'*') _ _ (single _) (
                branch n (b == b'?') _ _ (single _) (
                  branch n (b == b'=') _ _ (single _) (
                    branch n (b == b'<') _ _ (scan_less-Advances s filled r) (
                      branch n (b == b'>') _ _ (scan_greater-Advances s filled r) (
                        branch n (b == b'\'') _ _ (scan_string-Advances s filled r) (
                          branch n (b == b'`') _ _ (scan_quoted-Advances s filled r) (
                            branch n (b == b'-' || is_digit b) _ _ (scan_number-Advances s filled r)
                              word-Advances)))))))))))

scan_next-Advances : (r : Str) (s : Scanner) → s.rest ≡ r → Advances (length s.rest) (scan_next r s)
scan_next-Advances [] s e = unfold scan_next in (omega arith, inl refl)
scan_next-Advances (b ∷ r) s e = unfold scan_next in scan_at-Advances b r s e

Advances-le : (n m : ℕ) (r : Token × Scanner) → n ≤ m → Advances n r → Advances m r
Advances-le n m r h (a, b) = (omega arith, ground arith)

-- Whatever scan returns, no byte comes back to the input; and it takes one at least, unless it
-- returns the end or an error.
pub scan-Advances : (s : Scanner) → Advances (length s.rest) (scan s)
scan-Advances s =
    Advances-le _ _ (scan s) (forward-le (count_while is_space s.rest) s) (
      unfold scan skip_space in scan_next-Advances _ (forward (count_while is_space s.rest) s) refl)
