-- ===== src/Convert/Range.antt =====
-- The integers that msidb/convert.go lets through.
use go_msi.Prelude.{ℕ, suc, ◌≤◌, ◌≡◌, ap, inl, inr, Bool-cases, ltb, arith}
use mathlib.Core.Path.{subst}
use go_msi.Prelude.Int.{ℤ, pos, negsuc, pos_part, neg_part}
use go_msi.Errors.{ok, ok_injective}
use go_msi.Convert.{
  Any, text, number, in_range, int_of_text, int_value, Parsed, parsed, bad_syntax, out_of_range,
  parse_int,
}

-- The integers of a magnitude up to the limit.
abbrev pub Within : ℕ → ℤ → Type 0
Within limit v = (pos_part v ≤ limit) × (neg_part v ≤ limit)

in_range-Within : (n v : ℤ) (limit : ℕ) → in_range n limit ≡ ok v → (n ≡ v) × Within limit v
unfolding in_range
in_range-Within (pos n) v limit h = elim (Bool-cases (ltb limit n)) [
  | inl e ↦ absurd (ground (arith, rw (e, in_range) at h))
  | inr e ↦
      let same = ok_injective (pos n) v (rw (e, in_range) at h) in
      (same, subst (Within limit) same (ground (arith, e)))
]
in_range-Within (negsuc n) v limit h = elim (Bool-cases (ltb limit (suc n))) [
  | inl e ↦ absurd (ground (arith, rw (e, in_range) at h))
  | inr e ↦
      let same = ok_injective (negsuc n) v (rw (e, in_range) at h) in
      (same, subst (Within limit) same (ground (arith, e)))
]

int_of_text-Within :
    (r : Parsed) (v : ℤ) (limit : ℕ) → int_of_text limit r ≡ ok v → (r ≡ parsed v) × Within limit v
unfolding int_of_text
int_of_text-Within (parsed n) v limit h =
    let (same, w) = in_range-Within n v limit h in (ap parsed same, w)
int_of_text-Within bad_syntax v limit h = absurd cc
int_of_text-Within out_of_range v limit h = absurd cc

-- intValue answers an integer of a magnitude up to the limit, or an error.
pub int_value-Within : (x : Any) (v : ℤ) (limit : ℕ) → int_value x limit ≡ ok v → Within limit v
unfolding int_value
int_value-Within (number n) v limit h = (in_range-Within n v limit h).1
int_value-Within (text s) v limit h = (int_of_text-Within (parse_int s) v limit h).1
int_value-Within x v limit h = absurd cc
