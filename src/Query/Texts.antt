-- ===== src/Query/Texts.antt =====
-- The numbers of strings, which the queries of msidb/query.go compare in place of the strings.
use go_msi.Prelude.{
  ℕ, zero, suc, ◌/◌, ◌^◌, ◌==◌, ltb, if◌then◌else◌, true, false, [], ◌∷◌, Option, none, some, ◌<◌,
  ◌≡◌, ◌≢◌, refl, ap, sym, ◌∙◌, inl, inr, Bool-cases, Option-cases, arith,
}
use mathlib.Core.Path.{subst}
use go_msi.Prelude.Int.{pos, negsuc}
use go_msi.Prelude.Text.{Str, eq_str, eq_str_iff}
use go_msi.Column.{column_string}
use go_msi.StringPool.{Pool, at_id, lookup, lookup_id, found_id}
use go_msi.StringPool.Slots.{at_id_pos, at_id_range}
use go_msi.StringPool.Valid.{Valid, same}
use go_msi.StringPool.Numbers.{lookup_id_eq}
use go_msi.StringPool.Refs.{lookup-Holds}
use go_msi.Errors.{ok, ok_injective}
use go_msi.Convert
use go_msi.Convert.{
  Any, nil, number, int_value, string_value, in_range, int_of_text, Parsed, parsed, bad_syntax,
  out_of_range, parse_int, decimal, format_int,
}
use go_msi.Query.Compile.{is_raw, id_or_none, is_null_value}
use go_msi.Query.Meaning.{missing, text, eq_datum, said_text, TypedCell}

decimal_filled : (rounds n : ℕ) (c : ℕ) (out : Str) → decimal rounds n (c ∷ out) ≢ []
unfolding decimal
decimal_filled zero n c out h = ground (arith, h)
decimal_filled (suc rounds) n c out h = elim (Bool-cases (ltb n 10)) [
  | inl e ↦ ground (arith, rw (e, decimal) at h)
  | inr e ↦ decimal_filled rounds (n / 10) _ (c ∷ out) (rw (e, decimal) at h)
]

digits_filled : (n : ℕ) → decimal 20 n [] ≢ []
unfolding decimal
digits_filled n h = elim (Bool-cases (ltb n 10)) [
  | inl e ↦ ground (arith, rw (e, decimal) at h)
  | inr e ↦ decimal_filled 19 (n / 10) _ [] (rw (e, decimal) at h)
]

-- A text that a literal other than NULL stands for is not empty.
pub text_filled :
    (lit : Any) (s : Str) → is_null_value lit ≡ false → string_value lit ≡ ok s → s ≢ []
unfolding is_null_value string_value format_int
text_filled (Convert.text t) s h e z = ground (arith, ok_injective t s e, (eq_str_iff t []).1)
text_filled (number (pos n)) s h e z = digits_filled n (ok_injective _ s e ∙ z)
text_filled (number (negsuc n)) s h e z = ground (arith, ok_injective _ s e ∙ z)
text_filled lit s h e z = cc

-- A string that a cell has is known by the cell.
pub known :
    (p : Pool) (raw : ℕ) (t : Str)
    → Valid p
    → 0 < raw
    → lookup p raw ≡ some (t, true)
    → p.index t ≡ some raw
known p raw t valid pos' look =
    let (x, at, said', live) = lookup-Holds p raw t pos' look in
    ap p.index (sym said') ∙ valid.complete raw x at live

-- The number of a string, against a cell that holds one.
id_matches :
    (p : Pool) (s t : Str) (raw : ℕ) (o : Option ℕ)
    → p.index t ≡ some raw
    → ((id : ℕ) → o ≡ some id → (id < 2 ^ 32) × ((j : ℕ) → p.index t ≡ some j → id ≡ j → t ≡ s))
    → p.index s ≡ o
    → is_raw raw (id_or_none (found_id o)) ≡ eq_str t s
id_matches p s t raw none k h e = elim (Bool-cases (eq_str t s)) [
  | inl same ↦ absurd (ground (arith, k, e, ap p.index ((eq_str_iff t s).0 same)))
  | inr other' ↦ sym other'
]
id_matches p s t raw (some id) k h e = elim (Bool-cases (eq_str t s)) [
  | inl same ↦
      let i : id ≡ raw = ground (arith, k, e, ap p.index ((eq_str_iff t s).0 same)) in
      rw same (ground (arith, i, (h id refl).0))
  | inr other' ↦ rw other' (ground (arith, (h id refl).0, (h id refl).1 raw k, (eq_str_iff t s).1))
]

id_small : (p : Pool) (s : Str) (id : ℕ) → Valid p → p.index s ≡ some id → (0 < id) × (id < 2 ^ 32)
id_small p s id valid e =
    let (x, at, said', live) = valid.sound s id e in
    (at_id_pos p.entries id x at, omega (arith, at_id_range p.entries id x at, valid.small))

pub id_one_text :
    (p : Pool) (s t : Str) (i j : ℕ)
    → Valid p
    → p.index s ≡ some i
    → p.index t ≡ some j
    → i ≡ j
    → t ≡ s
id_one_text p s t i j valid ei ej e =
    let (x, at, xs, lx) = valid.sound s i ei in
    let (y, bt, yt, ly) = valid.sound t j ej in
    let same' : x ≡ y = same p.entries j x y (subst (λ k. at_id p.entries k ≡ some x) e at) bt in
    sym yt ∙ ap (λ z. z.s) (sym same') ∙ xs

-- The number that a string's cell is compared with.
pub text_matches :
    (p : Pool) (s : Str) (raw : ℕ)
    → Valid p
    → s ≢ []
    → TypedCell p column_string 0 raw
    → is_raw raw (id_or_none (lookup_id p s))
      ≡ eq_datum (if raw == 0 then missing else text (said_text (lookup p raw))) (text s)
text_matches p s raw valid filled cell =
    ap (λ r. is_raw raw (id_or_none r)) (lookup_id_eq p s filled) ∙ elim (Bool-cases (raw == 0)) [
      | inl z ↦ rw z (elim (Option-cases (p.index s)) [
        | inl out ↦ rw out refl
        | inr (id, e) ↦ rw e (ground (arith, z, id_small p s id valid e))
      ])
      | inr nz ↦
          let (t, look) = cell (ground (arith, nz)) in
          let k = known p raw t valid (ground (arith, nz)) look in
          rw (nz, look)
            (id_matches p s t raw (p.index s) k
              (λ id e. ((id_small p s id valid e).1, λ j f g. id_one_text p s t id j valid e f g))
              refl)
    ]
