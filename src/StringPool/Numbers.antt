-- ===== src/StringPool/Numbers.antt =====
-- LookupID and Lookup of internal/stringpool/stringpool.go against each other.
use go_msi.Prelude.{
  ℕ, ◌<◌, ◌≡◌, ◌≢◌, inl, inr, ◌↔◌, Bool, true, Bool-cases, [], Option, none, some, refl, ap, sym,
  ◌∙◌, arith,
}
use go_msi.Prelude.Text.{Str, eq_str, eq_str_iff}
use go_msi.StringPool.{Pool, lookup, lookup_id, found_id}
use go_msi.StringPool.Valid.{Valid}
use go_msi.StringPool.Refs.{lookup-Live, lookup-Holds, said}

pub lookup_id_eq : (p : Pool) (s : Str) → s ≢ [] → lookup_id p s ≡ found_id (p.index s)
unfolding lookup_id
lookup_id_eq p s filled = elim (Bool-cases (eq_str s [])) [
  | inl e ↦ absurd (filled ((eq_str_iff s []).0 e))
  | inr e ↦ rw e refl
]

found : ℕ → Bool → ℕ × Bool
found id b = (id, b)

found_some : (o : Option ℕ) (id : ℕ) → found_id o ≡ found id true → o ≡ some id
unfolding found
found_some none id h = absurd (ground (arith, ap (λ r. r.1) h))
found_some (some j) id h = ap (λ r. some (r.0)) h

-- On a valid pool LookupID finds the number of a string that is not empty exactly if Lookup gives
-- the string for that number.
pub lookup_id_iff :
    (p : Pool) (s : Str) (id : ℕ)
    → Valid p
    → s ≢ []
    → 0 < id
    → (lookup_id p s ≡ (id, true)) ↔ (lookup p id ≡ some (s, true))
unfolding found
lookup_id_iff p s id v filled pos = (to, from)
  where
    to : lookup_id p s ≡ (id, true) → lookup p id ≡ some (s, true)
    to h =
        let k = found_some (p.index s) id (sym (lookup_id_eq p s filled) ∙ h) in
        let (x, at, text, live) = v.sound s id k in
        lookup-Live p id x v at live ∙ ap (λ b. said b true) text

    from : lookup p id ≡ some (s, true) → lookup_id p s ≡ (id, true)
    from h =
        let (x, at, text, live) = lookup-Holds p id s pos h in
        lookup_id_eq p s filled ∙ ap found_id (ap p.index (sym text) ∙ v.complete id x at live)
