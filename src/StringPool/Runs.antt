-- ===== src/StringPool/Runs.antt =====
-- Everything that Intern and Release of internal/stringpool/stringpool.go can make of a new pool.
use go_msi.Prelude.{
  ℕ, zero, suc, ◌+◌, ◌^◌, ◌≤◌, ◌<◌, ◌≡◌, ◌≢◌, ◌⊎◌, inl, inr, ◌==◌, ◌||◌, ltb, Bool, true, false,
  Bool-cases, List, [], ◌∷◌, Option, none, some, length, get_elem?, refl, ap, sym, ◌∙◌, arith,
}
use go_msi.Prelude.Text.{Str, eq_str_iff}
use go_msi.StringPool.{
  Entry, Pool, at_id, size, empty_pool, count_down, release_at, intern, release,
}
use go_msi.StringPool.Codepages.{supported, new_pool}
use go_msi.StringPool.Valid.{Live, Valid, empty_pool-Valid, eq_str?}
use go_msi.StringPool.Refs.{lookup-Live}
use go_msi.StringPool.Intern.{intern-Interns}
use go_msi.StringPool.Release.{release-Releases, release_eq}

intern_empty : (k : Bool) (p : Pool) → intern [] k p ≡ some (0, p)
unfolding intern
intern_empty k p = rw ((eq_str_iff [] []).1 refl) refl

intern_total :
    (s : Str) (k : Bool) (p : Pool)
    → Valid p
    → length p.entries + 1 < 2 ^ 32
    → (id : ℕ) × (q : Pool) × (intern s k p ≡ some (id, q)) × Valid q
intern_total s k p v room = elim (eq_str? s []) [
  | inl e ↦ (0, p, ap (λ t. intern t k p) e ∙ intern_empty k p, v)
  | inr ne ↦ let (id, q, e, i) = intern-Interns s k p ne v room in (id, q, e, i.valid)
]

get_elem?-some : (es : List Entry) (i : ℕ) → i < length es → (e : Entry) × (get_elem? es i ≡ some e)
get_elem?-some [] i h = absurd (omega arith)
get_elem?-some (e ∷ es) zero h = (e, refl)
get_elem?-some (e ∷ es) (suc i) h = get_elem?-some es i (omega arith)

at_id-some :
    (es : List Entry) (id : ℕ) → 0 < id → id ≤ length es → (e : Entry) × (at_id es id ≡ some e)
at_id-some es zero pos h = absurd (omega arith)
at_id-some es (suc i) pos h = get_elem?-some es i (omega arith)

-- A number that no string has is passed over.
release_out :
    (p : Pool) (id : ℕ) (k : Bool)
    → (id == 0 || ltb (size p.entries) id) ≡ true
    → release id k p ≡ some p
unfolding release
release_out p id k h = rw h refl

count_down_dead :
    (k : Bool) (x : Entry) → x.persistent + x.nonpersistent ≡ 0 → count_down k x ≡ none
unfolding count_down
count_down_dead true x h = let e : ltb 0 x.persistent ≡ false = ground (arith, h) in rw e refl
count_down_dead false x h = let e : ltb 0 x.nonpersistent ≡ false = ground (arith, h) in rw e refl

release_dead :
    (p : Pool) (id : ℕ) (k : Bool) (x : Entry)
    → Valid p
    → at_id p.entries id ≡ some x
    → x.persistent + x.nonpersistent ≡ 0
    → release id k p ≡ some p
unfolding release_at
release_dead p id k x v at h = release_eq p id k x v at ∙ rw (count_down_dead k x h) refl

live? : (x : Entry) → Live x ⊎ (x.persistent + x.nonpersistent ≡ 0)
live? x = ground arith

release_total :
    (id : ℕ) (k : Bool) (p : Pool) → Valid p → (q : Pool) × (release id k p ≡ some q) × Valid q
release_total id k p v = elim (Bool-cases (id == 0 || ltb (size p.entries) id)) [
  | inl e ↦ (p, release_out p id k e, v)
  | inr e ↦
      let pos : 0 < id = ground (arith, e) in
      let range : id ≤ length p.entries = ground (arith, e, v.small) in
      let (x, at) = at_id-some p.entries id pos range in
      elim (live? x) [
        | inl l ↦
            let (q, h, r) = release-Releases x.s k p id v pos (lookup-Live p id x v at l) in
            (q, h, r.valid)
        | inr d ↦ (p, release_dead p id k x v at d, v)
      ]
]

-- A pool that a sequence of calls makes of a new one, with room for a number more at each Intern.
pub data Reached : Pool → Type 0 where
  made : (cp : ℕ) (long_refs : Bool) {p : Pool} → new_pool cp long_refs ≡ some p → Reached p
  interned :
      (s : Str) (k : Bool) {p q : Pool} {id : ℕ}
      → Reached p
      → length p.entries + 1 < 2 ^ 32
      → intern s k p ≡ some (id, q)
      → Reached q
  released : (id : ℕ) (k : Bool) {p q : Pool} → Reached p → release id k p ≡ some q → Reached q

same_pool : {r : Option Pool} {p q : Pool} → r ≡ some p → r ≡ some q → p ≡ q
same_pool {p = p} e f = ap (from p) (sym e ∙ f)
  where
    from : Pool → Option Pool → Pool
    from d (some q) = q
    from d none = d

abbrev pool_of : Option (ℕ × Pool) → Option Pool
pool_of (some r) = some (r.1)
pool_of none = none

new_pool_lem :
    (cp : ℕ) (long_refs : Bool) (p : Pool)
    → new_pool cp long_refs ≡ some p
    → empty_pool cp long_refs ≡ p
unfolding new_pool
new_pool_lem cp long_refs p e = elim (Bool-cases (supported cp)) [
  | inl s ↦ same_pool refl (rw s at e)
  | inr s ↦ absurd (ground (arith, rw s at e))
]

-- Every pool that calls of Intern and Release make of a new pool is valid.
pub Reached-Valid : (p : Pool) → Reached p → Valid p
Reached-Valid p (made cp long_refs e) =
    rw (new_pool_lem cp long_refs p e) at (empty_pool-Valid cp long_refs)
Reached-Valid p (interned s k {p = o} r room e) =
    let (id, q, f, v) = intern_total s k o (Reached-Valid o r) room in
    rw (same_pool (ap pool_of f) (ap pool_of e)) at v
Reached-Valid p (released id k {p = o} r e) =
    let (q, f, v) = release_total id k o (Reached-Valid o r) in rw (same_pool f e) at v

-- On such a pool neither Intern nor Release panics.
pub Reached-total :
    (p : Pool) (s : Str) (id : ℕ) (k : Bool)
    → Reached p
    → length p.entries + 1 < 2 ^ 32
    → (intern s k p ≢ none) × (release id k p ≢ none)
Reached-total p s id k r room =
    let v = Reached-Valid p r in
    let (_, _, e, _) = intern_total s k p v room in
    let (_, f, _) = release_total id k p v in
    (λ h. ground (arith, sym e ∙ h), λ h. ground (arith, sym f ∙ h))
