-- ===== src/StringPool/Valid.antt =====
-- What holds of every string pool that internal/stringpool/stringpool.go makes.
use go_msi.Prelude.{
  ℕ, zero, suc, ◌+◌, ◌^◌, ◌≤◌, ◌<◌, ◌≡◌, ◌≢◌, ◌⊎◌, inl, inr, Bool, Bool-cases, List, [], ◌∷◌,
  Option, none, some, length, refl, arith,
}
use go_msi.Prelude.Text.{Str, eq_str, eq_str_iff}
use go_msi.StringPool.{Entry, Pool, at_id, index_set, empty_pool, max_refcount}

-- An entry with a reference of either kind.
abbrev pub Live : Entry → Type 0
Live e = 0 < e.persistent + e.nonpersistent

abbrev pub Bounded : Entry → Type 0
Bounded e = (e.persistent ≤ max_refcount) × (e.nonpersistent ≤ max_refcount)

abbrev pub In : ℕ → List ℕ → Type 0
In x [] = ⊥
In x (y ∷ ys) = (x ≡ y) ⊎ In x ys

abbrev pub Distinct : List ℕ → Type 0
Distinct [] = Unit {0}
Distinct (x ∷ xs) = (¬ In x xs) × Distinct xs

-- The entry at a number holds a string and is in use.
abbrev pub Holds : List Entry → ℕ → Str → Type 0
Holds es id s = (e : Entry) × (at_id es id ≡ some e) × (e.s ≡ s) × Live e

-- The entry at a number is there and without references.
abbrev pub Dead : List Entry → ℕ → Type 0
Dead es id = (e : Entry) × (at_id es id ≡ some e) × (e.persistent + e.nonpersistent ≡ 0)

-- The index knows the strings of the entries in use and no others, so no string is stored twice. The
-- free numbers are without references and none is free twice, and counts are 16-bit.
pub record Valid (p : Pool) : Type 0 where
  pub sound : (s : Str) (id : ℕ) → p.index s ≡ some id → Holds p.entries id s
  pub complete : (id : ℕ) (e : Entry) → at_id p.entries id ≡ some e → Live e → p.index e.s ≡ some id
  pub free_dead : (id : ℕ) → In id p.free → Dead p.entries id
  pub free_distinct : Distinct p.free
  pub bounded : (id : ℕ) (e : Entry) → at_id p.entries id ≡ some e → Bounded e
  pub no_empty : p.index [] ≡ none
  pub small : length p.entries < 2 ^ 32

nothing_there : (id : ℕ) (e : Entry) → ¬ (at_id [] id ≡ some e)
nothing_there zero e h = ground arith
nothing_there (suc id) e h = ground arith

pub empty_pool-Valid : (cp : ℕ) (long_refs : Bool) → Valid (empty_pool cp long_refs)
unfolding empty_pool
empty_pool-Valid cp long_refs = record {
  sound = λ s id h. ground arith;
  complete = λ id e h l. absurd (nothing_there id e h);
  free_dead = λ id h. absurd h;
  free_distinct = tt;
  bounded = λ id e h. absurd (nothing_there id e h);
  no_empty = refl;
  small = omega arith;
}

-- Two facts on one cell of a memory.
pub same :
    (es : List Entry) (id : ℕ) (x y : Entry) → at_id es id ≡ some x → at_id es id ≡ some y → x ≡ y
same es id x y h k = grind (arith, h, k)

-- Equality of numbers and of strings, decided.
pub eq_id? : (i j : ℕ) → (i ≡ j) ⊎ (i ≢ j)
eq_id? i j = ground arith

pub eq_str? : (s t : Str) → (s ≡ t) ⊎ (s ≢ t)
eq_str? s t = elim (Bool-cases (eq_str s t)) [
  | inl e ↦ inl ((eq_str_iff s t).0 e)
  | inr e ↦ inr (λ k. ground (arith, (eq_str_iff s t).1 k))
]

pub index_set_self : (s : Str) (v : Option ℕ) (f : Str → Option ℕ) → index_set s v f s ≡ v
unfolding index_set
index_set_self s v f = rw ((eq_str_iff s s).1 refl) refl

pub index_set_ne : (s t : Str) (v : Option ℕ) (f : Str → Option ℕ) → t ≢ s → index_set s v f t ≡ f t
unfolding index_set
index_set_ne s t v f ne = elim (Bool-cases (eq_str t s)) [
  | inl e ↦ absurd (ne ((eq_str_iff t s).0 e))
  | inr e ↦ rw e refl
]
