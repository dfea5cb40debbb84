-- ===== src/Dml/Combos.antt =====
-- The records that gather lays one after the other, cut into tuples: msidb/dml.go and query.go.
use go_msi.Prelude.{
  ℕ, zero, suc, ◌+◌, ◌<◌, ◌≤◌, ◌≡◌, refl, ap, sym, ◌∙◌, if◌then◌else◌, Bool, Bool-cases, inl, inr,
  List, [], ◌∷◌, ◌++◌, append-nil, append_assoc, length, length-append, drop, take-append_left,
  drop-append_left, arith,
}
use go_msi.Table.{Table, Row}
use go_msi.Query.{Tuple}
use go_msi.Query.Select.{each_row, select}
use go_msi.Dml.{tuples}

abbrev each_tuple : (Row → List Tuple) → List Row → List Tuple
each_tuple f [] = []
each_tuple f (rec ∷ rows) = f rec ++ each_tuple f rows

-- Every combination of one record of each table, in the order of the tables, at which the test holds.
abbrev pub combos : List Table → (Tuple → Bool) → Tuple → List Tuple
combos [] p chosen = if p chosen then chosen ∷ [] else []
combos (t ∷ ts) p chosen = each_tuple (λ rec. combos ts p (chosen ++ (rec ∷ []))) t.records

abbrev flat : List Tuple → List Row
flat [] = []
flat (u ∷ us) = u ++ flat us

flat-append : (us vs : List Tuple) → flat (us ++ vs) ≡ flat us ++ flat vs
flat-append [] vs = refl
flat-append (u ∷ us) vs = ap (◌++◌ u) (flat-append us vs) ∙ sym (append_assoc u (flat us) (flat vs))

each_row-flat :
    (f : Row → List Row) (g : Row → List Tuple) (rows : List Row)
    → ((rec : Row) → f rec ≡ flat (g rec))
    → each_row f rows ≡ flat (each_tuple g rows)
each_row-flat f g [] h = refl
each_row-flat f g (rec ∷ rows) h =
    ap (λ l. l ++ each_row f rows) (h rec)
    ∙ ap (◌++◌ (flat (g rec))) (each_row-flat f g rows h)
    ∙ sym (flat-append (g rec) (each_tuple g rows))

select-flat :
    (ts : List Table) (p : Tuple → Bool) (chosen : Tuple)
    → select ts p chosen ≡ flat (combos ts p chosen)
select-flat [] p chosen = elim (Bool-cases (p chosen)) [
  | inl e ↦ rw e (sym (append-nil chosen))
  | inr e ↦ rw e refl
]
select-flat (t ∷ ts) p chosen =
    each_row-flat _ _ t.records λ rec. select-flat ts p (chosen ++ (rec ∷ []))

abbrev AllLong : ℕ → List Tuple → Type 0
AllLong n [] = Unit {0}
AllLong n (u ∷ us) = (length u ≡ n) × AllLong n us

AllLong-append : (n : ℕ) (us vs : List Tuple) → AllLong n us → AllLong n vs → AllLong n (us ++ vs)
AllLong-append n [] vs a b = b
AllLong-append n (u ∷ us) vs (h, a) b = (h, AllLong-append n us vs a b)

each_tuple-AllLong :
    (n : ℕ) (f : Row → List Tuple) (rows : List Row)
    → ((rec : Row) → AllLong n (f rec))
    → AllLong n (each_tuple f rows)
each_tuple-AllLong n f [] h = tt
each_tuple-AllLong n f (rec ∷ rows) h =
    AllLong-append n (f rec) (each_tuple f rows) (h rec) (each_tuple-AllLong n f rows h)

combos-AllLong :
    (n : ℕ) (ts : List Table) (p : Tuple → Bool) (chosen : Tuple)
    → length chosen + length ts ≡ n
    → AllLong n (combos ts p chosen)
combos-AllLong n [] p chosen h = elim (Bool-cases (p chosen)) [
  | inl e ↦ rw e (omega (arith, h), tt)
  | inr e ↦ rw e tt
]
combos-AllLong n (t ∷ ts) p chosen h = each_tuple-AllLong n _ t.records λ rec.
    combos-AllLong n ts p (chosen ++ (rec ∷ [])) (omega (arith, h, length-append chosen (rec ∷ [])))

tuples_step :
    (fuel : ℕ) (u : Tuple) (rest : List Row)
    → 0 < length u
    → tuples (suc fuel) (length u) (u ++ rest) ≡ u ∷ tuples fuel (length u) rest
unfolding tuples
tuples_step fuel [] rest h = absurd (omega arith)
tuples_step fuel (rec ∷ u) rest h =
    ap (λ v. v ∷ tuples fuel (suc (length u)) (drop (length u) (u ++ rest)))
      (ap (◌∷◌ rec) (take-append_left u rest))
    ∙ ap (λ v. (rec ∷ u) ∷ tuples fuel (suc (length u)) v) (drop-append_left u rest)

tuples-flat :
    (fuel n : ℕ) (us : List Tuple)
    → 0 < n
    → AllLong n us
    → length (flat us) ≤ fuel
    → tuples fuel n (flat us) ≡ us
unfolding tuples
tuples-flat zero n [] h a f = refl
tuples-flat (suc fuel) n [] h a f = refl
tuples-flat zero n (u ∷ us) h (e, a) f = absurd (omega (arith, e, h, f, length-append u (flat us)))
tuples-flat (suc fuel) n (u ∷ us) h (e, a) f =
    ap (λ m. tuples (suc fuel) m (u ++ flat us)) (sym e)
    ∙ tuples_step fuel u (flat us) (omega (arith, e, h))
    ∙ ap (λ m. u ∷ tuples fuel m (flat us)) e
    ∙ ap (◌∷◌ u) (tuples-flat fuel n us h a (omega (arith, e, h, f, length-append u (flat us))))

-- Cutting what the nested loops gather gives back the combinations.
pub tuples-select :
    (ts : List Table) (p : Tuple → Bool)
    → 0 < length ts
    → tuples (length (select ts p [])) (length ts) (select ts p []) ≡ combos ts p []
tuples-select ts p h =
    ap (λ l. tuples (length l) (length ts) l) (select-flat ts p [])
    ∙ tuples-flat (length (flat (combos ts p []))) (length ts) (combos ts p []) h
        (combos-AllLong (length ts) ts p [] (omega arith)) (omega arith)
