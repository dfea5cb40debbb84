-- ===== src/Search/Split.antt =====
-- Where sort.Search stops, as an index of a list and as a filter of it.
use go_msi.Prelude.{
  ℕ, zero, suc, ◌+◌, ◌-◌, ◌/◌, ◌≤◌, ◌<◌, ◌≡◌, refl, ap, inl, inr, Bool, true, false, not,
  Bool-cases, ltb, if◌then◌else◌, List, [], ◌∷◌, length, get_or, take, drop, arith,
}
use go_msi.Search.{search_loop, first_index}

-- r splits the indices below n into those where f fails and those where it holds.
abbrev pub Splits : (ℕ → Bool) → ℕ → ℕ → Type 0
Splits f n r = (r ≤ n) × ((k : ℕ) → k < r → f k ≡ false) × ((k : ℕ) → r ≤ k → k < n → f k ≡ true)

-- Below n, f holds at every index behind one where it holds.
abbrev pub Rising : (ℕ → Bool) → ℕ → Type 0
Rising f n = (a b : ℕ) → a ≤ b → b < n → f a ≡ true → f b ≡ true

search_loop-Splits :
    (fuel : ℕ) (f : ℕ → Bool) (n i j : ℕ)
    → Rising f n
    → i ≤ j
    → j ≤ n
    → j - i ≤ fuel
    → ((k : ℕ) → k < i → f k ≡ false)
    → ((k : ℕ) → j ≤ k → k < n → f k ≡ true)
    → Splits f n (search_loop fuel f i j)
unfolding search_loop
search_loop-Splits zero f n i j rising h hn enough below above =
    (omega arith, below, λ k p q. above k (omega arith) q)
search_loop-Splits (suc fuel) f n i j rising h hn enough below above = elim (Bool-cases (ltb i j)) [
  | inr stop ↦ rw stop (omega arith, below, λ k p q. above k (ground arith) q)
  | inl go ↦ elim (Bool-cases (f ((i + j) / 2))) [
    | inl e ↦
        rw (go, e)
          (search_loop-Splits fuel f n i ((i + j) / 2) rising (ground arith) (ground arith)
            (ground arith) below (λ k p q. rising ((i + j) / 2) k p q e))
    | inr e ↦
        rw (go, e)
          (search_loop-Splits fuel f n ((i + j) / 2 + 1) j rising (ground arith) hn (ground arith)
            (λ k p. elim (Bool-cases (f k)) [
              | inr low ↦ low
              | inl high ↦
                  absurd (ground (arith, rising k ((i + j) / 2) (omega arith) (ground arith) high))
            ])
            above)
  ]
]

-- sort.Search of a test that rises finds the index where it begins to hold.
pub first_index-Splits : (n : ℕ) (f : ℕ → Bool) → Rising f n → Splits f n (first_index n f)
unfolding first_index
first_index-Splits n f rising =
    search_loop-Splits n f n 0 n rising (omega arith) (omega arith) (omega arith)
      (λ k h. absurd (omega arith)) (λ k h q. absurd (omega arith))

-- The elements at which a test holds, in their order.
unfoldable pub filter_by {ℓ} : {A : Type ℓ} → (A → Bool) → List A → List A
filter_by p [] = []
filter_by p (x ∷ xs) = let rest = filter_by p xs in if p x then x ∷ rest else rest

-- An index that splits a list at a test has the elements that fail before it, the others behind.
pub split_filter {ℓ} :
    {A : Type ℓ} (d : A) (p : A → Bool) (xs : List A) (r : ℕ)
    → Splits (λ k. p (get_or xs k d)) (length xs) r
    → (take r xs ≡ filter_by (λ x. not (p x)) xs) × (drop r xs ≡ filter_by p xs)
unfolding filter_by
split_filter d p [] zero s = (refl, refl)
split_filter d p [] (suc r) s = absurd (omega (arith, s.0))
split_filter d p (x ∷ xs) zero s =
    let high : p x ≡ true = s.2 0 (omega arith) (omega arith) in
    let rest = split_filter d p xs zero (
      omega arith,
      λ k h. absurd (omega arith),
      λ k a b. s.2 (suc k) (omega arith) (omega arith),
    ) in
    rw high (rest.0, ap (◌∷◌ x) rest.1)
split_filter d p (x ∷ xs) (suc r) s =
    let low : p x ≡ false = s.1 0 (omega arith) in
    let rest = split_filter d p xs r (
      omega (arith, s.0),
      λ k h. s.1 (suc k) (omega arith),
      λ k a b. s.2 (suc k) (omega arith) (omega arith),
    ) in
    rw low (ap (◌∷◌ x) rest.0, rest.1)
