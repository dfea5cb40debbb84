-- ===== src/Dml/Distinct.antt =====
-- DISTINCT in msidb/dml.go: of the tuples with the same projected cells the first is kept.
use go_msi.Prelude.{
  ℕ, if◌then◌else◌, ◌≡◌, refl, ap, sym, ◌∙◌, inl, inr, Bool, true, Bool-cases, List, [], ◌∷◌, take,
}
use go_msi.Prelude.Text.{eq_str, eq_str→eq}
use go_msi.Search.Split.{filter_by}
use go_msi.Query.{Tuple, BoundCol, contains_str}
use go_msi.Dml.{project, distinct_from, distinct}
use go_msi.Dml.Sort.{NoneLess, InOrder}

-- The tuples that show the cells.
abbrev pub shows : List BoundCol → List ℕ → Tuple → Bool
shows res cells tuple = eq_str (project res tuple) cells

shown :
    (res : List BoundCol) (cells : List ℕ) (seen : List (List ℕ)) (x : Tuple) {b : Bool}
    → contains_str (project res x) seen ≡ b
    → shows res cells x ≡ true
    → contains_str cells seen ≡ b
shown res cells seen x h hit =
    ap (λ z. contains_str z seen) (sym (eq_str→eq (project res x) cells hit)) ∙ h

-- The first tuple that shows the cells, unless they were seen.
first_shown :
    (res : List BoundCol) (cells : List ℕ) (seen : List (List ℕ)) (xs : List Tuple)
    → filter_by (shows res cells) (distinct_from res seen xs)
      ≡ (if contains_str cells seen then [] else take 1 (filter_by (shows res cells) xs))
unfolding distinct_from filter_by contains_str
first_shown res cells seen [] = elim (Bool-cases (contains_str cells seen)) [
  | inl e ↦ rw e refl
  | inr e ↦ rw e refl
]
first_shown res cells seen (x ∷ xs) = elim (Bool-cases (shows res cells x)) [
  | inl hit ↦ elim (Bool-cases (contains_str (project res x) seen)) [
    | inl old ↦
        rw (old, hit, first_shown res cells seen xs) (rw (shown res cells seen x old hit) refl)
    | inr new ↦
        rw (new, hit, first_shown res cells (project res x ∷ seen) xs)
          (rw (hit, shown res cells seen x new hit) refl)
  ]
  | inr miss ↦ elim (Bool-cases (contains_str (project res x) seen)) [
    | inl old ↦ rw (old, miss) (first_shown res cells seen xs)
    | inr new ↦ rw (new, miss, first_shown res cells (project res x ∷ seen) xs) (rw miss refl)
  ]
]

-- Of the tuples that show the same cells DISTINCT keeps the first.
pub distinct-shows :
    (res : List BoundCol) (cells : List ℕ) (xs : List Tuple)
    → filter_by (shows res cells) (distinct res xs) ≡ take 1 (filter_by (shows res cells) xs)
unfolding distinct contains_str
distinct-shows res cells xs = first_shown res cells [] xs

distinct_from-NoneLess :
    (res ks : List BoundCol) (seen : List (List ℕ)) (y : Tuple) (xs : List Tuple)
    → NoneLess ks y xs
    → InOrder ks xs
    → NoneLess ks y (distinct_from res seen xs)
unfolding distinct_from
distinct_from-NoneLess res ks seen y [] n o = tt
distinct_from-NoneLess res ks seen y (x ∷ xs) (m, n) (n', o) =
    elim (Bool-cases (contains_str (project res x) seen)) [
      | inl e ↦ rw e (distinct_from-NoneLess res ks seen y xs n o)
      | inr e ↦ rw e (m, distinct_from-NoneLess res ks (project res x ∷ seen) y xs n o)
    ]

distinct_from-InOrder :
    (res ks : List BoundCol) (seen : List (List ℕ)) (xs : List Tuple)
    → InOrder ks xs
    → InOrder ks (distinct_from res seen xs)
unfolding distinct_from
distinct_from-InOrder res ks seen [] o = tt
distinct_from-InOrder res ks seen (x ∷ xs) (n, o) =
    elim (Bool-cases (contains_str (project res x) seen)) [
      | inl e ↦ rw e (distinct_from-InOrder res ks seen xs o)
      | inr e ↦ rw e (
        distinct_from-NoneLess res ks (project res x ∷ seen) x xs n o,
        distinct_from-InOrder res ks (project res x ∷ seen) xs o,
      )
    ]

pub distinct-InOrder :
    (res ks : List BoundCol) (xs : List Tuple) → InOrder ks xs → InOrder ks (distinct res xs)
unfolding distinct
distinct-InOrder res ks xs o = distinct_from-InOrder res ks [] xs o
