-- ===== src/Query/Select.antt =====
-- What a query means, as nested loops over all the records of its tables.
use go_msi.Prelude.{
  ◌≡◌, refl, ap, inl, inr, Bool, false, Bool-cases, if◌then◌else◌, List, [], ◌∷◌, ◌++◌, append-nil,
  append_assoc,
}
use go_msi.Search.Split.{filter_by}
use go_msi.Table.{Table, Row}
use go_msi.Query.{Tuple}

abbrev pub each_row : (Row → List Row) → List Row → List Row
each_row f [] = []
each_row f (rec ∷ rows) = f rec ++ each_row f rows

-- Every combination of one record of each table, in the order of the tables, at which the test
-- holds, one after the other; `chosen` are the records of the tables before.
abbrev pub select : List Table → (Tuple → Bool) → Tuple → List Row
select [] p chosen = if p chosen then chosen else []
select (t ∷ ts) p chosen = each_row (λ rec. select ts p (chosen ++ (rec ∷ []))) t.records

pub each_row_ext :
    (f g : Row → List Row) (rows : List Row)
    → ((rec : Row) → f rec ≡ g rec)
    → each_row f rows ≡ each_row g rows
each_row_ext f g [] h = refl
each_row_ext f g (rec ∷ rows) h = rw (h rec, each_row_ext f g rows h) refl

pub each_row_nil :
    (f : Row → List Row) (rows : List Row) → ((rec : Row) → f rec ≡ []) → each_row f rows ≡ []
each_row_nil f [] h = refl
each_row_nil f (rec ∷ rows) h = rw (h rec) (each_row_nil f rows h)

-- Records that give nothing may be left out.
pub each_row-filter_by :
    (f : Row → List Row) (p : Row → Bool) (rows : List Row)
    → ((rec : Row) → p rec ≡ false → f rec ≡ [])
    → each_row f (filter_by p rows) ≡ each_row f rows
unfolding filter_by
each_row-filter_by f p [] h = refl
each_row-filter_by f p (rec ∷ rows) h = elim (Bool-cases (p rec)) [
  | inl keep ↦ rw keep (ap (◌++◌ (f rec)) (each_row-filter_by f p rows h))
  | inr drop' ↦ rw (drop', h rec drop') (each_row-filter_by f p rows h)
]

pub each_row_self : (rows : List Row) → each_row (λ rec. rec ∷ []) rows ≡ rows
each_row_self [] = refl
each_row_self (rec ∷ rows) = ap (◌∷◌ rec) (each_row_self rows)

pub select_ext :
    (ts : List Table) (p q : Tuple → Bool) (chosen : Tuple)
    → ((u : Tuple) → p (chosen ++ u) ≡ q (chosen ++ u))
    → select ts p chosen ≡ select ts q chosen
select_ext [] p q chosen h = rw (rw append-nil at (h [])) refl
select_ext (t ∷ ts) p q chosen h =
    each_row_ext _ _ t.records
      λ rec. select_ext ts p q (chosen ++ (rec ∷ [])) λ u. rw append_assoc (h (rec ∷ u))

pub select_nil :
    (ts : List Table) (p : Tuple → Bool) (chosen : Tuple)
    → ((u : Tuple) → p (chosen ++ u) ≡ false)
    → select ts p chosen ≡ []
select_nil [] p chosen h = rw (rw append-nil at (h [])) refl
select_nil (t ∷ ts) p chosen h =
    each_row_nil _ t.records
      λ rec. select_nil ts p (chosen ++ (rec ∷ [])) λ u. rw append_assoc (h (rec ∷ u))
