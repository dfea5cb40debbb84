-- ===== src/Dml/Sort.antt =====
-- ORDER BY in msidb/dml.go: the tuples are in order, and those that are alike keep theirs.
use go_msi.Prelude.{
  ◌==◌, if◌then◌else◌, ◌≡◌, refl, ap, ◌∙◌, inl, inr, ◌&&◌, Bool, true, false, Bool-cases, List, [],
  ◌∷◌, arith,
}
use go_msi.Search.Split.{filter_by}
use go_msi.Query.{Tuple, BoundCol, raw_of}
use go_msi.Dml.{less, place_tuple, sort_tuples}

-- The tuples have the same cells in the columns.
abbrev pub alike : List BoundCol → Tuple → Tuple → Bool
alike [] a b = true
alike (k ∷ ks) a b = raw_of k a == raw_of k b && alike ks a b

less-alike :
    (ks : List BoundCol) (a b c : Tuple)
    → alike ks a b ≡ true
    → alike ks a c ≡ true
    → less ks c b ≡ false
unfolding less
less-alike [] a b c h j = refl
less-alike (k ∷ ks) a b c h j = ground (arith, h, j, less-alike ks a b c)

less_is_asymmetric : (ks : List BoundCol) (a b : Tuple) → less ks a b ≡ true → less ks b a ≡ false
unfolding less
less_is_asymmetric [] a b h = refl
less_is_asymmetric (k ∷ ks) a b h = ground (arith, h, less_is_asymmetric ks a b)

-- `not less` is the order at most, turned.
not_less_trans :
    (ks : List BoundCol) (a b c : Tuple)
    → less ks b a ≡ false
    → less ks c b ≡ false
    → less ks c a ≡ false
unfolding less
not_less_trans [] a b c h j = refl
not_less_trans (k ∷ ks) a b c h j = ground (arith, h, j, not_less_trans ks a b c)

-- No tuple of the list is less than the one given.
abbrev pub NoneLess : List BoundCol → Tuple → List Tuple → Type 0
NoneLess ks x [] = Unit {0}
NoneLess ks x (y ∷ ys) = (less ks y x ≡ false) × NoneLess ks x ys

abbrev pub InOrder : List BoundCol → List Tuple → Type 0
InOrder ks [] = Unit {0}
InOrder ks (x ∷ xs) = NoneLess ks x xs × InOrder ks xs

NoneLess-trans :
    (ks : List BoundCol) (x y : Tuple) (ys : List Tuple)
    → less ks y x ≡ false
    → NoneLess ks y ys
    → NoneLess ks x ys
NoneLess-trans ks x y [] h n = tt
NoneLess-trans ks x y (z ∷ zs) h (n, ns) =
    (not_less_trans ks x y z h n, NoneLess-trans ks x y zs h ns)

place_tuple-NoneLess :
    (ks : List BoundCol) (x y : Tuple) (ys : List Tuple)
    → less ks x y ≡ false
    → NoneLess ks y ys
    → NoneLess ks y (place_tuple ks x ys)
unfolding place_tuple
place_tuple-NoneLess ks x y [] h n = (h, tt)
place_tuple-NoneLess ks x y (z ∷ zs) h (n, ns) = elim (Bool-cases (less ks z x)) [
  | inl e ↦ rw e (n, place_tuple-NoneLess ks x y zs h ns)
  | inr e ↦ rw e (h, (n, ns))
]

place_tuple-InOrder :
    (ks : List BoundCol) (x : Tuple) (ys : List Tuple)
    → InOrder ks ys
    → InOrder ks (place_tuple ks x ys)
unfolding place_tuple
place_tuple-InOrder ks x [] o = (tt, tt)
place_tuple-InOrder ks x (y ∷ ys) (n, o) = elim (Bool-cases (less ks y x)) [
  | inl e ↦ rw e (
    place_tuple-NoneLess ks x y ys (less_is_asymmetric ks y x e) n,
    place_tuple-InOrder ks x ys o,
  )
  | inr e ↦ rw e ((e, NoneLess-trans ks x y ys e n), (n, o))
]

pub sort_tuples-InOrder : (ks : List BoundCol) (xs : List Tuple) → InOrder ks (sort_tuples ks xs)
unfolding sort_tuples
sort_tuples-InOrder ks [] = tt
sort_tuples-InOrder ks (x ∷ xs) =
    place_tuple-InOrder ks x (sort_tuples ks xs) (sort_tuples-InOrder ks xs)

place_tuple-alike :
    (ks : List BoundCol) (k x : Tuple) (ys : List Tuple)
    → filter_by (alike ks k) (place_tuple ks x ys) ≡ filter_by (alike ks k) (x ∷ ys)
unfolding place_tuple filter_by
place_tuple-alike ks k x [] = refl
place_tuple-alike ks k x (y ∷ ys) = elim (Bool-cases (less ks y x)) [
  | inr e ↦ rw e refl
  | inl e ↦ elim (Bool-cases (alike ks k x)) [
    | inr out ↦
        rw (e, out)
          (ap (λ r. if alike ks k y then y ∷ r else r) (rw out at (place_tuple-alike ks k x ys)))
    | inl hit ↦ elim (Bool-cases (alike ks k y)) [
      | inl both ↦ absurd (ground (arith, e, less-alike ks k x y hit both))
      | inr one ↦ rw (e, hit, one) (rw hit at (place_tuple-alike ks k x ys))
    ]
  ]
]

-- The tuples that are alike in the columns keep their order, and none is lost or made.
pub sort_tuples-alike :
    (ks : List BoundCol) (k : Tuple) (xs : List Tuple)
    → filter_by (alike ks k) (sort_tuples ks xs) ≡ filter_by (alike ks k) xs
unfolding sort_tuples filter_by
sort_tuples-alike ks k [] = refl
sort_tuples-alike ks k (x ∷ xs) =
    place_tuple-alike ks k x (sort_tuples ks xs)
    ∙ ap (λ r. if alike ks k x then x ∷ r else r) (sort_tuples-alike ks k xs)
