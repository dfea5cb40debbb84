-- ===== src/Dml/Order.antt =====
-- execSelect in msidb/dml.go: the rows after ORDER BY and DISTINCT.
use go_msi.Prelude.{
  ◌&&◌, ◌≡◌, ◌⊎◌, inr, ap, sym, ◌∙◌, Bool, true, false, List, [], ◌∷◌, take, refl, arith,
}
use go_msi.Prelude.Lex.{SameAt, LexLess}
use go_msi.Prelude.Text.{eq_str}
use go_msi.Search.Split.{filter_by}
use go_msi.Query.{Tuple, BoundCol, raw_of}
use go_msi.Dml.{less, ordered_by, arrange, distinct, project}
use go_msi.Dml.Sort.{NoneLess, InOrder, alike, sort_tuples-InOrder, sort_tuples-alike}
use go_msi.Dml.Distinct.{shows, distinct-InOrder, distinct-shows}

no_keys-NoneLess : (x : Tuple) (xs : List Tuple) → NoneLess [] x xs
unfolding less
no_keys-NoneLess x [] = tt
no_keys-NoneLess x (y ∷ ys) = (refl, no_keys-NoneLess x ys)

no_keys-InOrder : (xs : List Tuple) → InOrder [] xs
no_keys-InOrder [] = tt
no_keys-InOrder (x ∷ xs) = (no_keys-NoneLess x xs, no_keys-InOrder xs)

ordered_by-InOrder : (order : List BoundCol) (xs : List Tuple) → InOrder order (ordered_by order xs)
unfolding ordered_by
ordered_by-InOrder [] xs = no_keys-InOrder xs
ordered_by-InOrder (k ∷ ks) xs = sort_tuples-InOrder (k ∷ ks) xs

ordered_by-alike :
    (order : List BoundCol) (k : Tuple) (xs : List Tuple)
    → filter_by (alike order k) (ordered_by order xs) ≡ filter_by (alike order k) xs
unfolding ordered_by
ordered_by-alike [] k xs = refl
ordered_by-alike (c ∷ cs) k xs = sort_tuples-alike (c ∷ cs) k xs

-- A row stands before another where, at the first column that differs, it has the lesser cell, and
-- rows with the same cells stand in either order.
abbrev pub AtMost : List BoundCol → Tuple → Tuple → Type 0
AtMost ks x y =
    LexLess (λ k. raw_of k x) (λ k. raw_of k y) ks ⊎ SameAt (λ k. raw_of k x) (λ k. raw_of k y) ks

abbrev pub AllAtMost : List BoundCol → Tuple → List Tuple → Type 0
AllAtMost ks x [] = Unit {0}
AllAtMost ks x (y ∷ ys) = AtMost ks x y × AllAtMost ks x ys

abbrev pub Ascends : List BoundCol → List Tuple → Type 0
Ascends ks [] = Unit {0}
Ascends ks (x ∷ xs) = AllAtMost ks x xs × Ascends ks xs

less-AtMost : (ks : List BoundCol) (x y : Tuple) → less ks y x ≡ false → AtMost ks x y
unfolding less
less-AtMost [] x y h = inr tt
less-AtMost (k ∷ ks) x y h = ground (arith, h, less-AtMost ks x y)

NoneLess-AllAtMost :
    (ks : List BoundCol) (x : Tuple) (ys : List Tuple) → NoneLess ks x ys → AllAtMost ks x ys
NoneLess-AllAtMost ks x [] n = tt
NoneLess-AllAtMost ks x (y ∷ ys) (n, ns) = (less-AtMost ks x y n, NoneLess-AllAtMost ks x ys ns)

InOrder-Ascends : (ks : List BoundCol) (xs : List Tuple) → InOrder ks xs → Ascends ks xs
InOrder-Ascends ks [] o = tt
InOrder-Ascends ks (x ∷ xs) (n, o) = (NoneLess-AllAtMost ks x xs n, InOrder-Ascends ks xs o)

-- Without DISTINCT all the rows, and with it the first of those that show the same cells.
abbrev pub Picked : Bool → List BoundCol → List Tuple → List Tuple → Type 0
Picked false res all ys = ys ≡ all
Picked true res all ys =
    (k : Tuple) → filter_by (alike res k) ys ≡ take 1 (filter_by (alike res k) all)

-- The rows `ys` are the rows `xs`, sorted and then picked.
pub record Arranged (order : List BoundCol) (only_once : Bool) (res : List BoundCol)
    (xs ys : List Tuple) : Type 0 where
  pub all : List Tuple
  pub sorted : Ascends order all
  pub stable : (k : Tuple) → filter_by (alike order k) all ≡ filter_by (alike order k) xs
  pub picked : Picked only_once res all ys
  pub ascends : Ascends order ys

project-alike : (res : List BoundCol) (k x : Tuple) → shows res (project res k) x ≡ alike res k x
unfolding project eq_str
project-alike [] k x = refl
project-alike (r ∷ rs) k x = rw (project-alike rs k x) (ap (λ b. b && alike rs k x) (ground arith))

filter_ext :
    (f g : Tuple → Bool) (xs : List Tuple)
    → ((x : Tuple) → f x ≡ g x)
    → filter_by f xs ≡ filter_by g xs
unfolding filter_by
filter_ext f g [] h = refl
filter_ext f g (x ∷ xs) h = rw (h x, filter_ext f g xs h) refl

distinct-Picked : (res : List BoundCol) (xs : List Tuple) → Picked true res xs (distinct res xs)
distinct-Picked res xs k =
    let same = project-alike res k in
    sym (filter_ext _ _ (distinct res xs) same)
    ∙ distinct-shows res (project res k) xs
    ∙ ap (take 1) (filter_ext _ _ xs same)

-- ORDER BY sorts the rows by the cells of its columns, of which the first that differs decides, and
-- keeps the rows that have the same cells in all of them as they were gathered. With DISTINCT the
-- first of the rows that show the same cells in all columns of the result is left of them, and the
-- rows stay sorted.
pub arrange-Arranged :
    (order : List BoundCol) (only_once : Bool) (res : List BoundCol) (xs : List Tuple)
    → Arranged order only_once res xs (arrange order only_once res xs)
unfolding arrange
arrange-Arranged order true res xs = record {
  all = ordered_by order xs;
  sorted = InOrder-Ascends order (ordered_by order xs) (ordered_by-InOrder order xs);
  stable = λ k. ordered_by-alike order k xs;
  picked = distinct-Picked res (ordered_by order xs);
  ascends =
      InOrder-Ascends order (distinct res (ordered_by order xs))
        (distinct-InOrder res order (ordered_by order xs) (ordered_by-InOrder order xs));
}
arrange-Arranged order false res xs = record {
  all = ordered_by order xs;
  sorted = InOrder-Ascends order (ordered_by order xs) (ordered_by-InOrder order xs);
  stable = λ k. ordered_by-alike order k xs;
  picked = refl;
  ascends = InOrder-Ascends order (ordered_by order xs) (ordered_by-InOrder order xs);
}
