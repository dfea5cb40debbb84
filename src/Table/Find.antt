-- ===== src/Table/Find.antt =====
-- find of msidb/table.go on records in the order of their keys.
use go_msi.Prelude.{
  ℕ, ◌&&◌, not, ltb, ◌≤◌, ◌<◌, ◌≡◌, refl, ap, sym, ◌∙◌, inl, inr, Bool, true, false, Bool-cases,
  List, get_or, length, arith,
}
use mathlib.Core.Path.{subst}
use go_msi.Search.Split.{Splits, Rising, first_index-Splits}
use go_msi.Table.{
  Row, no_row, Table, Order, before, same, after, compare_keys, is_before, is_same, find,
}
use go_msi.Table.Keys.{
  turned, compare_keys-turned, compare_keys_same, compare_keys_trans, KeyLess, SameKey,
  before-KeyLess, KeyLess-before, same-SameKey,
}

-- The records stand in the order of their keys, and no two have one key.
abbrev pub IsSorted : List ℕ → List Row → Type 0
IsSorted ks rows =
    (i j : ℕ) → i < j → j < length rows → KeyLess ks (get_or rows i no_row) (get_or rows j no_row)

-- What find tells: where the record with the key is, or where it would stand.
abbrev pub Located : List ℕ → List Row → Row → ℕ × Bool → Type 0
Located ks rows rec (i, true) = (i < length rows) × SameKey ks (get_or rows i no_row) rec
Located ks rows rec (i, false) =
    (i ≤ length rows)
    × ((k : ℕ) → k < i → KeyLess ks (get_or rows k no_row) rec)
    × ((k : ℕ) → i ≤ k → k < length rows → KeyLess ks rec (get_or rows k no_row))

-- The same by the comparison of the code.
abbrev pub Increasing : List ℕ → List Row → Type 0
Increasing ks rows =
    (i j : ℕ)
    → i < j
    → j < length rows
    → compare_keys ks (get_or rows i no_row) (get_or rows j no_row) ≡ before

abbrev pub Placed : List ℕ → List Row → Row → ℕ × Bool → Type 0
Placed ks rows rec (i, true) =
    (i < length rows) × (compare_keys ks (get_or rows i no_row) rec ≡ same)
Placed ks rows rec (i, false) =
    (i ≤ length rows)
    × ((k : ℕ) → k < i → compare_keys ks (get_or rows k no_row) rec ≡ before)
    × ((k : ℕ) → i ≤ k → k < length rows → compare_keys ks (get_or rows k no_row) rec ≡ after)

is_before→eq : (o : Order) → is_before o ≡ true → o ≡ before
is_before→eq before h = refl
is_before→eq same h = cc
is_before→eq after h = cc

is_same→eq : (o : Order) → is_same o ≡ true → o ≡ same
is_same→eq before h = cc
is_same→eq same h = refl
is_same→eq after h = cc

only_after : (o : Order) → is_before o ≡ false → is_same o ≡ false → o ≡ after
only_after before h k = cc
only_after same h k = cc
only_after after h k = refl

module _ (ks : List ℕ) (rows : List Row) (rec : Row) (sorted : Increasing ks rows) where
  abbrev order_at : ℕ → Order
  order_at k = compare_keys ks (get_or rows k no_row) rec

  -- What is not before the record comes before what is behind it.
  not_before_later :
      (a b : ℕ) → a < b → b < length rows → is_before (order_at a) ≡ false → order_at b ≡ after
  not_before_later a b lt fits h =
      compare_keys-turned ks rec (get_or rows b no_row) ∙ ap turned (behind (order_at a) refl h)
    where
      behind :
          (x : Order)
          → order_at a ≡ x
          → is_before x ≡ false
          → compare_keys ks rec (get_or rows b no_row) ≡ before
      behind before e h = cc
      behind same e h =
          sym (compare_keys_same ks (get_or rows a no_row) rec (get_or rows b no_row) e)
          ∙ sorted a b lt fits
      behind after e h =
          compare_keys_trans ks rec (get_or rows a no_row) (get_or rows b no_row)
            (compare_keys-turned ks (get_or rows a no_row) rec ∙ ap turned e) (sorted a b lt fits)

  test-Rising : Rising (λ k. not (is_before (order_at k))) (length rows)
  test-Rising a b h fits e = elim (Bool-cases (ltb a b)) [
    | inl lt ↦
        rw (not_before_later a b (ground (arith, lt)) fits (not_true (is_before (order_at a)) e))
          refl
    | inr no_lt ↦ subst (λ k. not (is_before (order_at k)) ≡ true) {x = a} (ground (arith, no_lt)) e
  ]
    where
      not_true : (b : Bool) → not b ≡ true → b ≡ false
      not_true true h = cc
      not_true false h = refl

  true_of_not : (b : Bool) → not b ≡ false → b ≡ true
  true_of_not true h = refl
  true_of_not false h = cc

  located :
      (i : ℕ)
      → Splits (λ k. not (is_before (order_at k))) (length rows) i
      → Placed ks rows rec (i, ltb i (length rows) && is_same (order_at i))
  located i s = elim (Bool-cases (ltb i (length rows))) [
    | inr end ↦ rw end (
      s.0,
      λ k h. is_before→eq (order_at k) (true_of_not _ (s.1 k h)),
      λ k h j. absurd (ground (arith, end)),
    )
    | inl in_range ↦ elim (Bool-cases (is_same (order_at i))) [
      | inl hit ↦ rw (in_range, hit) (ground (arith, in_range), is_same→eq (order_at i) hit)
      | inr miss ↦
          let here : order_at i ≡ after =
            only_after (order_at i) (ground (arith, s.2 i (omega arith) (ground (arith, in_range))))
              miss in
          rw (in_range, miss)
            (
              s.0,
              λ k h. is_before→eq (order_at k) (true_of_not _ (s.1 k h)),
              λ k h j. elim (Bool-cases (ltb i k)) [
                | inl lt ↦ not_before_later i k (ground (arith, lt)) j (rw here refl)
                | inr no_lt ↦ subst (λ m. order_at m ≡ after) {x = i} (ground (arith, no_lt)) here
              ],
            )
    ]
  ]

pub IsSorted-Increasing : (ks : List ℕ) (rows : List Row) → IsSorted ks rows → Increasing ks rows
IsSorted-Increasing ks rows s i j lt h =
    KeyLess-before ks (get_or rows i no_row) (get_or rows j no_row) (s i j lt h)

pub Increasing-IsSorted : (ks : List ℕ) (rows : List Row) → Increasing ks rows → IsSorted ks rows
Increasing-IsSorted ks rows s i j lt h =
    before-KeyLess ks (get_or rows i no_row) (get_or rows j no_row) (s i j lt h)

Placed-Located :
    (ks : List ℕ) (rows : List Row) (rec : Row) (r : ℕ × Bool)
    → Placed ks rows rec r
    → Located ks rows rec r
Placed-Located ks rows rec (i, true) (lt, e) = (lt, same-SameKey ks (get_or rows i no_row) rec e)
Placed-Located ks rows rec (i, false) (le, low, high) = (
  le,
  λ k h. before-KeyLess ks (get_or rows k no_row) rec (low k h),
  λ k h j.
      before-KeyLess ks rec (get_or rows k no_row)
        (compare_keys-turned ks (get_or rows k no_row) rec ∙ ap turned (high k h j)),
)

pub find-Placed :
    (t : Table) (rec : Row) → IsSorted t.keys t.records → Placed t.keys t.records rec (find t rec)
unfolding find
find-Placed t rec s =
    let sorted = IsSorted-Increasing t.keys t.records s in
    located t.keys t.records rec sorted _
      (first_index-Splits (length t.records) _ (test-Rising t.keys t.records rec sorted))

-- On records in the order of their keys, find tells the index of the record whose cells in all key
-- columns are those of the one sought, or, when there is none, the index that has the records with
-- lesser keys before it and those with greater keys from it on. The first key column that differs
-- decides which key is the lesser.
pub find-Located :
    (t : Table) (rec : Row) → IsSorted t.keys t.records → Located t.keys t.records rec (find t rec)
find-Located t rec s = Placed-Located t.keys t.records rec (find t rec) (find-Placed t rec s)
