-- ===== src/Table/Insert.antt =====
-- The insertion of a record where find of msidb/table.go tells, as execInsert of msidb/dml.go does it.
use go_msi.Prelude.{
  ℕ, zero, suc, ◌≤◌, ◌<◌, ◌≡◌, refl, ap, ◌∙◌, ◌⊎◌, inl, inr, false, List, [], ◌∷◌, get_or, length,
  take, drop, ◌++◌, arith,
}
use mathlib.Core.Path.{subst}
use go_msi.Table.{Table, find, Row, no_row, before, compare_keys, insert_at}
use go_msi.Table.Keys.{turned, compare_keys-turned}
use go_msi.Table.Find.{
  IsSorted, Increasing, Placed, IsSorted-Increasing, Increasing-IsSorted, find-Placed,
}

-- The records of a table with one more.
insert_below :
    (i k : ℕ) (rec : Row) (rows : List Row)
    → k < i
    → i ≤ length rows
    → get_or (insert_at i rec rows) k no_row ≡ get_or rows k no_row
unfolding insert_at
insert_below zero k rec rows h fits = elim h [ ]
insert_below (suc i) k rec [] h fits = absurd (omega arith)
insert_below (suc i) zero rec (r ∷ rows) h fits = refl
insert_below (suc i) (suc k) rec (r ∷ rows) h fits =
    insert_below i k rec rows (omega arith) (omega arith)

insert_here :
    (i : ℕ) (rec : Row) (rows : List Row)
    → i ≤ length rows
    → get_or (insert_at i rec rows) i no_row ≡ rec
unfolding insert_at
insert_here zero rec rows fits = refl
insert_here (suc i) rec [] fits = absurd (omega arith)
insert_here (suc i) rec (r ∷ rows) fits = insert_here i rec rows (omega arith)

insert_above :
    (i k : ℕ) (rec : Row) (rows : List Row)
    → i ≤ k
    → i ≤ length rows
    → get_or (insert_at i rec rows) (suc k) no_row ≡ get_or rows k no_row
unfolding insert_at
insert_above zero k rec rows h fits = refl
insert_above (suc i) k rec [] h fits = absurd (omega arith)
insert_above (suc i) zero rec (r ∷ rows) h fits = absurd (omega arith)
insert_above (suc i) (suc k) rec (r ∷ rows) h fits =
    insert_above i k rec rows (omega arith) (omega arith)

length-insert_at :
    (i : ℕ) (rec : Row) (rows : List Row)
    → i ≤ length rows
    → length (insert_at i rec rows) ≡ suc (length rows)
unfolding insert_at
length-insert_at zero rec rows fits = refl
length-insert_at (suc i) rec [] fits = absurd (omega arith)
length-insert_at (suc i) rec (r ∷ rows) fits = ap suc (length-insert_at i rec rows (omega arith))

compare_cases : (a b : ℕ) → (a < b) ⊎ (a ≡ b) ⊎ (b < a)
compare_cases a b = ground arith

-- A record is inserted before those that it comes before, and behind the others.
module _ (ks : List ℕ) (rows : List Row) (rec : Row) (i : ℕ) (sorted : Increasing ks rows)
    (found : Placed ks rows rec (i, false)) where
  abbrev longer : ℕ → Row
  longer k = get_or (insert_at i rec rows) k no_row

  two :
      (a b : ℕ) {x y : Row}
      → longer a ≡ x
      → longer b ≡ y
      → compare_keys ks x y ≡ before
      → compare_keys ks (longer a) (longer b) ≡ before
  two a b p q h = rw (p, q) h

  at_rec : (k : ℕ) → k ≡ i → longer k ≡ rec
  at_rec k e = ap longer e ∙ insert_here i rec rows found.0

  above_both :
      (a b : ℕ)
      → i < a
      → a < suc b
      → b < length rows
      → compare_keys ks (longer a) (longer (suc b)) ≡ before
  above_both zero b u lt h = absurd (omega arith)
  above_both (suc a) b u lt h =
      two (suc a) (suc b) (insert_above i a rec rows (omega arith) found.0)
        (insert_above i b rec rows (omega arith) found.0) (sorted a b (omega arith) h)

  below_one :
      (a b : ℕ)
      → a < i
      → a < suc b
      → b < length rows
      → compare_keys ks (longer a) (longer (suc b)) ≡ before
  below_one a b u lt h =
      let first = insert_below i a rec rows u found.0 in
      elim (compare_cases (suc b) i) [
        | inl both ↦
            two a (suc b) first (insert_below i (suc b) rec rows both found.0)
              (sorted a (suc b) lt (omega (arith, found.0)))
        | inr (inl here) ↦ two a (suc b) first (at_rec (suc b) here) (found.1 a u)
        | inr (inr above) ↦
            two a (suc b) first (insert_above i b rec rows (omega arith) found.0)
              (sorted a b (omega arith) h)
      ]

  ordered :
      (a b : ℕ) → a < b → b < suc (length rows) → compare_keys ks (longer a) (longer b) ≡ before
  ordered a zero lt h = absurd (omega arith)
  ordered a (suc b) lt h = elim (compare_cases a i) [
    | inl below ↦ below_one a b below lt (omega arith)
    | inr (inl here) ↦
        two a (suc b) (at_rec a here) (insert_above i b rec rows (omega arith) found.0) (
          compare_keys-turned ks (get_or rows b no_row) rec
          ∙ ap turned (found.2 b (omega arith) (omega arith)))
    | inr (inr above) ↦ above_both a b above lt (omega arith)
  ]

  insert_at-Increasing : Increasing ks (insert_at i rec rows)
  insert_at-Increasing a b lt h = ordered a b lt (rw (length-insert_at i rec rows found.0) at h)

insert_at_eq :
    (i : ℕ) (rec : Row) (rows : List Row)
    → i ≤ length rows
    → insert_at i rec rows ≡ take i rows ++ (rec ∷ drop i rows)
unfolding insert_at
insert_at_eq zero rec rows h = refl
insert_at_eq (suc i) rec [] h = absurd (omega arith)
insert_at_eq (suc i) rec (r ∷ rows) h = ap (◌∷◌ r) (insert_at_eq i rec rows (omega arith))

-- A record whose key find does not find among records in the order of their keys, inserted where find
-- tells, stands between the records before that index and those from it on, all of which stay, and
-- the records are in the order of their keys again, no two with one key.
pub insert_at-find :
    (t : Table) (rec : Row) (i : ℕ)
    → IsSorted t.keys t.records
    → find t rec ≡ (i, false)
    → (insert_at i rec t.records ≡ take i t.records ++ (rec ∷ drop i t.records))
      × IsSorted t.keys (insert_at i rec t.records)
insert_at-find t rec i sorted e =
    let found = subst (Placed t.keys t.records rec) e (find-Placed t rec sorted) in
    (
      insert_at_eq i rec t.records found.0,
      Increasing-IsSorted t.keys (insert_at i rec t.records) (
          insert_at-Increasing t.keys t.records rec i (IsSorted-Increasing t.keys t.records sorted)
            found),
    )
