-- ===== src/Query/Window.antt =====
-- The window that msidb/query.go scans: the records whose first key has the sought value.
use go_msi.Prelude.{
  ℕ, zero, suc, ◌+◌, ◌-◌, ◌≤◌, ◌<◌, ◌≡◌, refl, ap, ◌∙◌, not, ◌&&◌, Bool, List, [], ◌∷◌, length,
  get_or, take, drop, length-drop, some, arith,
}
use go_msi.Prelude.Int.{ℤ, ◌≤ℤ◌, ltb_ℤ}
use go_msi.Search.Split.{Splits, Rising, first_index-Splits, filter_by, split_filter}
use go_msi.Table.{Table, no_row}
use go_msi.Query.{Tuple, Scan, eq_ℤ, leb_ℤ}
use go_msi.Query.Walk.{key_ordinal, window_start, window, slice}

-- The records stand in the order of their first key.
abbrev pub Ordered : Table → Type 0
Ordered t =
    (i j : ℕ)
    → i ≤ j
    → j < length t.records
    → key_ordinal t (get_or t.records i no_row) ≤ℤ key_ordinal t (get_or t.records j no_row)

get_or-drop {ℓ} :
    {A : Type ℓ} (n i : ℕ) (xs : List A) (d : A) → get_or (drop n xs) i d ≡ get_or xs (n + i) d
get_or-drop zero i xs d = ap (λ k. get_or xs k d) (omega arith)
get_or-drop (suc n) i [] d = refl
get_or-drop (suc n) i (x ∷ xs) d =
    let e : suc (n + i) ≡ suc n + i = omega arith in
    get_or-drop n i xs d ∙ ap (λ k. get_or (x ∷ xs) k d) e

filter_by-filter_by {ℓ} :
    {A : Type ℓ} (p q r : A → Bool) (xs : List A)
    → ((x : A) → (q x && p x) ≡ r x)
    → filter_by p (filter_by q xs) ≡ filter_by r xs
unfolding filter_by
filter_by-filter_by p q r [] h = refl
filter_by-filter_by p q r (x ∷ xs) h = ground (arith, h x, filter_by-filter_by p q r xs h)

take-drop_filter {ℓ} :
    {A : Type ℓ} (d : A) (p : A → Bool) (lo count : ℕ) (xs : List A)
    → Splits (λ i. p (get_or xs (lo + i) d)) (length xs - lo) count
    → take count (drop lo xs) ≡ filter_by (λ x. not (p x)) (drop lo xs)
take-drop_filter d p lo count xs s =
    let parts = split_filter d p (drop lo xs) count (
      omega (arith, length-drop lo xs, s.0),
      λ k h. rw (get_or-drop lo k xs d) (s.1 k h),
      λ k a b. rw (get_or-drop lo k xs d) (s.2 k a (omega (arith, length-drop lo xs))),
    ) in
    parts.0

module _ (t : Table) (ordered : Ordered t) (want : ℤ) where
  start-Rising :
      Rising (λ i. leb_ℤ want (key_ordinal t (get_or t.records i no_row))) (length t.records)
  start-Rising a b h k e = ground (arith, ordered a b h k)

  stop-Rising :
      (lo : ℕ)
      → Rising
          (λ i. ltb_ℤ want (key_ordinal t (get_or t.records (lo + i) no_row)))
          (length t.records - lo)
  stop-Rising lo a b h k e = ground (arith, ordered (lo + a) (lo + b) (omega arith) (omega arith))

  -- The two searches of window, on sorted records.
  window_parts :
      (lo count : ℕ)
      → Splits (λ i. leb_ℤ want (key_ordinal t (get_or t.records i no_row))) (length t.records) lo
      → Splits
          (λ i. ltb_ℤ want (key_ordinal t (get_or t.records (lo + i) no_row)))
          (length t.records - lo)
          count
      → slice (lo, lo + count) t.records
        ≡ filter_by (λ rec. eq_ℤ (key_ordinal t rec) want) t.records
  window_parts lo count start stop =
      ap (λ k. take k (drop lo t.records)) (omega arith)
      ∙ take-drop_filter no_row (λ rec. ltb_ℤ want (key_ordinal t rec)) lo count t.records stop
      ∙ ap (filter_by (λ rec. not (ltb_ℤ want (key_ordinal t rec))))
          (split_filter no_row (λ rec. leb_ℤ want (key_ordinal t rec)) t.records lo start).1
      ∙ filter_by-filter_by _ _ _ t.records (λ rec. ground arith)

  pub window_filter :
      (s : Scan) (f : Tuple → ℤ) (tuple : Tuple)
      → s.seek ≡ some f
      → f tuple ≡ want
      → slice (window t s tuple) t.records
        ≡ filter_by (λ rec. eq_ℤ (key_ordinal t rec) want) t.records
  unfolding window
  window_filter s f tuple seeks e =
      rw (seeks, e)
        (window_parts (window_start t want) _ (first_index-Splits (length t.records) _ start-Rising)
          (first_index-Splits (length t.records - window_start t want) _
            (stop-Rising (window_start t want))))
