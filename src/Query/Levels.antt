-- ===== src/Query/Levels.antt =====
-- One level of the walk of msidb/query.go: what it leaves of the tuple, and what it gathers.
use go_msi.Prelude.{
  ℕ, zero, suc, ◌-◌, ◌<◌, ◌≡◌, refl, ap, sym, ◌∙◌, ◌&&◌, inl, inr, Bool, true, Bool-cases,
  Option-cases, List, [], ◌∷◌, ◌++◌, append-nil, append_assoc, length, length-append, length-set,
  get_or, take, set, Option, some, arith, if◌then◌else◌,
}
use go_msi.Prelude.Int.{ℤ}
use go_msi.Table.{Table, Row, no_row}
use go_msi.Query.{Tuple, Scan, eq_ℤ}
use go_msi.Query.Walk.{key_ordinal, window, slice, accepts, Walked, walk_rows}
use go_msi.Query.Select.{each_row, select, each_row_ext, each_row-filter_by, select_ext, select_nil}
use go_msi.Query.Window.{Ordered, window_filter}

-- Every scan accepts the tuple.
abbrev pub all_accept : List Scan → Tuple → Bool
all_accept [] tuple = true
all_accept (s ∷ ss) tuple = accepts s.match tuple && all_accept ss tuple

-- A seek reads only the tables before its own, and what the scan accepts has the sought key.
pub record Sound (n : ℕ) (t : Table) (s : Scan) (f : Tuple → ℤ) : Type 0 where
  pub early : (u v : Tuple) → take n u ≡ take n v → f u ≡ f v
  pub found :
      (u : Tuple) → accepts s.match u ≡ true → eq_ℤ (key_ordinal t (get_or u n no_row)) (f u) ≡ true
  pub ordered : Ordered t

-- The scan of the n-th table: its match reads no table behind it.
pub record Honest (n : ℕ) (t : Table) (s : Scan) : Type 0 where
  pub local :
      (u v : Tuple) → take (suc n) u ≡ take (suc n) v → accepts s.match u ≡ accepts s.match v
  pub sound : (f : Tuple → ℤ) → s.seek ≡ some f → Sound n t s f

abbrev pub AllHonest : ℕ → List Table → List Scan → Type 0
AllHonest n [] [] = Unit {0}
AllHonest n [] (s ∷ ss) = ⊥
AllHonest n (t ∷ ts) [] = ⊥
AllHonest n (t ∷ ts) (s ∷ ss) = Honest n t s × AllHonest (suc n) ts ss

-- What a walk leaves: the tuple as it was before `n`, and the records that it gathered.
pub record Leaves (n : ℕ) (chosen : Tuple) (size : ℕ) (rows : List Row) (r : Walked) : Type 0 where
  pub front : take n r.0 ≡ chosen
  pub sized : length r.0 ≡ size
  pub gathered : r.1 ≡ rows

pub resized :
    {a b : ℕ} (n : ℕ) (chosen : Tuple) (rows : List Row) (r : Walked)
    → Leaves n chosen a rows r
    → a ≡ b
    → Leaves n chosen b rows r
resized n chosen rows r l e = record { front = l.front; sized = l.sized ∙ e; gathered = l.gathered }

take_set :
    (n : ℕ) (u : Tuple) (rec : Row)
    → n < length u
    → take (suc n) (set u n rec) ≡ take n u ++ (rec ∷ [])
take_set n [] rec h = absurd (omega arith)
take_set zero (x ∷ u) rec h = refl
take_set (suc n) (x ∷ u) rec h = ap (◌∷◌ x) (take_set n u rec (omega arith))

take-take : (n : ℕ) (u : Tuple) → take n (take (suc n) u) ≡ take n u
take-take zero u = refl
take-take (suc n) [] = refl
take-take (suc n) (x ∷ u) = ap (◌∷◌ x) (take-take n u)

take_front : (n : ℕ) (chosen u : Tuple) → length chosen ≡ n → take n (chosen ++ u) ≡ chosen
take_front zero [] u h = refl
take_front zero (x ∷ chosen) u h = absurd (omega arith)
take_front (suc n) [] u h = absurd (omega arith)
take_front (suc n) (x ∷ chosen) u h = ap (◌∷◌ x) (take_front n chosen u (omega arith))

pub get_or_end :
    (n : ℕ) (u : Tuple) (rec : Row) → length u ≡ n → get_or (u ++ (rec ∷ [])) n no_row ≡ rec
get_or_end zero [] rec h = refl
get_or_end zero (x ∷ u) rec h = absurd (omega arith)
get_or_end (suc n) [] rec h = absurd (omega arith)
get_or_end (suc n) (x ∷ u) rec h = get_or_end n u rec (omega arith)

pub take_whole : (n : ℕ) (u : Tuple) → length u ≡ n → take n u ≡ u
take_whole n u h = ap (take n) (sym (append-nil u)) ∙ take_front n u [] h

slice_all : (rows : List Row) → slice (0, length rows) rows ≡ rows
slice_all rows =
    let e : length rows - 0 ≡ length rows = omega arith in
    ap (λ k. take k rows) e ∙ take_whole (length rows) rows refl

module _ (n size : ℕ) (match : Option (Tuple → Bool)) (down : Tuple → List Row → Walked)
    (a : Row → Bool) (g : Row → List Row) (chosen : Tuple) (depth : length chosen ≡ n)
    (inside : n < size)
    (accept : (rec : Row) (u : Tuple)
      → take (suc n) u ≡ chosen ++ (rec ∷ [])
      → accepts match u ≡ a rec)
    (descend : (rec : Row) (u : Tuple) (buf : List Row)
      → take (suc n) u ≡ chosen ++ (rec ∷ [])
      → length u ≡ size
      → Leaves (suc n) (chosen ++ (rec ∷ [])) size (buf ++ g rec) (down u buf)) where
  abbrev pub taken : Row → List Row
  taken rec = if a rec then g rec else []

  -- The loop over a level's records, when what lies below does its part.
  pub walk_rows-Leaves :
      (rows : List Row) (tuple : Tuple) (buf : List Row)
      → take n tuple ≡ chosen
      → length tuple ≡ size
      → Leaves n chosen size (buf ++ each_row taken rows) (walk_rows n match down rows tuple buf)
  unfolding walk_rows
  walk_rows-Leaves [] tuple buf front sized = record {
    front = front;
    sized = sized;
    gathered = sym (append-nil buf);
  }
  walk_rows-Leaves (rec ∷ rows) tuple buf front sized =
      let c = set tuple n rec in
      let tc : take (suc n) c ≡ chosen ++ (rec ∷ []) =
        take_set n tuple rec (omega arith) ∙ ap (λ u. u ++ (rec ∷ [])) front in
      let lc : length c ≡ size = length-set tuple n rec ∙ sized in
      let back = λ (u : Tuple) (h : take (suc n) u ≡ chosen ++ (rec ∷ [])).
        sym (take-take n u) ∙ ap (take n) h ∙ take_front n chosen (rec ∷ []) depth in
      elim (Bool-cases (a rec)) [
        | inr out ↦ rw (accept rec c tc ∙ out, out) (walk_rows-Leaves rows c buf (back c tc) lc)
        | inl hit ↦
            let d = descend rec c buf tc lc in
            let rest =
              walk_rows-Leaves rows (down c buf).0 (down c buf).1 (back _ d.front) d.sized in
            rw (accept rec c tc ∙ hit, hit)
              (record {
                front = rest.front;
                sized = rest.sized;
                gathered = rest.gathered ∙ rw d.gathered (append_assoc buf (g rec) _);
              })
      ]

module _ (n : ℕ) (t : Table) (s : Scan) (honest : Honest n t s) (chosen : Tuple)
    (depth : length chosen ≡ n) where
  abbrev pub with_row : Row → Tuple
  with_row rec = chosen ++ (rec ∷ [])

  pub with_row_size : (rec : Row) → length (with_row rec) ≡ suc n
  with_row_size rec = omega (arith, length-append chosen (rec ∷ []), depth)

  -- What the scan accepts is settled by the record of its table.
  pub accepts_settled :
      (rec : Row) (u : Tuple)
      → take (suc n) u ≡ with_row rec
      → accepts s.match u ≡ accepts s.match (with_row rec)
  accepts_settled rec u h =
      honest.local u (with_row rec) (h ∙ sym (take_whole (suc n) _ (with_row_size rec)))

  accepts_append :
      (rec : Row) (u : Tuple) → accepts s.match (with_row rec ++ u) ≡ accepts s.match (with_row rec)
  accepts_append rec u =
      accepts_settled rec (with_row rec ++ u) (take_front (suc n) _ u (with_row_size rec))

  get_or_last : (rec : Row) → get_or (with_row rec) n no_row ≡ rec
  get_or_last rec = get_or_end n chosen rec depth

  abbrev pub found_row : List Table → List Scan → Row → List Row
  found_row ts ss rec =
      if accepts s.match (with_row rec) then select ts (all_accept ss) (with_row rec) else []

  -- One level of the nested loops, with its own match taken out.
  pub each_row-select :
      (ts : List Table) (ss : List Scan)
      → each_row (found_row ts ss) t.records ≡ select (t ∷ ts) (all_accept (s ∷ ss)) chosen
  each_row-select ts ss = each_row_ext _ _ t.records λ rec.
      elim (Bool-cases (accepts s.match (with_row rec))) [
        | inl hit ↦
            rw hit (select_ext ts _ _ (with_row rec) λ u. rw (accepts_append rec u ∙ hit) refl)
        | inr out ↦
            rw out (sym (select_nil ts _ (with_row rec) λ u. rw (accepts_append rec u ∙ out) refl))
      ]

  -- The records outside of the window are accepted by no match.
  pub window_enough :
      (ts : List Table) (ss : List Scan) (tuple : Tuple)
      → take n tuple ≡ chosen
      → each_row (found_row ts ss) (slice (window t s tuple) t.records)
        ≡ each_row (found_row ts ss) t.records
  unfolding window
  window_enough ts ss tuple front = elim (Option-cases s.seek) [
    | inl all ↦ ap (each_row (found_row ts ss)) (rw all (slice_all t.records))
    | inr (f, seeks) ↦
        rw (window_filter t (honest.sound f seeks).ordered (f tuple) s f tuple seeks refl) (
          each_row-filter_by _ _ t.records λ rec low.
            elim (Bool-cases (accepts s.match (with_row rec))) [
              | inr out ↦ rw out refl
              | inl hit ↦
                  let sound = honest.sound f seeks in
                  let same : f (with_row rec) ≡ f tuple =
                    sound.early _ _ (take_front n chosen (rec ∷ []) depth ∙ sym front) in
                  let key = rw (get_or_last rec, same) at (sound.found (with_row rec) hit) in
                  absurd (ground (arith, low, key))
            ])
  ]
