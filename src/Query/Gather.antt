-- ===== src/Query/Gather.antt =====
-- gather of msidb/query.go: with its windows and with its matches at the deepest table that they
-- read, it takes the combinations at which every match holds.
use go_msi.Prelude.{
  ℕ, suc, ◌+◌, ◌≡◌, ◌≢◌, refl, ap, sym, ◌∙◌, inl, inr, Bool, true, Bool-cases, List, [], ◌∷◌, ◌++◌,
  length, replicate, length-replicate, take, Option, none, some, arith, if◌then◌else◌,
}
use go_msi.Table.{Table, Row, no_row}
use go_msi.Query.{Tuple, Scan, Query}
use go_msi.Query.Walk.{window, slice, accepts, Walked, walk_rows, below, takes_all, walk, gather}
use go_msi.Query.Select.{each_row, select, each_row_ext, each_row_self}
use go_msi.Query.Levels.{
  all_accept, Honest, AllHonest, Leaves, resized, take_whole, walk_rows-Leaves, found_row,
  window_enough, each_row-select, accepts_settled, with_row_size,
}

-- Below the last table the tuple is complete.
last_Leaves :
    (n : ℕ) (ss : List Scan) (full u : Tuple) (buf : List Row)
    → AllHonest n [] ss
    → take n u ≡ full
    → length u ≡ n
    → Leaves n full n (buf ++ select [] (all_accept ss) full) (u, buf ++ u)
last_Leaves n [] full u buf honest front sized = record {
  front = front;
  sized = sized;
  gathered = ap (◌++◌ buf) (sym (take_whole n u sized) ∙ front);
}
last_Leaves n (s ∷ ss) full u buf honest front sized = elim honest [ ]

module _ (n : ℕ) (t : Table) (s : Scan) (honest : Honest n t s) (chosen : Tuple)
    (depth : length chosen ≡ n) (ts : List Table) (ss : List Scan) (tuple : Tuple) (buf : List Row)
    (front : take n tuple ≡ chosen) (sized : length tuple ≡ n + suc (length ts)) where
  scanned :
      each_row (found_row n t s honest chosen depth ts ss) (slice (window t s tuple) t.records)
      ≡ select (t ∷ ts) (all_accept (s ∷ ss)) chosen
  scanned =
      window_enough n t s honest chosen depth ts ss tuple front
      ∙ each_row-select n t s honest chosen depth ts ss

  -- A level that is walked record by record.
  level_Leaves :
      (down : Tuple → List Row → Walked)
      → ((rec : Row) (u : Tuple) (b : List Row)
          → take (suc n) u ≡ chosen ++ (rec ∷ [])
          → length u ≡ n + suc (length ts)
          → Leaves
              (suc n)
              (chosen ++ (rec ∷ []))
              (n + suc (length ts))
              (b ++ select ts (all_accept ss) (chosen ++ (rec ∷ [])))
              (down u b))
      → Leaves n chosen
          (n + suc (length ts))
          (buf ++ select (t ∷ ts) (all_accept (s ∷ ss)) chosen)
          (walk_rows n s.match down (slice (window t s tuple) t.records) tuple buf)
  level_Leaves down descend =
      let r =
        walk_rows-Leaves n (n + suc (length ts)) s.match down
          (λ rec. accepts s.match (chosen ++ (rec ∷ [])))
          (λ rec. select ts (all_accept ss) (chosen ++ (rec ∷ []))) chosen depth (omega arith)
          (accepts_settled n t s honest chosen depth) descend (slice (window t s tuple) t.records)
          tuple buf front sized in
      record { front = r.front; sized = r.sized; gathered = r.gathered ∙ ap (◌++◌ buf) scanned }

found_row_self :
    (match : Option (Tuple → Bool)) (tuple chosen : Tuple) (rec : Row)
    → takes_all match tuple ≡ true
    → length chosen ≡ 0
    → (if accepts match (chosen ++ (rec ∷ [])) then (chosen ++ (rec ∷ [])) else []) ≡ rec ∷ []
found_row_self none tuple [] rec all h = refl
found_row_self none tuple (x ∷ u) rec all h = absurd (omega arith)
found_row_self (some m) tuple chosen rec all h = cc

takes_all_size :
    (match : Option (Tuple → Bool)) (tuple : Tuple)
    → takes_all match tuple ≡ true
    → length tuple ≡ 1
takes_all_size none tuple h = ground (arith, h)
takes_all_size (some m) tuple h = cc

-- A walk from the n-th table on gathers what the nested loops select.
walk-Leaves :
    (ts : List Table) (t : Table) (ss : List Scan) (n : ℕ) (chosen tuple : Tuple) (buf : List Row)
    → AllHonest n (t ∷ ts) ss
    → length chosen ≡ n
    → take n tuple ≡ chosen
    → length tuple ≡ n + suc (length ts)
    → Leaves n chosen
        (n + suc (length ts))
        (buf ++ select (t ∷ ts) (all_accept ss) chosen)
        (walk (t ∷ ts) ss n tuple buf)
unfolding walk
walk-Leaves ts t [] n chosen tuple buf honest depth front sized = elim honest [ ]
walk-Leaves [] t (s ∷ []) n chosen tuple buf (honest, end) depth front sized =
    elim (Bool-cases (takes_all s.match tuple)) [
      | inl all ↦
          let one = takes_all_size s.match tuple all in
          let whole : each_row (found_row n t s honest chosen depth [] [])
                (slice (window t s tuple) t.records)
              ≡ slice (window t s tuple) t.records =
            each_row_ext _ _ (slice (window t s tuple) t.records)
              (λ rec. found_row_self s.match tuple chosen rec all (omega arith))
            ∙ each_row_self _ in
          rw all (record {
            front = front;
            sized = sized;
            gathered =
                ap (◌++◌ buf)
                  (sym whole ∙ scanned n t s honest chosen depth [] [] tuple buf front sized);
          })
      | inr each ↦ rw each (
          level_Leaves n t s honest chosen depth [] [] tuple buf front sized
            (below [] (walk [] [] (suc n)))
            (λ rec u b h size.
              resized _ _ _ _
                (last_Leaves (suc n) [] (chosen ++ (rec ∷ [])) u b end h (omega arith))
                (omega arith)))
    ]
walk-Leaves [] t (s ∷ s' ∷ ss) n chosen tuple buf (honest, end) depth front sized = elim end [ ]
walk-Leaves (t' ∷ ts) t (s ∷ ss) n chosen tuple buf (honest, rest) depth front sized =
    elim (Bool-cases (takes_all s.match tuple)) [
      | inl all ↦ absurd (omega (arith, takes_all_size s.match tuple all))
      | inr each ↦ rw each (
          level_Leaves n t s honest chosen depth (t' ∷ ts) ss tuple buf front sized
            (below (t' ∷ ts) (walk (t' ∷ ts) ss (suc n)))
            (λ rec u b h size.
              resized _ _ _ _
                (walk-Leaves ts t' ss (suc n) (chosen ++ (rec ∷ [])) u b rest
                  (with_row_size n t s honest chosen depth rec) h (omega arith))
                (omega arith)))
    ]

-- With honest scans, gather takes the combinations of records at which every match holds, each
-- once, in the order of the nested loops.
pub gather-select :
    (q : Query)
    → q.tables ≢ []
    → AllHonest 0 q.tables q.scans
    → gather q ≡ select q.tables (all_accept q.scans) []
unfolding gather
gather-select q some' honest = by_tables q.tables q.scans some' honest
  where
    by_tables :
        (ts : List Table) (ss : List Scan)
        → ts ≢ []
        → AllHonest 0 ts ss
        → (walk ts ss 0 (replicate (length ts) no_row) []).1 ≡ select ts (all_accept ss) []
    by_tables [] ss h k = absurd (h refl)
    by_tables (t ∷ ts) ss h k =
        let r =
          walk-Leaves ts t ss 0 [] (replicate (suc (length ts)) no_row) [] k refl refl
            (omega (arith, length-replicate (suc (length ts)) no_row)) in
        r.gathered
