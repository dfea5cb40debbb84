-- ===== src/Query/Walk.antt =====
-- msidb/query.go: the windows of records that are scanned, and the walk over their combinations.
use go_msi.Prelude.{
  ℕ, suc, ◌+◌, ◌-◌, ◌==◌, if◌then◌else◌, Bool, true, false, List, [], ◌∷◌, ◌++◌, Option, none, some,
  length, get_or, set, take, drop, replicate,
}
use go_msi.Prelude.Int.{ℤ, ltb_ℤ}
use go_msi.Search.{first_index}
use go_msi.Table.{Table, Row, no_row, cell_at, col_at}
use go_msi.Query.{Tuple, ordinal, Scan, Query, leb_ℤ}

-- query.window, as the records in it.
abbrev pub key_ordinal : Table → Row → ℤ
key_ordinal t rec = let c = get_or t.keys 0 0 in ordinal (col_at t c) (cell_at rec c)

abbrev pub window_start : Table → ℤ → ℕ
window_start t want =
    first_index (length t.records) (λ i. leb_ℤ want (key_ordinal t (get_or t.records i no_row)))

unfoldable pub window : Table → Scan → Tuple → ℕ × ℕ
unfolding first_index
window t s tuple = elim s.seek [
  | none ↦ (0, length t.records)
  | some seek ↦
      let want = seek tuple in
      let lo = window_start t want in
      let count =
        first_index (length t.records - lo)
          (λ i. ltb_ℤ want (key_ordinal t (get_or t.records (lo + i) no_row))) in
      (lo, lo + count)
]

-- `records[lo:hi]`
abbrev pub slice : ℕ × ℕ → List Row → List Row
slice (lo, hi) rows = take (hi - lo) (drop lo rows)

-- `match != nil && !match(tuple)`, negated.
abbrev pub accepts : Option (Tuple → Bool) → Tuple → Bool
accepts none tuple = true
accepts (some match) tuple = match tuple

-- A tuple and the records gathered: the slices that walk writes to.
abbrev pub Walked : Type 0
Walked = Tuple × List Row

-- The loop of `walk` over a level's records; `down` is its last branch.
unfoldable pub walk_rows :
    ℕ → Option (Tuple → Bool) → (Tuple → List Row → Walked) → List Row → Tuple → List Row → Walked
walk_rows level match down [] tuple buf = (tuple, buf)
walk_rows level match down (rec ∷ rows) tuple buf =
    let chosen = set tuple level rec in
    let (next, more) = if accepts match chosen then down chosen buf else (chosen, buf) in
    walk_rows level match down rows next more

-- `if level+1 < len(tuple)`, by the tables left.
abbrev pub below : List Table → (Tuple → List Row → Walked) → Tuple → List Row → Walked
below [] deeper tuple buf = (tuple, buf ++ tuple)
below (t ∷ ts) deeper tuple buf = deeper tuple buf

-- `match == nil && len(tuple) == 1`
abbrev pub takes_all : Option (Tuple → Bool) → Tuple → Bool
takes_all none tuple = length tuple == 1
takes_all (some match) tuple = false

-- `walk`, with the tables and the scans from `level` on. There is a scan for every table.
unfoldable pub walk : List Table → List Scan → ℕ → Tuple → List Row → Walked
unfolding window walk_rows
walk [] ss level tuple buf = (tuple, buf)
walk (t ∷ ts) [] level tuple buf = (tuple, buf)
walk (t ∷ ts) (s ∷ ss) level tuple buf =
    let rows = slice (window t s tuple) t.records in
    let deeper = below ts (walk ts ss (suc level)) in
    if takes_all s.match tuple
    then (tuple, buf ++ rows)
    else walk_rows level s.match deeper rows tuple buf

unfoldable pub gather : Query → List Row
unfolding walk
gather q = (walk q.tables q.scans 0 (replicate (length q.tables) no_row) []).1
