-- ===== src/Search.antt =====
-- sort.Search and slices.BinarySearchFunc of Go's library, which msidb/table.go and
-- msidb/query.go look records up with.
pub mod Split
use go_msi.Prelude.{
  ℕ, zero, suc, ◌+◌, ◌-◌, ◌/◌, ◌≡◌, ◌≢◌, Bool, true, false, ltb, if◌then◌else◌, List, get_elem?,
  length, Option, none, some,
}

-- The loop of both: `i, j := 0, n; for i < j`. Its fuel is the distance of the bounds.
unfoldable pub search_loop : ℕ → (ℕ → Bool) → ℕ → ℕ → ℕ
search_loop zero f i j = i
search_loop (suc fuel) f i j =
    let h = (i + j) / 2 in
    let up = search_loop fuel f (h + 1) j in
    let down = search_loop fuel f i h in if ltb i j then (if f h then down else up) else i

-- sort.Search: the first index below n at which f holds, or n.
unfoldable pub first_index : ℕ → (ℕ → Bool) → ℕ
unfolding search_loop
first_index n f = search_loop n f 0 n
