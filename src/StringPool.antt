-- ===== src/StringPool.antt =====
-- internal/stringpool/stringpool.go: the pool of the strings that the tables share, with a count of
-- the references from persistent rows and one of those from temporary rows.
pub mod Slots
pub mod Valid
pub mod Keep
pub mod Place
pub mod Interned
pub mod Intern
pub mod Release
pub mod Runs
pub mod Numbers
pub mod Codepages
pub mod Writable
pub mod Refs
use go_msi.Prelude.{
  ℕ, zero, suc, ◌+◌, ◌-◌, ◌%◌, ◌^◌, ◌==◌, ◌||◌, ◌&&◌, not, ltb, if◌then◌else◌, Bool, true, false,
  List, [], ◌∷◌, ◌++◌, Option, none, some, length, get_elem?, set,
}
use go_msi.Prelude.Text.{Str, eq_str}
use go_msi.Prelude.Panics.{◌>>=◌}

abbrev pub max_refcount : ℕ
max_refcount = 0xffff

pub record Entry : Type 0 where
  pub s : Str
  pub persistent : ℕ
  pub nonpersistent : ℕ

-- The map from strings to their numbers is a function. The free numbers stand with the one that was
-- freed last in front: Go keeps them in a slice whose end is the top.
pub record Pool : Type 0 where
  pub index : Str → Option ℕ
  pub entries : List Entry
  pub free : List ℕ
  pub codepage : ℕ
  pub long_refs : Bool

-- `entries[id-1]`; `none` is Go's panic on an index out of range.
abbrev pub at_id : List Entry → ℕ → Option Entry
at_id es zero = none
at_id es (suc i) = get_elem? es i

unfoldable pub write_id : List Entry → ℕ → Entry → Option (List Entry)
write_id es zero e = none
write_id es (suc i) e = do _ ← get_elem? es i; some (set es i e)

-- `uint32(len(p.entries))`
abbrev pub size : List Entry → ℕ
size es = length es % 2 ^ 32

-- `p.index[s] = id`, and `delete(p.index, s)` for `none`
unfoldable pub index_set : Str → Option ℕ → (Str → Option ℕ) → Str → Option ℕ
index_set s v index t = if eq_str t s then v else index t

unfoldable pub empty_pool : ℕ → Bool → Pool
empty_pool cp long_refs = record {
  index = λ s. none;
  entries = [];
  free = [];
  codepage = cp;
  long_refs = long_refs;
}

unfoldable pub use_long_refs : Pool → Bool
use_long_refs p = p.long_refs || ltb 0xffff (length p.entries)

abbrev pub unused : Entry → Bool
unused e = e.persistent == 0 && e.nonpersistent == 0

abbrev pub text_of : Entry → Str × Bool
text_of e = if unused e then ([], false) else (e.s, true)

-- Lookup; `none` is a panic.
unfoldable pub lookup : Pool → ℕ → Option (Str × Bool)
lookup p id =
    if id == 0
    then some ([], true)
    else if ltb (size p.entries) id
    then some ([], false)
    else do e ← at_id p.entries id; some (text_of e)

abbrev pub found_id : Option ℕ → ℕ × Bool
found_id (some id) = (id, true)
found_id none = (0, false)

unfoldable pub lookup_id : Pool → Str → ℕ × Bool
lookup_id p s = if eq_str s [] then (0, true) else found_id (p.index s)

-- A count at its ceiling stays there.
unfoldable pub count_up : Bool → Entry → Entry
count_up true e =
    if ltb e.persistent max_refcount then record e { persistent = e.persistent + 1 } else e
count_up false e =
    if ltb e.nonpersistent max_refcount then record e { nonpersistent = e.nonpersistent + 1 } else e

abbrev pub first_use : Str → Bool → Entry
first_use s true = record { s = s; persistent = 1; nonpersistent = 0 }
first_use s false = record { s = s; persistent = 0; nonpersistent = 1 }

unfoldable pub place : Str → Entry → Pool → List ℕ → Option (ℕ × Pool)
place s e p (id ∷ free) = do
  es ← write_id p.entries id e
  some (id, record p { index = index_set s (some id) p.index; entries = es; free = free })
place s e p [] =
    let es = p.entries ++ (e ∷ []) in
    some (size es, record p { index = index_set s (some (size es)) p.index; entries = es })

unfoldable pub intern_at : Str → Bool → Pool → Option ℕ → Option (ℕ × Pool)
intern_at s persistent p (some id) = do
  e ← at_id p.entries id
  es ← write_id p.entries id (count_up persistent e)
  some (id, record p { entries = es })
intern_at s persistent p none = place s (first_use s persistent) p p.free

-- Intern; `none` is a panic.
unfoldable pub intern : Str → Bool → Pool → Option (ℕ × Pool)
intern s persistent p = if eq_str s [] then some (0, p) else intern_at s persistent p (p.index s)

-- The switch of Release: `none` is its `default`, nothing to release.
unfoldable pub count_down : Bool → Entry → Option Entry
count_down true e =
    if ltb 0 e.persistent then some (record e { persistent = e.persistent - 1 }) else none
count_down false e =
    if ltb 0 e.nonpersistent then some (record e { nonpersistent = e.nonpersistent - 1 }) else none

unfoldable pub release_at : ℕ → Pool → Option Entry → Option Pool
release_at id p none = some p
release_at id p (some e) =
    if unused e
    then (do
      es ← write_id p.entries id (record e { s = [] })
      some (record p { index = index_set e.s none p.index; entries = es; free = id ∷ p.free }))
    else (do es ← write_id p.entries id e; some (record p { entries = es }))

-- Release; `none` is a panic.
unfoldable pub release : ℕ → Bool → Pool → Option Pool
release id persistent p =
    if id == 0 || ltb (size p.entries) id
    then some p
    else do e ← at_id p.entries id; release_at id p (count_down persistent e)
