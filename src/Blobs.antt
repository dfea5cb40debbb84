-- ===== src/Blobs.antt =====
-- internal/blobstore/blobstore.go: blobs in one temporary file, each a chain of extents.
pub mod Cover
pub mod Write
pub mod Chains
pub mod System
pub mod Whole
pub mod Filled
use go_msi.Prelude.{
  ℕ, zero, suc, ◌+◌, ◌-◌, ◌%◌, ◌^◌, ◌≤◌, ◌==◌, ◌&&◌, ◌||◌, not, ltb, leb, min, if◌then◌else◌, Bool,
  true, false, List, [], ◌∷◌, ◌++◌, Option, none, some, length, take, drop,
}
use go_msi.Prelude.Text.{Str}

pub record Extent : Type 0 where
  pub offset : ℕ
  pub length : ℕ

-- The store behind `init`. The free extents stand with the end of Go's slice in front. A closed
-- store has an error.
pub record Store : Type 0 where
  pub failed : Bool
  pub file : ℕ → ℕ
  pub chains : List (ℕ × List Extent)
  pub free : List Extent
  pub file_end : ℕ
  pub next_h : ℕ

pub record Writer : Type 0 where
  pub h : ℕ
  pub chain : List Extent
  pub cur : Extent
  pub cur_len : ℕ
  pub growing : Bool
  pub closed : Bool
  pub failed : Bool

-- An open writer and its store.
abbrev pub Both : Type 0
Both = Store × Writer

abbrev pub new_writer : ℕ → Writer
new_writer h = record {
  h = h;
  chain = [];
  cur = record { offset = 0; length = 0 };
  cur_len = 0;
  growing = false;
  closed = false;
  failed = false;
}

-- Create; `none` is the store's error.
unfoldable pub create : Store → Option Both
create s =
    if s.failed
    then none
    else some (record s { next_h = (s.next_h + 1) % 2 ^ 32 }, new_writer s.next_h)

-- A fresh extent is needed.
unfoldable pub full : Store → Writer → Bool
full s w =
    if w.growing
    then not (w.cur.offset + w.cur.length == s.file_end)
    else leb w.cur.length w.cur_len

-- The filled part of the open extent, and what is left of it.
unfoldable pub filled_part : Writer → List Extent
filled_part w =
    if ltb 0 w.cur_len then record { offset = w.cur.offset; length = w.cur_len } ∷ [] else []

unfoldable pub unused_tail : Writer → List Extent
unused_tail w =
    let tail = w.cur.length - w.cur_len in
    if ltb 0 tail then record { offset = w.cur.offset + w.cur_len; length = tail } ∷ [] else []

unfoldable pub commit : Both → Both
commit (s, w) =
    (record s { free = unused_tail w ++ s.free }, record w { chain = w.chain ++ filled_part w })

-- The next extent: one that was freed, or a new one at the end of the file.
unfoldable pub open_with : List Extent → Both → Both
open_with (e ∷ rest) (s, w) =
    (record s { free = rest }, record w { cur = e; growing = false; cur_len = 0 })
open_with [] (s, w) =
    (s, record w { cur = record { offset = s.file_end; length = 0 }; growing = true; cur_len = 0 })

unfoldable pub open_next : Both → Both
open_next b = open_with b.0.free b

unfoldable pub turn : Both → Both
turn (s, w) = if full s w then open_next (commit (s, w)) else (s, w)

unfoldable pub chunk_of : Writer → ℕ → ℕ
chunk_of w n = if w.growing then n else min n (w.cur.length - w.cur_len)

-- The first n bytes of p at an offset of the file.
abbrev pub put_bytes : ℕ → Str → (ℕ → ℕ) → ℕ → ℕ
put_bytes o [] file x = file x
put_bytes o (b ∷ p) file x = if x == o then b else put_bytes (o + 1) p file x

unfoldable pub advance : ℕ → Bool → Str → Both → Both
advance n failed p (s, w) =
    let s₁ = record s { file = put_bytes (w.cur.offset + w.cur_len) (take n p) s.file } in
    let len = w.cur_len + n in
    if w.growing
    then (
      record s₁ { file_end = w.cur.offset + len },
      record w {
        cur_len = len;
        cur = record { offset = w.cur.offset; length = len };
        failed = failed;
      },
    )
    else (s₁, record w { cur_len = len; failed = failed })

-- `write_at o k`: how many of k bytes WriteAt writes at offset o, and whether it fails.
module _ (write_at : ℕ → ℕ → ℕ × Bool) where
  -- One round of the loop of Write.
  unfoldable pub round : Str → Both → (ℕ × Bool) × Both
  round p b =
      let c = turn b in
      let (n, failed) = write_at (c.1.cur.offset + c.1.cur_len) (chunk_of c.1 (length p)) in
      ((n, failed), advance n failed p c)

  -- The number of bytes written, with the store and the writer behind.
  unfoldable pub write_loop : ℕ → Str → ℕ → Both → ℕ × Both
  write_loop zero p n b = (n, b)
  write_loop (suc fuel) [] n b = (n, b)
  write_loop (suc fuel) (c ∷ p) n b =
      let (r, b₁) = round (c ∷ p) b in
      let rest = write_loop fuel (drop r.0 (c ∷ p)) (n + r.0) b₁ in
      if r.1 then (n + r.0, b₁) else rest

  -- Write; `none` is errClosed.
  unfoldable pub write : Str → Both → Option (ℕ × Both)
  write p (s, w) = if w.closed || s.failed then none else some (write_loop (length p) p 0 (s, w))

unfoldable pub extent_of : Extent → List Extent
extent_of e = if ltb 0 e.length then e ∷ [] else []

-- `append(free, es...)`
abbrev pub push_all : List Extent → List Extent → List Extent
push_all [] free = free
push_all (e ∷ es) free = push_all es (e ∷ free)

-- `delete(chains, h)`, and `chains[h] = chain`
unfoldable pub drop_chain : ℕ → List (ℕ × List Extent) → List (ℕ × List Extent)
drop_chain h [] = []
drop_chain h (c ∷ cs) = let rest = drop_chain h cs in if c.0 == h then rest else c ∷ rest

unfoldable pub put_chain : ℕ → List Extent → List (ℕ × List Extent) → List (ℕ × List Extent)
put_chain h chain cs = (h, chain) ∷ drop_chain h cs

-- Close of a writer: a blob whose last write failed is not published.
unfoldable pub close : Both → Both
close (s, w) =
    let w₁ = record w { closed = true } in
    let chain = w.chain ++ filled_part w in
    if w.closed || s.failed
    then (s, w₁)
    else if w.failed
    then (record s { free = extent_of w.cur ++ push_all w.chain s.free }, w₁)
    else (
      record s { free = unused_tail w ++ s.free; chains = put_chain w.h chain s.chains },
      record w₁ { chain = chain },
    )

-- `chain, ok := chains[h]`
unfoldable pub find_chain : ℕ → List (ℕ × List Extent) → Option (List Extent)
find_chain h [] = none
find_chain h (c ∷ cs) = let rest = find_chain h cs in if c.0 == h then some c.1 else rest

unfoldable pub delete : ℕ → Store → Store
delete h s = elim (find_chain h s.chains) [
  | none ↦ s
  | some chain ↦ record s { chains = drop_chain h s.chains; free = push_all chain s.free }
]
