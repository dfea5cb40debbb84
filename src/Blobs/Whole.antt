-- ===== src/Blobs/Whole.antt =====
-- Write of internal/blobstore/blobstore.go on a disk that does not fail: empty extents, and the bytes
-- written.
use go_msi.Prelude.{
  ℕ, zero, suc, ◌+◌, ◌-◌, ◌≤◌, ◌<◌, ◌≡◌, ltb, Bool, false, Bool-cases, inl, inr, List, [], ◌∷◌,
  ◌++◌, length, length-drop, drop, arith,
}
use go_msi.Prelude.Text.{Str}
use go_msi.Blobs.{
  Extent, Store, Writer, Both, full, filled_part, unused_tail, commit, open_with, open_next, turn,
  chunk_of, advance, round, write_loop,
}
use go_msi.Blobs.Write.{Honest}

abbrev pub Positive : List Extent → Type 0
Positive [] = Unit {0}
Positive (e ∷ es) = (0 < e.length) × Positive es

pub Positive-append : (es fs : List Extent) → Positive es → Positive fs → Positive (es ++ fs)
Positive-append [] fs h k = k
Positive-append (e ∷ es) fs (h, hs) k = (h, Positive-append es fs hs k)

pub filled_part-Positive : (w : Writer) → Positive (filled_part w)
unfolding filled_part
filled_part-Positive w = elim (Bool-cases (ltb 0 w.cur_len)) [
  | inl e ↦ rw e (ground (arith, e), tt)
  | inr e ↦ rw e tt
]

pub unused_tail-Positive : (w : Writer) → Positive (unused_tail w)
unfolding unused_tail
unused_tail-Positive w = elim (Bool-cases (ltb 0 (w.cur.length - w.cur_len))) [
  | inl e ↦ rw e (ground (arith, e), tt)
  | inr e ↦ rw e tt
]

-- No free extent and no part of a writer's chain is empty.
abbrev pub NoneEmpty : Both → Type 0
NoneEmpty b = Positive b.0.free × Positive b.1.chain

commit-NoneEmpty : (b : Both) → NoneEmpty b → NoneEmpty (commit b)
unfolding commit
commit-NoneEmpty (s, w) (f, c) = (
  Positive-append (unused_tail w) s.free (unused_tail-Positive w) f,
  Positive-append w.chain (filled_part w) c (filled_part-Positive w),
)

-- The writer can take a byte.
abbrev HasRoom : Writer → Type 0
HasRoom w = (k : ℕ) → 0 < k → 0 < chunk_of w k

open_with-NoneEmpty :
    (free : List Extent) (b : Both)
    → Positive free
    → Positive b.0.free
    → Positive b.1.chain
    → NoneEmpty (open_with free b) × HasRoom (open_with free b).1
unfolding open_with chunk_of
open_with-NoneEmpty [] b p f c = ((f, c), λ k h. h)
open_with-NoneEmpty (e ∷ rest) b (pe, p) f c = ((p, c), λ k h. omega arith)

not_full-HasRoom : (s : Store) (w : Writer) → full s w ≡ false → HasRoom w
unfolding full chunk_of
not_full-HasRoom s w e k pos = elim (Bool-cases w.growing) [
  | inl g ↦ rw g pos
  | inr g ↦ rw g (ground (arith, rw g at e, pos))
]

chunk_of_le : (w : Writer) (k : ℕ) → chunk_of w k ≤ k
unfolding chunk_of
chunk_of_le w k = ground arith

turn-NoneEmpty : (b : Both) → NoneEmpty b → NoneEmpty (turn b) × HasRoom (turn b).1
unfolding turn open_next
turn-NoneEmpty (s, w) h = elim (Bool-cases (full s w)) [
  | inl e ↦
      let (f, c) = commit-NoneEmpty (s, w) h in
      rw e (open_with-NoneEmpty (commit (s, w)).0.free (commit (s, w)) f f c)
  | inr e ↦ rw e (h, not_full-HasRoom s w e)
]

advance-NoneEmpty :
    (n : ℕ) (failed : Bool) (p : Str) (b : Both) → NoneEmpty b → NoneEmpty (advance n failed p b)
unfolding advance
advance-NoneEmpty n failed p (s, w) h = elim (Bool-cases w.growing) [
  | inl g ↦ rw g h
  | inr g ↦ rw g h
]

-- A disk that never fails.
abbrev pub NeverFails : (ℕ → ℕ → ℕ × Bool) → Type 0
NeverFails write_at = (o k : ℕ) → (write_at o k).1 ≡ false

module _ (write_at : ℕ → ℕ → ℕ × Bool) (honest : Honest write_at) where
  round-NoneEmpty : (p : Str) (b : Both) → NoneEmpty b → NoneEmpty (round write_at p b).1
  unfolding round
  round-NoneEmpty p b h =
      let c = turn b in
      let r = write_at (c.1.cur.offset + c.1.cur_len) (chunk_of c.1 (length p)) in
      advance-NoneEmpty r.0 r.1 p c ((turn-NoneEmpty b h).0)

  pub write_loop-NoneEmpty :
      (fuel : ℕ) (p : Str) (n : ℕ) (b : Both)
      → NoneEmpty b
      → NoneEmpty (write_loop write_at fuel p n b).1
  unfolding write_loop
  write_loop-NoneEmpty zero p n b h = h
  write_loop-NoneEmpty (suc fuel) [] n b h = h
  write_loop-NoneEmpty (suc fuel) (c ∷ p) n b h =
      let r = round write_at (c ∷ p) b in
      let g = round-NoneEmpty (c ∷ p) b h in
      let rest = write_loop-NoneEmpty fuel (drop r.0.0 (c ∷ p)) (n + r.0.0) r.1 g in
      elim (Bool-cases r.0.1) [ inl e ↦ rw e g | inr e ↦ rw e rest ]

  -- A round writes something, and no more than there is.
  round_count :
      (p : Str) (b : Both)
      → NeverFails write_at
      → NoneEmpty b
      → 0 < length p
      → (0 < (round write_at p b).0.0)
        × ((round write_at p b).0.0 ≤ length p)
        × ((round write_at p b).0.1 ≡ false)
  unfolding round
  round_count p b never h pos =
      let c = turn b in
      let o = c.1.cur.offset + c.1.cur_len in
      let k = chunk_of c.1 (length p) in
      let some_room = (turn-NoneEmpty b h).1 (length p) pos in
      let most = honest.most o k in
      let le = chunk_of_le c.1 (length p) in
      let all : k ≤ (write_at o k).0 = ground (arith, honest.short o k, never o k) in
      (omega (arith, some_room, all), omega (arith, most, le), never o k)

  pub write_loop_whole :
      (fuel : ℕ) (p : Str) (n : ℕ) (b : Both)
      → NeverFails write_at
      → NoneEmpty b
      → length p ≤ fuel
      → (write_loop write_at fuel p n b).0 ≡ n + length p
  unfolding write_loop
  write_loop_whole zero [] n b never h le = omega arith
  write_loop_whole zero (c ∷ p) n b never h le = absurd (omega arith)
  write_loop_whole (suc fuel) [] n b never h le = omega arith
  write_loop_whole (suc fuel) (c ∷ p) n b never h le =
      let r = round write_at (c ∷ p) b in
      let (pos, most, e) = round_count (c ∷ p) b never h (omega arith) in
      let m = r.0.0 in
      let short = length-drop m (c ∷ p) in
      let rest =
        write_loop_whole fuel (drop m (c ∷ p)) (n + m) r.1 never (round-NoneEmpty (c ∷ p) b h)
          (omega (arith, short, pos, le)) in
      rw e (omega (arith, rest, short, most))
