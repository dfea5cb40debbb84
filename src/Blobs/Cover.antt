-- ===== src/Blobs/Cover.antt =====
-- Which bytes of the temporary file of internal/blobstore/blobstore.go the extents cover.
use go_msi.Prelude.{
  ℕ, ◌+◌, ◌≤◌, ◌≡◌, ◌&&◌, ltb, leb, if◌then◌else◌, true, false, Bool-cases, inl, inr, List, [], ◌∷◌,
  ◌++◌, refl, ap, ◌∙◌, arith,
}
use go_msi.Blobs.{
  Extent, Store, Writer, Both, full, filled_part, unused_tail, commit, open_with, open_next, turn,
}

-- How often a byte of the file lies in `len` bytes from `o` on.
abbrev pub inside : ℕ → ℕ → ℕ → ℕ
inside o len x = if leb o x && ltb x (o + len) then 1 else 0

abbrev pub cover : List Extent → ℕ → ℕ
cover [] x = 0
cover (e ∷ es) x = inside e.offset e.length x + cover es x

pub cover-append : (es fs : List Extent) (x : ℕ) → cover (es ++ fs) x ≡ cover es x + cover fs x
cover-append [] fs x = omega arith
cover-append (e ∷ es) fs x = omega (arith, cover-append es fs x)

-- The extents of a writer: those it has filled, and the one that is open.
abbrev pub cover_writer : Writer → ℕ → ℕ
cover_writer w x = cover w.chain x + inside w.cur.offset w.cur.length x

-- The extents that a writer and the free list have between them.
abbrev pub cover_both : Both → ℕ → ℕ
cover_both b x = cover b.0.free x + cover_writer b.1 x

-- The open extent of a writer is filled up to `cur_len`; one that grows has no more than that.
pub record Sane (w : Writer) : Type 0 where
  pub within : w.cur_len ≤ w.cur.length
  pub grows : w.growing ≡ true → w.cur_len ≡ w.cur.length

pub parts_lem :
    (w : Writer) (x : ℕ)
    → w.cur_len ≤ w.cur.length
    → cover (filled_part w) x + cover (unused_tail w) x ≡ inside w.cur.offset w.cur.length x
unfolding filled_part unused_tail
parts_lem w x h = ground (arith, h)

cover-commit :
    (b : Both) (x : ℕ)
    → b.1.cur_len ≤ b.1.cur.length
    → cover (commit b).0.free x + cover (commit b).1.chain x ≡ cover_both b x
unfolding commit
cover-commit (s, w) x h = omega (
  arith,
  parts_lem w x h,
  cover-append (unused_tail w) s.free x,
  cover-append w.chain (filled_part w) x,
)

-- An extent that is opened comes from the free ones, or is empty.
open_cover :
    (free : List Extent) (b : Both) (x : ℕ)
    → b.0.free ≡ free
    → cover_both (open_with free b) x ≡ cover b.0.free x + cover b.1.chain x
unfolding open_with
open_cover [] (s, w) x h = ground arith
open_cover (e ∷ rest) (s, w) x h = omega (arith, ap (λ f. cover f x) h)

open-Sane : (free : List Extent) (b : Both) → Sane (open_with free b).1
unfolding open_with
open-Sane [] b = record { within = omega arith; grows = λ _. refl }
open-Sane (e ∷ rest) b = record { within = omega arith; grows = λ h. ground (arith, h) }

open_end :
    (free : List Extent) (b : Both)
    → ((open_with free b).0.file_end ≡ b.0.file_end)
      × ((open_with free b).0.chains ≡ b.0.chains)
      × ((open_with free b).1.h ≡ b.1.h)
      × ((open_with free b).0.next_h ≡ b.0.next_h)
unfolding open_with
open_end [] b = (refl, refl, refl, refl)
open_end (e ∷ rest) b = (refl, refl, refl, refl)

-- An extent that grows ends where the file ends.
abbrev pub AtEnd : Both → Type 0
AtEnd b = b.1.growing ≡ true → b.1.cur.offset + b.1.cur.length ≡ b.0.file_end

open-AtEnd : (free : List Extent) (b : Both) → AtEnd (open_with free b)
unfolding open_with
open-AtEnd [] b h = omega arith
open-AtEnd (e ∷ rest) b h = ground (arith, h)

-- Taking a fresh extent moves no byte out of hand.
pub record Turned (b c : Both) : Type 0 where
  pub sane : Sane c.1
  pub end : c.0.file_end ≡ b.0.file_end
  pub chains : c.0.chains ≡ b.0.chains
  pub handle : c.1.h ≡ b.1.h
  pub next : c.0.next_h ≡ b.0.next_h
  pub at_end : AtEnd c
  pub covers : (x : ℕ) → cover_both c x ≡ cover_both b x

fresh-Turned : (b : Both) → Sane b.1 → Turned b (open_next (commit b))
unfolding open_next
fresh-Turned b h =
    let c = commit b in
    record {
      sane = open-Sane c.0.free c;
      end = (open_end c.0.free c).0 ∙ (unfold commit in refl);
      chains = (open_end c.0.free c).1 ∙ (unfold commit in refl);
      handle = (open_end c.0.free c).2 ∙ (unfold commit in refl);
      next = (open_end c.0.free c).3 ∙ (unfold commit in refl);
      at_end = open-AtEnd c.0.free c;
      covers = λ x. open_cover c.0.free c x refl ∙ cover-commit b x h.within;
    }

not_full-AtEnd : (s : Store) (w : Writer) → full s w ≡ false → AtEnd (s, w)
unfolding full
not_full-AtEnd s w e g = ground (arith, rw g at e)

pub turn-Turned : (b : Both) → Sane b.1 → Turned b (turn b)
unfolding turn
turn-Turned (s, w) h = elim (Bool-cases (full s w)) [
  | inl e ↦ rw e (fresh-Turned (s, w) h)
  | inr e ↦ rw e (record {
    sane = h;
    end = refl;
    chains = refl;
    handle = refl;
    next = refl;
    at_end = not_full-AtEnd s w e;
    covers = λ x. refl;
  })
]
