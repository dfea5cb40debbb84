-- ===== src/Blobs/Chains.antt =====
-- Close of a writer and Delete of internal/blobstore/blobstore.go: which bytes the chains have.
use go_msi.Prelude.{
  ℕ, ◌+◌, ◌≤◌, ◌≡◌, ◌==◌, ◌||◌, if◌then◌else◌, false, Bool-cases, inl, inr, List, [], ◌∷◌, Option,
  none, some, Option-cases, refl, arith,
}
use go_msi.Blobs.{
  Extent, Store, Writer, filled_part, unused_tail, extent_of, push_all, drop_chain, put_chain,
  find_chain, close, delete,
}
use go_msi.Blobs.Cover.{inside, cover, cover-append, cover_writer, Sane, parts_lem}

abbrev pub cover_chains : List (ℕ × List Extent) → ℕ → ℕ
cover_chains [] x = 0
cover_chains (c ∷ cs) x = cover c.1 x + cover_chains cs x

abbrev pub cover_store : Store → ℕ → ℕ
cover_store s x = cover s.free x + cover_chains s.chains x

cover-push_all : (es fs : List Extent) (x : ℕ) → cover (push_all es fs) x ≡ cover es x + cover fs x
cover-push_all [] fs x = omega arith
cover-push_all (e ∷ es) fs x = omega (arith, cover-push_all es (e ∷ fs) x)

cover-extent_of : (e : Extent) (x : ℕ) → cover (extent_of e) x ≡ inside e.offset e.length x
unfolding extent_of
cover-extent_of e x = ground arith

abbrev pub one : ℕ → ℕ → ℕ
one h j = if h == j then 1 else 0

-- How often a handle stands in the chains.
abbrev pub keys : List (ℕ × List Extent) → ℕ → ℕ
keys [] h = 0
keys (c ∷ cs) h = one c.0 h + keys cs h

keys-drop_chain : (h j : ℕ) (cs : List (ℕ × List Extent)) → keys (drop_chain h cs) j ≤ keys cs j
unfolding drop_chain
keys-drop_chain h j [] = omega arith
keys-drop_chain h j (c ∷ cs) = elim (Bool-cases (c.0 == h)) [
  | inl e ↦ rw e (omega (arith, keys-drop_chain h j cs))
  | inr e ↦ rw e (omega (arith, keys-drop_chain h j cs))
]

-- A handle that is not there takes no chain away.
cover-drop_chain :
    (h : ℕ) (cs : List (ℕ × List Extent)) (x : ℕ)
    → keys cs h ≡ 0
    → cover_chains (drop_chain h cs) x ≡ cover_chains cs x
unfolding drop_chain
cover-drop_chain h [] x k = refl
cover-drop_chain h (c ∷ cs) x k =
    let e : (c.0 == h) ≡ false = ground (arith, k) in
    let rest : keys cs h ≡ 0 = omega (arith, k) in
    rw e (omega (arith, cover-drop_chain h cs x rest))

abbrev cover_found : ℕ → Option (List Extent) → ℕ
cover_found x none = 0
cover_found x (some es) = cover es x

-- A chain that is found is taken away alone, if its handle stands once.
cover-find_chain :
    (h : ℕ) (cs : List (ℕ × List Extent)) (x : ℕ)
    → keys cs h ≤ 1
    → cover_found x (find_chain h cs) + cover_chains (drop_chain h cs) x ≡ cover_chains cs x
unfolding find_chain drop_chain
cover-find_chain h [] x k = refl
cover-find_chain h (c ∷ cs) x k = elim (Bool-cases (c.0 == h)) [
  | inl e ↦
      let rest : keys cs h ≡ 0 = ground (arith, k, e) in
      rw e (omega (arith, cover-drop_chain h cs x rest))
  | inr e ↦
      let rest : keys cs h ≤ 1 = omega (arith, k) in
      rw e (omega (arith, cover-find_chain h cs x rest))
]

-- Close gives the writer's bytes to the store: to the chains, or back to the free extents.
pub close_cover :
    (s : Store) (w : Writer) (x : ℕ)
    → Sane w
    → w.closed ≡ false
    → s.failed ≡ false
    → keys s.chains w.h ≡ 0
    → (cover_store (close (s, w)).0 x ≡ cover_store s x + cover_writer w x)
      × ((close (s, w)).0.file_end ≡ s.file_end)
unfolding close unused_tail filled_part put_chain
close_cover s w x h c f k = elim (Bool-cases w.failed) [
  | inl e ↦
      rw (c, f, e)
        (
          omega (
            arith,
            cover-append (extent_of w.cur) (push_all w.chain s.free) x,
            cover-push_all w.chain s.free x,
            cover-extent_of w.cur x,
          ),
          refl,
        )
  | inr e ↦
      rw (c, f, e)
        (
          omega (
            arith,
            cover-append (unused_tail w) s.free x,
            cover-append w.chain (filled_part w) x,
            parts_lem w x h.within,
            cover-drop_chain w.h s.chains x k,
          ),
          refl,
        )
]

-- Delete moves the bytes of a chain to the free extents.
pub delete_cover :
    (h : ℕ) (s : Store) (x : ℕ)
    → keys s.chains h ≤ 1
    → (cover_store (delete h s) x ≡ cover_store s x) × ((delete h s).file_end ≡ s.file_end)
unfolding delete
delete_cover h s x k = elim (Option-cases (find_chain h s.chains)) [
  | inl n ↦ rw (n, delete) (refl, refl)
  | inr (es, e) ↦
      let found : cover es x + cover_chains (drop_chain h s.chains) x ≡ cover_chains s.chains x =
        rw e at (cover-find_chain h s.chains x k) in
      rw (e, delete) (omega (arith, cover-push_all es s.free x, found), refl)
]

pub delete-keys :
    (h j : ℕ) (s : Store)
    → (keys (delete h s).chains j ≤ keys s.chains j) × ((delete h s).next_h ≡ s.next_h)
unfolding delete
delete-keys h j s = elim (Option-cases (find_chain h s.chains)) [
  | inl n ↦ rw (n, delete) (omega arith, refl)
  | inr (es, e) ↦ rw (e, delete) (keys-drop_chain h j s.chains, refl)
]

pub close-keys :
    (s : Store) (w : Writer) (j : ℕ)
    → (keys (close (s, w)).0.chains j ≤ keys s.chains j + one w.h j)
      × ((close (s, w)).0.next_h ≡ s.next_h)
unfolding close put_chain
close-keys s w j = elim (Bool-cases (w.closed || s.failed)) [
  | inl e ↦ rw e (omega arith, refl)
  | inr e ↦ elim (Bool-cases w.failed) [
    | inl f ↦ rw (e, f) (omega arith, refl)
    | inr f ↦ rw (e, f) (omega (arith, keys-drop_chain w.h j s.chains), refl)
  ]
]
