-- ===== src/Blobs/System.antt =====
-- internal/blobstore/blobstore.go with any number of open writers: who has which bytes of the file.
use go_msi.Prelude.{
  ℕ, ◌+◌, ◌-◌, ◌%◌, ◌^◌, ◌≤◌, ◌<◌, ◌≡◌, ◌||◌, Bool, false, Bool-cases, inl, inr, List, [], ◌∷◌,
  ◌++◌, Option, none, some, length, refl, ap, sym, ◌∙◌, arith,
}
use mathlib.Core.Path.{subst}
use go_msi.Prelude.Text.{Str}
use go_msi.Blobs.{new_writer, Store, Writer, Both, create, write_loop, write, close, delete}
use go_msi.Blobs.Cover.{inside, cover_writer, Sane}
use go_msi.Blobs.Chains.{
  cover_chains, cover_store, one, keys, close_cover, delete_cover, delete-keys, close-keys,
}
use go_msi.Blobs.Write.{Grows, Honest, write_loop-Grows}

abbrev pub cover_writers : List Writer → ℕ → ℕ
cover_writers [] x = 0
cover_writers (w ∷ ws) x = cover_writer w x + cover_writers ws x

-- A store and the writers that are open on it.
abbrev pub System : Type 0
System = Store × List Writer

-- The store when `init` has made its file.
abbrev pub fresh_store : (ℕ → ℕ) → Store
fresh_store file = record {
  failed = false;
  file = file;
  chains = [];
  free = [];
  file_end = 0;
  next_h = 0;
}

-- How often a handle stands among the writers.
abbrev pub handles : List Writer → ℕ → ℕ
handles [] h = 0
handles (w ∷ ws) h = one w.h h + handles ws h

handles-append : (vs ws : List Writer) (h : ℕ) → handles (vs ++ ws) h ≡ handles vs h + handles ws h
handles-append [] ws h = omega arith
handles-append (v ∷ vs) ws h = omega (arith, handles-append vs ws h)

-- What the store and its writers do: any of the open writers may go on, in any order. A writer that
-- is closed has no part in it any more. `write_at k` is what WriteAt does in a call of Write, and which
-- k that is does not matter: the same bytes can fail in one call and be written in the next.
pub data Step (write_at : ℕ → ℕ → ℕ → ℕ × Bool) : System → System → Type 0 where
  opened :
      (s t : Store) (w : Writer) (ws : List Writer)
      → create s ≡ some (t, w)
      → s.next_h + 1 < 2 ^ 32
      → Step write_at (s, ws) (t, w ∷ ws)
  wrote :
      (call : ℕ) (s t : Store) (w v : Writer) (n : ℕ) (p : Str) (before after : List Writer)
      → write (write_at call) p (s, w) ≡ some (n, (t, v))
      → Step write_at (s, before ++ (w ∷ after)) (t, before ++ (v ∷ after))
  closed :
      (s : Store) (w : Writer) (before after : List Writer)
      → w.closed ≡ false
      → s.failed ≡ false
      → Step write_at (s, before ++ (w ∷ after)) ((close (s, w)).0, before ++ after)
  deleted : (s : Store) (ws : List Writer) (h : ℕ) → Step write_at (s, ws) (delete h s, ws)

pub data Reached (write_at : ℕ → ℕ → ℕ → ℕ × Bool) : System → Type 0 where
  fresh : (file : ℕ → ℕ) → Reached write_at (fresh_store file, [])
  next : {a b : System} → Reached write_at a → Step write_at a b → Reached write_at b

abbrev pub AllSane : List Writer → Type 0
AllSane [] = Unit {0}
AllSane (w ∷ ws) = Sane w × AllSane ws

-- Every byte of the file lies in exactly one extent, and no byte behind its end lies in any. A
-- handle is given once.
pub record Exact (a : System) : Type 0 where
  pub sane : AllSane a.1
  pub once : (x : ℕ) → cover_store a.0 x + cover_writers a.1 x ≡ inside 0 a.0.file_end x
  pub handled : (j : ℕ) → keys a.0.chains j + handles a.1 j ≤ inside 0 a.0.next_h j

cover_writers-append :
    (vs ws : List Writer) (x : ℕ)
    → cover_writers (vs ++ ws) x ≡ cover_writers vs x + cover_writers ws x
cover_writers-append [] ws x = omega arith
cover_writers-append (v ∷ vs) ws x = omega (arith, cover_writers-append vs ws x)

pub AllSane-split : (vs ws : List Writer) → AllSane (vs ++ ws) → AllSane vs × AllSane ws
AllSane-split [] ws h = (tt, h)
AllSane-split (v ∷ vs) ws (h, hs) = let (a, b) = AllSane-split vs ws hs in ((h, a), b)

AllSane-append : (vs ws : List Writer) → AllSane vs → AllSane ws → AllSane (vs ++ ws)
AllSane-append [] ws h k = k
AllSane-append (v ∷ vs) ws (h, hs) k = (h, AllSane-append vs ws hs k)

or_else : {A : Type 0} → A → Option A → A
or_else d (some a) = a
or_else d none = d

-- A new writer has no bytes.
abbrev Opened : Store → Both → Type 0
Opened s b =
    Sane b.1
    × (b.0.file_end ≡ s.file_end)
    × ((x : ℕ) → (cover_store b.0 x ≡ cover_store s x) × (cover_writer b.1 x ≡ 0))
    × (b.0.chains ≡ s.chains)
    × (b.1.h ≡ s.next_h)
    × (b.0.next_h ≡ (s.next_h + 1) % 2 ^ 32)

create-Opened : (s : Store) (b : Both) → create s ≡ some b → Opened s b
unfolding create or_else
create-Opened s b h = elim (Bool-cases s.failed) [
  | inl f ↦ absurd (ground (arith, rw f at h))
  | inr f ↦
      let first : Both =
        (record s { failed = false; next_h = (s.next_h + 1) % 2 ^ 32 }, new_writer s.next_h) in
      let this : Opened s first = (
        record { within = omega arith; grows = λ _. refl },
        refl,
        λ x. (refl, ground arith),
        refl,
        refl,
        refl,
      ) in
      let eq : first ≡ b = ap (or_else first) (rw f at h) in subst (λ z. Opened s z) eq this
]

pub write-Grows :
    (write_at : ℕ → ℕ → ℕ × Bool) (p : Str) (b : Both) (n : ℕ) (c : Both)
    → Honest write_at
    → Sane b.1
    → write write_at p b ≡ some (n, c)
    → Grows b c
unfolding write or_else
write-Grows write_at p (s, w) n c honest h e = elim (Bool-cases (w.closed || s.failed)) [
  | inl f ↦ absurd (ground (arith, rw f at e))
  | inr f ↦
      let run = write_loop write_at (length p) p 0 (s, w) in
      let eq : run ≡ (n, c) = ap (or_else run) (rw f at e) in
      let g : Grows (s, w) run.1 = write_loop-Grows write_at honest (length p) p 0 (s, w) h in
      rw (ap (λ r. r.1) eq) at g
]

inside_grow : (a b x : ℕ) → a ≤ b → inside 0 b x ≡ inside 0 a x + inside a (b - a) x
inside_grow a b x h = ground (arith, h)

Step-Exact :
    (write_at : ℕ → ℕ → ℕ → ℕ × Bool) (a b : System)
    → ((k : ℕ) → Honest (write_at k))
    → Exact a
    → Step write_at a b
    → Exact b
Step-Exact write_at a b honest e (opened s t w ws h room) =
    let (sane, end, c, cs, own, nx) = create-Opened s (t, w) h in
    record {
      sane = (sane, e.sane);
      once = λ x. rw end (omega (arith, (c x).0, (c x).1, e.once x));
      handled = λ j. rw (cs, nx, own) (ground (arith, e.handled j, room));
    }
Step-Exact write_at a b honest e (wrote call s t w v n p before after h) =
    let (sb, (sw, sa)) = AllSane-split before (w ∷ after) e.sane in
    let g = write-Grows (write_at call) p (s, w) n (t, v) (honest call) sw h in
    record {
      sane = AllSane-append before (v ∷ after) sb (g.sane, sa);
      once = λ x. omega (
        arith,
        g.covers x,
        ap (λ cs. cover_chains cs x) g.chains,
        inside_grow s.file_end t.file_end x g.grown,
        cover_writers-append before (w ∷ after) x,
        cover_writers-append before (v ∷ after) x,
        e.once x,
      );
      handled = λ j.
          rw (g.chains, g.next)
            (omega (
              arith,
              ap (λ h. one h j) g.handle,
              handles-append before (w ∷ after) j,
              handles-append before (v ∷ after) j,
              e.handled j,
            ));
    }
Step-Exact write_at a b honest e (closed s w before after c f) =
    let (sb, (sw, sa)) = AllSane-split before (w ∷ after) e.sane in
    let alone : keys s.chains w.h ≡ 0 =
      ground (arith, e.handled w.h, handles-append before (w ∷ after) w.h) in
    record {
      sane = AllSane-append before after sb sa;
      once = λ x.
          let (k, end) = close_cover s w x sw c f alone in
          rw end (
            omega (
              arith,
              k,
              cover_writers-append before (w ∷ after) x,
              cover_writers-append before after x,
              e.once x,
            ));
      handled = λ j.
          let (k, nx) = close-keys s w j in
          rw nx (
            omega (
              arith,
              k,
              handles-append before (w ∷ after) j,
              handles-append before after j,
              e.handled j,
            ));
    }
Step-Exact write_at a b honest e (deleted s ws h) = record {
  sane = e.sane;
  once = λ x.
      let single : keys s.chains h ≤ 1 = ground (arith, e.handled h) in
      let (k, end) = delete_cover h s x single in rw end (omega (arith, k, e.once x));
  handled = λ j. let (k, nx) = delete-keys h j s in rw nx (omega (arith, k, e.handled j));
}

-- The handles that Create gave, the last first.
abbrev pub given : {write_at : ℕ → ℕ → ℕ → ℕ × Bool} {a : System} → Reached write_at a → List ℕ
given (fresh file) = []
given (next r (opened s t w ws h room)) = w.h ∷ given r
given (next r (wrote call s t w v n p before after h)) = given r
given (next r (closed s w before after c f)) = given r
given (next r (deleted s ws h)) = given r

-- How often a number is on a list.
abbrev pub times : ℕ → List ℕ → ℕ
times j [] = 0
times j (h ∷ hs) = one h j + times j hs

-- A step gives the number that next_h names, or none.
given-Step :
    (write_at : ℕ → ℕ → ℕ → ℕ × Bool) (a b : System)
    → ((k : ℕ) → Honest (write_at k))
    → (r : Reached write_at a) → AllSane a.1
    → ((j : ℕ) → times j (given r) ≡ inside 0 a.0.next_h j)
    → (step : Step write_at a b) (j : ℕ) → times j (given (next r step)) ≡ inside 0 b.0.next_h j
given-Step write_at a b honest r sane g (opened s t w ws h room) j =
    let (own_sane, end, c, cs, own, nx) = create-Opened s (t, w) h in
    rw (nx, own) (ground (arith, g j, room))
given-Step write_at a b honest r sane g (wrote call s t w v n p before after h) j =
    let (sb, (sw, sa)) = AllSane-split before (w ∷ after) sane in
    g j
    ∙ ap (λ m. inside 0 m j)
        (sym (write-Grows (write_at call) p (s, w) n (t, v) (honest call) sw h).next)
given-Step write_at a b honest r sane g (closed s w before after c f) j =
    g j ∙ ap (λ m. inside 0 m j) (sym (close-keys s w j).1)
given-Step write_at a b honest r sane g (deleted s ws h) j =
    g j ∙ ap (λ m. inside 0 m j) (sym (delete-keys h j s).1)

-- For every order in which writers are opened, write, close and are deleted, on a file whose WriteAt
-- keeps its promise in every call, with fewer than 2^32 handles given: each byte of the file lies in
-- exactly one extent of a blob, an open writer or the free list, and no byte behind the end in any, so
-- that none is shared and none is lost. The handles given are the numbers below next_h, each of them
-- once, and no two blobs or open writers have the same.
pub Reached-Exact :
    (write_at : ℕ → ℕ → ℕ → ℕ × Bool) (a : System)
    → ((k : ℕ) → Honest (write_at k))
    → (r : Reached write_at a) → Exact a × ((j : ℕ) → times j (given r) ≡ inside 0 a.0.next_h j)
Reached-Exact write_at a honest (fresh file) =
    (record { sane = tt; once = λ x. ground arith; handled = λ j. ground arith }, λ j. ground arith)
Reached-Exact write_at b honest (next {a} r step) =
    let (e, g) = Reached-Exact write_at a honest r in
    (Step-Exact write_at a b honest e step, given-Step write_at a b honest r e.sane g step)
