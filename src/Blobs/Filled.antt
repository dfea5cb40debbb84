-- ===== src/Blobs/Filled.antt =====
-- The systems of internal/blobstore/blobstore.go, and whether an extent of theirs is empty.
use go_msi.Prelude.{
  ℕ, ◌+◌, ◌%◌, ◌^◌, ◌≡◌, ◌==◌, ◌||◌, ltb, Bool, false, Bool-cases, inl, inr, List, [], ◌∷◌, ◌++◌,
  Option, none, some, Option-cases, length, refl, ap, arith,
}
use go_msi.Prelude.Text.{Str}
use mathlib.Core.Path.{subst}
use go_msi.Blobs.{
  new_writer, Extent, Store, Writer, Both, create, write_loop, write, filled_part, unused_tail,
  extent_of, push_all, drop_chain, put_chain, find_chain, close, delete,
}
use go_msi.Blobs.Write.{Honest}
use go_msi.Blobs.System.{
  System, Step, opened, wrote, closed, deleted, Reached, fresh, next, AllSane, AllSane-split,
  write-Grows, Reached-Exact,
}
use go_msi.Blobs.Whole.{
  Positive, Positive-append, filled_part-Positive, unused_tail-Positive, NoneEmpty, NeverFails,
  write_loop-NoneEmpty, write_loop_whole,
}

abbrev Chains : List (ℕ × List Extent) → Type 0
Chains [] = Unit {0}
Chains (c ∷ cs) = Positive c.1 × Chains cs

abbrev Writers : List Writer → Type 0
Writers [] = Unit {0}
Writers (w ∷ ws) = Positive w.chain × Writers ws

-- The extents of a system are not empty.
pub record Filled (a : System) : Type 0 where
  pub free : Positive a.0.free
  pub chains : Chains a.0.chains
  pub writers : Writers a.1

push_all-Positive : (es fs : List Extent) → Positive es → Positive fs → Positive (push_all es fs)
push_all-Positive [] fs h k = k
push_all-Positive (e ∷ es) fs (h, hs) k = push_all-Positive es (e ∷ fs) hs (h, k)

extent_of-Positive : (e : Extent) → Positive (extent_of e)
unfolding extent_of
extent_of-Positive e = elim (Bool-cases (ltb 0 e.length)) [
  | inl t ↦ rw t (ground (arith, t), tt)
  | inr t ↦ rw t tt
]

drop_chain-Chains : (h : ℕ) (cs : List (ℕ × List Extent)) → Chains cs → Chains (drop_chain h cs)
unfolding drop_chain
drop_chain-Chains h [] k = tt
drop_chain-Chains h (c ∷ cs) (p, k) = elim (Bool-cases (c.0 == h)) [
  | inl e ↦ rw e (drop_chain-Chains h cs k)
  | inr e ↦ rw e (p, drop_chain-Chains h cs k)
]

abbrev Found : Option (List Extent) → Type 0
Found none = Unit {0}
Found (some es) = Positive es

find_chain-Found : (h : ℕ) (cs : List (ℕ × List Extent)) → Chains cs → Found (find_chain h cs)
unfolding find_chain
find_chain-Found h [] k = tt
find_chain-Found h (c ∷ cs) (p, k) = elim (Bool-cases (c.0 == h)) [
  | inl e ↦ rw e p
  | inr e ↦ rw e (find_chain-Found h cs k)
]

split : (vs ws : List Writer) → Writers (vs ++ ws) → Writers vs × Writers ws
split [] ws h = (tt, h)
split (v ∷ vs) ws (h, hs) = let (a, b) = split vs ws hs in ((h, a), b)

join : (vs ws : List Writer) → Writers vs → Writers ws → Writers (vs ++ ws)
join [] ws h k = k
join (v ∷ vs) ws (h, hs) k = (h, join vs ws hs k)

or_else : Both → Option Both → Both
or_else d (some a) = a
or_else d none = d

-- What stands in a store, without its writers.
abbrev Kept : Store → Both → Type 0
Kept s b = (b.0.free ≡ s.free) × (b.0.chains ≡ s.chains) × (b.1.chain ≡ [])

create-Kept : (s : Store) (b : Both) → create s ≡ some b → Kept s b
unfolding create or_else
create-Kept s b h = elim (Bool-cases s.failed) [
  | inl f ↦ absurd (ground (arith, rw f at h))
  | inr f ↦
      let first : Both =
        (record s { failed = false; next_h = (s.next_h + 1) % 2 ^ 32 }, new_writer s.next_h) in
      let this : Kept s first = (refl, refl, refl) in
      subst (λ z. Kept s z) (ap (or_else first) (rw f at h)) this
]

close-Filled :
    (s : Store) (w : Writer) (ws : List Writer)
    → Filled (s, ws)
    → Positive w.chain
    → Filled ((close (s, w)).0, ws)
unfolding close put_chain unused_tail filled_part
close-Filled s w ws f p = elim (Bool-cases (w.closed || s.failed)) [
  | inl e ↦ rw e (record { free = f.free; chains = f.chains; writers = f.writers })
  | inr e ↦ elim (Bool-cases w.failed) [
    | inl g ↦
        rw (e, g)
          (record {
            free =
                Positive-append (extent_of w.cur) (push_all w.chain s.free)
                  (extent_of-Positive w.cur) (push_all-Positive w.chain s.free p f.free);
            chains = f.chains;
            writers = f.writers;
          })
    | inr g ↦
        rw (e, g)
          (record {
            free = Positive-append (unused_tail w) s.free (unused_tail-Positive w) f.free;
            chains = (
              Positive-append w.chain (filled_part w) p (filled_part-Positive w),
              drop_chain-Chains w.h s.chains f.chains,
            );
            writers = f.writers;
          })
  ]
]

delete-Filled : (h : ℕ) (s : Store) (ws : List Writer) → Filled (s, ws) → Filled (delete h s, ws)
unfolding delete
delete-Filled h s ws f = elim (Option-cases (find_chain h s.chains)) [
  | inl n ↦ rw (n, delete) (record { free = f.free; chains = f.chains; writers = f.writers })
  | inr (es, e) ↦
      let p : Positive es = rw e at (find_chain-Found h s.chains f.chains) in
      rw (e, delete)
        (record {
          free = push_all-Positive es s.free p f.free;
          chains = drop_chain-Chains h s.chains f.chains;
          writers = f.writers;
        })
]

ran : ℕ × Both → Option (ℕ × Both) → ℕ × Both
ran d (some r) = r
ran d none = d

-- Write is its loop.
write_runs :
    (write_at : ℕ → ℕ → ℕ × Bool) (p : Str) (s : Store) (w : Writer) (r : ℕ × Both)
    → write write_at p (s, w) ≡ some r
    → write_loop write_at (length p) p 0 (s, w) ≡ r
unfolding write ran
write_runs write_at p s w r h = elim (Bool-cases (w.closed || s.failed)) [
  | inl f ↦ absurd (ground (arith, rw f at h))
  | inr f ↦ ap (ran (write_loop write_at (length p) p 0 (s, w))) (rw f at h)
]

write-NoneEmpty :
    (write_at : ℕ → ℕ → ℕ × Bool) (p : Str) (s : Store) (w : Writer) (r : ℕ × Both)
    → Honest write_at
    → NoneEmpty (s, w)
    → write write_at p (s, w) ≡ some r
    → NoneEmpty r.1
write-NoneEmpty write_at p s w r honest h e =
    subst (λ z. NoneEmpty z.1) (write_runs write_at p s w r e)
      (write_loop-NoneEmpty write_at honest (length p) p 0 (s, w) h)

Step-Filled :
    (write_at : ℕ → ℕ → ℕ → ℕ × Bool) (a b : System)
    → ((k : ℕ) → Honest (write_at k))
    → AllSane a.1
    → Filled a
    → Step write_at a b
    → Filled b
Step-Filled write_at a b honest sane f (opened s t w ws h room) =
    let (free, chains, chain) = create-Kept s (t, w) h in
    record {
      free = rw free (f.free);
      chains = rw chains (f.chains);
      writers = (rw chain tt, f.writers);
    }
Step-Filled write_at a b honest sane f (wrote call s t w v n p before after h) =
    let (vs, (q, ws)) = split before (w ∷ after) f.writers in
    let (_, (sw, _)) = AllSane-split before (w ∷ after) sane in
    let g = write-Grows (write_at call) p (s, w) n (t, v) (honest call) sw h in
    let (free, chain) =
      write-NoneEmpty (write_at call) p s w (n, (t, v)) (honest call) (f.free, q) h in
    record {
      free = free;
      chains = rw (g.chains) (f.chains);
      writers = join before (v ∷ after) vs (chain, ws);
    }
Step-Filled write_at a b honest sane f (closed s w before after c g) =
    let (vs, (p, ws)) = split before (w ∷ after) f.writers in
    close-Filled s w (before ++ after)
      (record { free = f.free; chains = f.chains; writers = join before after vs ws }) p
Step-Filled write_at a b honest sane f (deleted s ws h) = delete-Filled h s ws f

Reached-Filled :
    (write_at : ℕ → ℕ → ℕ → ℕ × Bool) (a : System)
    → ((k : ℕ) → Honest (write_at k))
    → Reached write_at a
    → Filled a
Reached-Filled write_at a honest (fresh file) = record { free = tt; chains = tt; writers = tt }
Reached-Filled write_at b honest (next {a} r step) =
    Step-Filled write_at a b honest ((Reached-Exact write_at a honest r).0.sane)
      (Reached-Filled write_at a honest r) step

abbrev done : Both → ℕ → Option (ℕ × Both)
done b n = some (n, b)

-- In a call in which the disk does not fail, whatever it did before, an open writer of a store in use
-- writes all the bytes it is given: the loop of Write ends before its fuel, the number of bytes, runs
-- out.
pub write_whole :
    (write_at : ℕ → ℕ → ℕ → ℕ × Bool) (call : ℕ) (s : Store) (w : Writer)
    (before after : List Writer) (p : Str)
    → ((k : ℕ) → Honest (write_at k))
    → NeverFails (write_at call)
    → Reached write_at (s, before ++ (w ∷ after))
    → w.closed ≡ false
    → s.failed ≡ false
    → (b : Both) × (write (write_at call) p (s, w) ≡ some (length p, b))
unfolding write
write_whole write_at call s w before after p honest never r c f =
    let filled = Reached-Filled write_at (s, before ++ (w ∷ after)) honest r in
    let (_, (q, _)) = split before (w ∷ after) filled.writers in
    let run = write_loop (write_at call) (length p) p 0 (s, w) in
    let count =
      write_loop_whole (write_at call) (honest call) (length p) p 0 (s, w) never (filled.free, q)
        (omega arith) in
    let all : run.0 ≡ length p = omega (arith, count) in
    let test : (w.closed || s.failed) ≡ false = ground (arith, c, f) in
    (run.1, rw test (ap (done run.1) all))
