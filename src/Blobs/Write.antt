-- ===== src/Blobs/Write.antt =====
-- Write of internal/blobstore/blobstore.go, and how the file grows by it.
use go_msi.Prelude.{
  ℕ, zero, suc, ◌+◌, ◌-◌, ◌≤◌, ◌<◌, ◌≡◌, Bool, true, Bool-cases, inl, inr, [], ◌∷◌, length, drop,
  refl, ap, ◌∙◌, arith,
}
use go_msi.Prelude.Text.{Str}
use go_msi.Blobs.{Both, turn, chunk_of, advance, round, write_loop}
use go_msi.Blobs.Cover.{inside, cover_both, Sane, AtEnd, Turned, turn-Turned}

-- From `b` to `c` the file grows at its end alone, and the bytes that it grows by are the writer's.
pub record Grows (b c : Both) : Type 0 where
  pub sane : Sane c.1
  pub grown : b.0.file_end ≤ c.0.file_end
  pub chains : c.0.chains ≡ b.0.chains
  pub handle : c.1.h ≡ b.1.h
  pub next : c.0.next_h ≡ b.0.next_h
  pub covers :
      (x : ℕ)
      → cover_both c x ≡ cover_both b x + inside b.0.file_end (c.0.file_end - b.0.file_end) x

stay-Grows : (b : Both) → Sane b.1 → Grows b b
stay-Grows b h = record {
  sane = h;
  grown = omega arith;
  chains = refl;
  handle = refl;
  next = refl;
  covers = λ x. ground arith;
}

inside_split : (o m n x : ℕ) → inside o (m + n) x ≡ inside o m x + inside (o + m) n x
inside_split o m n x = ground arith

join-Grows : {a b c : Both} → Grows a b → Grows b c → Grows a c
join-Grows {a} {b} {c} g h = record {
  sane = h.sane;
  grown = omega (arith, g.grown, h.grown);
  chains = h.chains ∙ g.chains;
  handle = h.handle ∙ g.handle;
  next = h.next ∙ g.next;
  covers = λ x. ground (arith, g.grown, h.grown, g.covers x, h.covers x);
}

Turned-Grows : (b c d : Both) → Turned b c → Grows c d → Grows b d
Turned-Grows b c d t g = record {
  sane = g.sane;
  grown = omega (arith, t.end, g.grown);
  chains = g.chains ∙ t.chains;
  handle = g.handle ∙ t.handle;
  next = g.next ∙ t.next;
  covers = λ x.
      rw (t.end) at (g.covers x)
      ∙ ap (λ y. y + inside b.0.file_end (d.0.file_end - b.0.file_end) x) (t.covers x);
}

advance-Grows :
    (n : ℕ) (failed : Bool) (p : Str) (k : ℕ) (b : Both)
    → Sane b.1
    → AtEnd b
    → n ≤ chunk_of b.1 k
    → Grows b (advance n failed p b)
unfolding advance chunk_of
advance-Grows n failed p k (s, w) h at_end le = elim (Bool-cases w.growing) [
  | inl g ↦ rw g (record {
    sane = record { within = omega arith; grows = λ _. refl };
    grown = omega (arith, h.grows g, at_end g);
    chains = refl;
    handle = refl;
    next = refl;
    covers = λ x. ground (arith, h.grows g, at_end g);
  })
  | inr g ↦ rw g (record {
    sane = record { within = omega (arith, rw g at le, h.within); grows = λ e. ground (arith, e) };
    grown = omega arith;
    chains = refl;
    handle = refl;
    next = refl;
    covers = λ x. ground arith;
  })
]

-- What io.WriterAt promises: no more bytes than there are, and an error if there are fewer.
pub record Honest (write_at : ℕ → ℕ → ℕ × Bool) : Type 0 where
  pub most : (o k : ℕ) → (write_at o k).0 ≤ k
  pub short : (o k : ℕ) → (write_at o k).0 < k → (write_at o k).1 ≡ true

module _ (write_at : ℕ → ℕ → ℕ × Bool) (honest : Honest write_at) where
  round-Grows : (p : Str) (b : Both) → Sane b.1 → Grows b (round write_at p b).1
  unfolding round
  round-Grows p b h =
      let c = turn b in
      let t = turn-Turned b h in
      let o = c.1.cur.offset + c.1.cur_len in
      let k = chunk_of c.1 (length p) in
      Turned-Grows b c _ t (
        advance-Grows (write_at o k).0 (write_at o k).1 p (length p) c t.sane t.at_end
          (honest.most o k))

  pub write_loop-Grows :
      (fuel : ℕ) (p : Str) (n : ℕ) (b : Both)
      → Sane b.1
      → Grows b (write_loop write_at fuel p n b).1
  unfolding write_loop
  write_loop-Grows zero p n b h = stay-Grows b h
  write_loop-Grows (suc fuel) [] n b h = stay-Grows b h
  write_loop-Grows (suc fuel) (c ∷ p) n b h =
      let r = round write_at (c ∷ p) b in
      let g = round-Grows (c ∷ p) b h in
      let rest = write_loop-Grows fuel (drop r.0.0 (c ∷ p)) (n + r.0.0) r.1 g.sane in
      elim (Bool-cases r.0.1) [ inl e ↦ rw e g | inr e ↦ rw e (join-Grows g rest) ]
