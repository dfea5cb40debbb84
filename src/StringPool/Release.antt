-- ===== src/StringPool/Release.antt =====
-- Release of internal/stringpool/stringpool.go: one reference less to one string.
use go_msi.Prelude.{
  ℕ, ◌+◌, ◌-◌, ◌<◌, ◌≡◌, ◌≢◌, ◌⊎◌, inl, inr, ◌==◌, ◌||◌, ltb, Bool, true, false, Bool-cases, [],
  ◌∷◌, none, some, refl, ap, sym, ◌∙◌, arith,
}
use go_msi.Prelude.Text.{Str}
use go_msi.StringPool.{
  Entry, Pool, at_id, size, index_set, unused, lookup, count_down, release_at, release,
}
use go_msi.StringPool.Slots.{Writes, write_id-Writes, at_id_range, at_id_pos}
use go_msi.StringPool.Valid.{Live, Bounded, Holds, Valid, same, index_set_self, index_set_ne}
use go_msi.StringPool.Keep.{recount-Valid}
use go_msi.StringPool.Place.{leave-Valid}
use go_msi.StringPool.Refs.{
  refs, counts, one_less, refs_known, refs_unknown, refs_same, lookup-Holds,
}
use go_msi.StringPool.Interned.{lookup_kept}

-- From `p` to `q` the string `s` has one reference less, if it had one of that kind, and no other
-- string's references or number change.
pub record Releases (s : Str) (k : Bool) (p q : Pool) : Type 0 where
  pub valid : Valid q
  pub counted : refs q s ≡ one_less k (refs p s)
  pub others : (t : Str) → t ≢ s → refs q t ≡ refs p t
  pub kept : (j : ℕ) (t : Str) → t ≢ s → lookup p j ≡ some (t, true) → lookup q j ≡ some (t, true)

pub release_eq :
    (p : Pool) (id : ℕ) (k : Bool) (x : Entry)
    → Valid p
    → at_id p.entries id ≡ some x
    → release id k p ≡ release_at id p (count_down k x)
unfolding release
release_eq p id k x v at =
    let pos = at_id_pos p.entries id x at in
    let range = at_id_range p.entries id x at in
    let test : (id == 0 || ltb (size p.entries) id) ≡ false = ground (arith, pos, range, v.small) in
    rw test (rw at refl)

-- What taking a reference does to an entry.
abbrev Lower : Bool → Entry → Entry → Type 0
Lower k x e =
    (e.s ≡ x.s)
    × (counts e ≡ one_less k (counts x))
    × (e.persistent + e.nonpersistent < x.persistent + x.nonpersistent)

-- Either there is no reference of the kind, or there is one less.
count_down_cases :
    (k : Bool) (x : Entry)
    → ((count_down k x ≡ none) × (one_less k (counts x) ≡ counts x))
      ⊎ ((e : Entry) × (count_down k x ≡ some e) × Lower k x e)
unfolding count_down
count_down_cases true x = elim (Bool-cases (ltb 0 x.persistent)) [
  | inl e ↦
      inr (record x { persistent = x.persistent - 1 }, rw e refl, (refl, refl, ground (arith, e)))
  | inr e ↦ inl (rw e refl, ground (arith, e))
]
count_down_cases false x = elim (Bool-cases (ltb 0 x.nonpersistent)) [
  | inl e ↦
      inr (
        record x { nonpersistent = x.nonpersistent - 1 },
        rw e refl,
        (refl, refl, ground (arith, e)),
      )
  | inr e ↦ inl (rw e refl, ground (arith, e))
]

one_less-Bounded :
    (k : Bool) (x e : Entry) → Bounded x → counts e ≡ one_less k (counts x) → Bounded e
one_less-Bounded true x e b h =
    (omega (arith, ap (λ c. c.0) h, b.0), omega (arith, ap (λ c. c.1) h, b.1))
one_less-Bounded false x e b h =
    (omega (arith, ap (λ c. c.0) h, b.0), omega (arith, ap (λ c. c.1) h, b.1))

-- The string of an entry in use, and what Release makes of it.
module _ (s : Str) (k : Bool) (p : Pool) (v : Valid p) (id : ℕ) (x : Entry)
    (at : at_id p.entries id ≡ some x) (text : x.s ≡ s) (live : Live x) where
  known : p.index s ≡ some id
  known = ap p.index (sym text) ∙ v.complete id x at live

  before : refs p s ≡ counts x
  before = refs_known p s id x known at

  -- Another string stands at another number.
  apart : (t : Str) → t ≢ s → (j : ℕ) → Holds p.entries j t → j ≢ id
  apart t ne j (y, a, u, l) e =
      ne (sym u ∙ ap Entry.s (same p.entries id y x (rw e at a) at) ∙ text)

  idle-Releases : one_less k (counts x) ≡ counts x → Releases s k p p
  idle-Releases h = record {
    valid = v;
    counted = before ∙ sym h ∙ ap (one_less k) (sym before);
    others = λ t ne. refl;
    kept = λ j t ne h. h;
  }

  -- A pool with a cell changed that all other strings are found in as before.
  changed-Releases :
      (q : Pool) (e : Entry)
      → Valid q
      → Writes p.entries q.entries id e
      → ((t : Str) → t ≢ s → q.index t ≡ p.index t)
      → refs q s ≡ one_less k (counts x)
      → Releases s k p q
  changed-Releases q e u w index c = record {
    valid = u;
    counted = c ∙ ap (one_less k) (sym before);
    others =
        λ t ne. refs_same p q t (index t ne) (λ j h. w.others j (apart t ne j (v.sound t j h)));
    kept = λ j t ne.
        lookup_kept p q u j t λ (y, a, b, l). (y, w.others j (apart t ne j (y, a, b, l)) ∙ a, b, l);
  }

-- Release of a number that a string in use has: a reference less of the kind asked for, if there is
-- one. A string without references leaves the pool.
module _ (s : Str) (k : Bool) (p : Pool) (v : Valid p) (id : ℕ) (x : Entry)
    (at : at_id p.entries id ≡ some x) (text : x.s ≡ s) (live : Live x) where
  abbrev Result : Type 0
  Result = (q : Pool) × (release id k p ≡ some q) × Releases s k p q

  stays : (e : Entry) → count_down k x ≡ some e → Lower k x e → unused e ≡ false → Result
  unfolding release_at
  stays e h (t, c, less) u =
      let l : Live e = ground (arith, u) in
      let (fs, f, w, len) = write_id-Writes p.entries id x e at in
      let q = record p { entries = fs } in
      let b = one_less-Bounded k x e (v.bounded id x at) c in
      (
        q,
        release_eq p id k x v at ∙ rw h (rw u (rw f refl)),
        changed-Releases s k p v id x at text live q e
            (recount-Valid p id x e fs v at live t l b w len) w (λ t' ne. refl)
            (refs_known q s id e (known s k p v id x at text live) w.here ∙ c),
      )

  gone : (e : Entry) → count_down k x ≡ some e → Lower k x e → unused e ≡ true → Result
  unfolding release_at
  gone e h (t, c, less) u =
      let d : e.persistent + e.nonpersistent ≡ 0 = ground (arith, u) in
      let empty : Entry = record e { s = [] } in
      let (fs, f, w, len) = write_id-Writes p.entries id x empty at in
      let q = record p { index = index_set e.s none p.index; entries = fs; free = id ∷ p.free } in
      let same_s : e.s ≡ s = t ∙ text in
      let out : q.index s ≡ none =
        ap (λ z. index_set z none p.index s) same_s ∙ index_set_self s none p.index in
      let zero_counts : counts e ≡ (0, 0) = ground (arith, d) in
      (
        q,
        release_eq p id k x v at ∙ rw h (rw u (rw f refl)),
        changed-Releases s k p v id x at text live q empty
            (rw t (leave-Valid p id x empty fs v at live d w len)) w
            (λ t' ne. index_set_ne e.s t' none p.index (λ eq. ne (eq ∙ same_s)))
            (refs_unknown q s out ∙ sym zero_counts ∙ c),
      )

  released : Result
  unfolding release_at
  released = elim (count_down_cases k x) [
    | inl (h, same_counts) ↦ (
      p,
      release_eq p id k x v at ∙ rw h refl,
      idle-Releases s k p v id x at text live same_counts,
    )
    | inr (e, h, lower) ↦ elim (Bool-cases (unused e)) [
      | inl u ↦ gone e h lower u
      | inr u ↦ stays e h lower u
    ]
  ]

-- On a valid pool, Release of a number that has a string succeeds: the pool stays valid, the string
-- has one reference less of the kind asked for, if it had one, and the references and the numbers of
-- all other strings are as they were.
pub release-Releases :
    (s : Str) (k : Bool) (p : Pool) (id : ℕ)
    → Valid p
    → 0 < id
    → lookup p id ≡ some (s, true)
    → (q : Pool) × (release id k p ≡ some q) × Releases s k p q
release-Releases s k p id v pos h =
    let (x, at, text, live) = lookup-Holds p id s pos h in released s k p v id x at text live
