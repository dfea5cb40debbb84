-- ===== src/StringPool/Interned.antt =====
-- What Intern of internal/stringpool/stringpool.go does for a string that the pool has.
use go_msi.Prelude.{
  ℕ, ◌≡◌, ◌≢◌, inl, inr, Bool, true, false, Bool-cases, List, [], some, length, refl, ap, sym, ◌∙◌,
  arith,
}
use go_msi.Prelude.Text.{Str, eq_str, eq_str_iff}
use go_msi.StringPool.{Entry, Pool, at_id, lookup, count_up, intern_at, intern}
use go_msi.StringPool.Slots.{Writes}
use go_msi.StringPool.Valid.{Live, Bounded, Holds, Valid, same, eq_id?}
use go_msi.StringPool.Keep.{recount-Valid}
use go_msi.StringPool.Refs.{
  refs, counts, one_more, refs_known, refs_same, lookup-Live, lookup-Holds, said,
}

-- From `p` to `q` the string `s` gets one reference more and has the number `id`; no other string's
-- references change, and no number changes its string.
pub record Interns (s : Str) (k : Bool) (p : Pool) (id : ℕ) (q : Pool) : Type 0 where
  pub valid : Valid q
  pub found : lookup q id ≡ some (s, true)
  pub counted : refs q s ≡ one_more k (refs p s)
  pub others : (t : Str) → t ≢ s → refs q t ≡ refs p t
  pub kept : (j : ℕ) (t : Str) → lookup p j ≡ some (t, true) → lookup q j ≡ some (t, true)

count_up_text : (k : Bool) (e : Entry) → (count_up k e).s ≡ e.s
unfolding count_up
count_up_text true e = ground arith
count_up_text false e = ground arith

count_up-Live : (k : Bool) (e : Entry) → Live e → Live (count_up k e)
unfolding count_up
count_up-Live true e l = ground arith
count_up-Live false e l = ground arith

count_up-Bounded : (k : Bool) (e : Entry) → Bounded e → Bounded (count_up k e)
unfolding count_up
count_up-Bounded true e b = ground arith
count_up-Bounded false e b = ground arith

counts-count_up : (k : Bool) (e : Entry) → Bounded e → counts (count_up k e) ≡ one_more k (counts e)
unfolding count_up
counts-count_up true e b = ground arith
counts-count_up false e b = ground arith

lookup_zero : (p : Pool) → lookup p 0 ≡ some ([], true)
unfolding lookup
lookup_zero p = refl

-- Numbers keep their strings if the entries in use do.
pub lookup_kept :
    (p q : Pool)
    → Valid q
    → (j : ℕ) (t : Str) → (Holds p.entries j t → Holds q.entries j t)
    → lookup p j ≡ some (t, true)
    → lookup q j ≡ some (t, true)
lookup_kept p q v j t k h = elim (eq_id? j 0) [
  | inl e ↦ ap (lookup q) e ∙ lookup_zero q ∙ sym (lookup_zero p) ∙ ap (lookup p) (sym e) ∙ h
  | inr ne ↦
      let (y, a, u, l) = k (lookup-Holds p j t (omega (arith, ne)) h) in
      lookup-Live q j y v a l ∙ ap (λ b. said b true) u
]

-- The equation of Intern on a string that is not empty.
pub intern_eq :
    (s : Str) (k : Bool) (p : Pool) → s ≢ [] → intern s k p ≡ intern_at s k p (p.index s)
unfolding intern
intern_eq s k p filled = elim (Bool-cases (eq_str s [])) [
  | inl e ↦ absurd (filled ((eq_str_iff s []).0 e))
  | inr e ↦ rw e refl
]

-- A string that the pool has.
module _ (s : Str) (k : Bool) (p : Pool) (v : Valid p) (id : ℕ) (known : p.index s ≡ some id)
    (x : Entry) (at : at_id p.entries id ≡ some x) (text : x.s ≡ s) (live : Live x)
    (fs : List Entry) (w : Writes p.entries fs id (count_up k x))
    (len : length fs ≡ length p.entries) where
  abbrev up : Pool
  up = record p { entries = fs }

  up-Valid : Valid up
  up-Valid =
      recount-Valid p id x (count_up k x) fs v at live (count_up_text k x) (count_up-Live k x live)
        (count_up-Bounded k x (v.bounded id x at)) w len

  up-Holds : (j : ℕ) (t : Str) → Holds p.entries j t → Holds fs j t
  up-Holds j t (y, a, u, l) = elim (eq_id? j id) [
    | inl e ↦ (
      count_up k x,
      rw e (w.here),
      count_up_text k x ∙ ap Entry.s (same p.entries id x y at (rw e at a)) ∙ u,
      count_up-Live k x live,
    )
    | inr ne ↦ (y, w.others j ne ∙ a, u, l)
  ]

  up_others : (t : Str) → t ≢ s → (j : ℕ) → p.index t ≡ some j → at_id fs j ≡ at_id p.entries j
  up_others t ne j h =
      let (y, a, u, l) = v.sound t j h in
      w.others j (λ e. ne (sym u ∙ ap Entry.s (same p.entries id y x (rw e at a) at) ∙ text))

  pub known-Interns : Interns s k p id up
  known-Interns = record {
    valid = up-Valid;
    found =
        lookup-Live up id (count_up k x) up-Valid w.here (count_up-Live k x live)
        ∙ ap (λ b. said b true) (count_up_text k x ∙ text);
    counted =
        refs_known up s id (count_up k x) known w.here
        ∙ counts-count_up k x (v.bounded id x at)
        ∙ ap (one_more k) (sym (refs_known p s id x known at));
    others = λ t ne. refs_same p up t refl (up_others t ne);
    kept = λ j t. lookup_kept p up up-Valid j t (up-Holds j t);
  }
