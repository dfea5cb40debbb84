-- ===== src/StringPool/Intern.antt =====
-- Intern of internal/stringpool/stringpool.go: one reference more to one string.
use go_msi.Prelude.{
  ℕ, suc, ◌+◌, ◌^◌, ◌<◌, ◌≡◌, ◌≢◌, inl, inr, Bool, true, false, List, [], ◌∷◌, ◌++◌, none, some,
  Option-cases, length, length-append, refl, ap, sym, ◌∙◌, arith,
}
use go_msi.Prelude.Text.{Str}
use go_msi.StringPool.{
  Entry, Pool, at_id, size, index_set, count_up, first_use, place, intern_at, intern,
}
use go_msi.StringPool.Slots.{Writes, write_id-Writes, append-Writes, at_id_range}
use go_msi.StringPool.Valid.{Live, Bounded, In, Holds, Valid, same, index_set_self, index_set_ne}
use go_msi.StringPool.Keep.{not_dead}
use go_msi.StringPool.Place.{place-Valid}
use go_msi.StringPool.Interned.{Interns, lookup_kept, intern_eq, known-Interns}
use go_msi.StringPool.Refs.{
  counts, one_more, refs_known, refs_unknown, refs_same, lookup-Live, said,
}

first-Live : (s : Str) (b : Bool) → Live (first_use s b)
first-Live s true = omega arith
first-Live s false = omega arith

first_text : (s : Str) (b : Bool) → (first_use s b).s ≡ s
first_text s true = refl
first_text s false = refl

first_counts : (s : Str) (b : Bool) → counts (first_use s b) ≡ one_more b (0, 0)
first_counts s true = refl
first_counts s false = refl

-- A string that is new to the pool, at a number without an entry in use.
module _ (s : Str) (k : Bool) (p q : Pool) (v : Valid p) (u : Valid q) (id : ℕ)
    (fresh : p.index s ≡ none) (known : q.index s ≡ some id)
    (index : (t : Str) → t ≢ s → q.index t ≡ p.index t)
    (vacant : (y : Entry) → at_id p.entries id ≡ some y → ¬ Live y)
    (w : Writes p.entries q.entries id (first_use s k)) where
  new_others : (t : Str) (j : ℕ) → p.index t ≡ some j → at_id q.entries j ≡ at_id p.entries j
  new_others t j h = let (y, a, _, l) = v.sound t j h in w.others j (λ e. vacant y (rw e at a) l)

  new-Holds : (j : ℕ) (t : Str) → Holds p.entries j t → Holds q.entries j t
  new-Holds j t (y, a, u', l) = (y, w.others j (λ e. vacant y (rw e at a) l) ∙ a, u', l)

  new-Interns : Interns s k p id q
  new-Interns = record {
    valid = u;
    found =
        lookup-Live q id (first_use s k) u w.here (first-Live s k)
        ∙ ap (λ b. said b true) (first_text s k);
    counted =
        refs_known q s id (first_use s k) known w.here
        ∙ first_counts s k
        ∙ ap (one_more k) (sym (refs_unknown p s fresh));
    others = λ t ne. refs_same p q t (index t ne) (new_others t);
    kept = λ j t. lookup_kept p q u j t (new-Holds j t);
  }

abbrev Result : Str → Bool → Pool → Type 0
Result s k p = (id : ℕ) × (q : Pool) × (intern s k p ≡ some (id, q)) × Interns s k p id q

known_lem :
    (s : Str) (k : Bool) (p : Pool) (id : ℕ) → s ≢ [] → Valid p → p.index s ≡ some id → Result s k p
unfolding intern_at
known_lem s k p id filled v h =
    let (x, a, u, l) = v.sound s id h in
    let (fs, e, w, len) = write_id-Writes p.entries id x (count_up k x) a in
    (
      id,
      record p { entries = fs },
      intern_eq s k p filled ∙ rw h (rw a (rw e refl)),
      known-Interns s k p v id h x a u l fs w len,
    )

first-Bounded : (s : Str) (k : Bool) → Bounded (first_use s k)
first-Bounded s true = (omega arith, omega arith)
first-Bounded s false = (omega arith, omega arith)

append_size :
    (es : List Entry) (e : Entry) → length es + 1 < 2 ^ 32 → size (es ++ (e ∷ [])) ≡ suc (length es)
append_size es e h = omega (arith, h, length-append es (e ∷ []))

-- The cell of a new string comes from the free numbers, or is appended.
new_lem :
    (s : Str) (k : Bool) (p : Pool) (free : List ℕ)
    → s ≢ []
    → Valid p
    → length p.entries + 1 < 2 ^ 32
    → p.index s ≡ none
    → p.free ≡ free
    → (id : ℕ) × (q : Pool) × (place s (first_use s k) p free ≡ some (id, q)) × Interns s k p id q
unfolding place
new_lem s k p [] filled v room fresh f =
    let e = first_use s k in
    let fs = p.entries ++ (e ∷ []) in
    let number : size fs ≡ suc (length p.entries) = append_size p.entries e room in
    let w : Writes p.entries fs (size fs) e = rw number (append-Writes p.entries e) in
    let vacant : (y : Entry) → at_id p.entries (size fs) ≡ some y → ¬ Live y =
      λ y h l. omega (arith, number, at_id_range p.entries (size fs) y h) in
    let behind : (j : ℕ) → In j p.free → In j p.free × (j ≢ size fs) = λ j i.
      let (y, a, d) = v.free_dead j i in
      (i, λ eq. omega (arith, eq, number, at_id_range p.entries j y a)) in
    let u =
      place-Valid p s (size fs) e fs p.free v filled fresh vacant (first_text s k) (first-Live s k)
        (first-Bounded s k) w behind v.free_distinct
        (omega (arith, room, length-append p.entries (e ∷ []))) in
    (
      size fs,
      record p { index = index_set s (some (size fs)) p.index; entries = fs },
      refl,
      new-Interns s k p _ v u (size fs) fresh (index_set_self s (some (size fs)) p.index)
          (λ t ne. index_set_ne s t (some (size fs)) p.index ne) vacant w,
    )
new_lem s k p (id ∷ free) filled v room fresh f =
    let (x, a, d) = v.free_dead id (rw f (inl refl)) in
    let (fs, e, w, len) = write_id-Writes p.entries id x (first_use s k) a in
    let vacant : (y : Entry) → at_id p.entries id ≡ some y → ¬ Live y =
      λ y h l. not_dead y x (same p.entries id y x h a) l d in
    let (not_in, distinct) = rw f at (v.free_distinct) in
    let rest : (j : ℕ) → In j free → In j p.free × (j ≢ id) =
      λ j i. (rw f (inr i), λ eq. not_in (rw eq at i)) in
    let u =
      place-Valid p s id (first_use s k) fs free v filled fresh vacant (first_text s k)
        (first-Live s k) (first-Bounded s k) w rest distinct (omega (arith, len, v.small)) in
    (
      id,
      record p { index = index_set s (some id) p.index; entries = fs; free = free },
      rw e refl,
      new-Interns s k p _ v u id fresh (index_set_self s (some id) p.index)
          (λ t ne. index_set_ne s t (some id) p.index ne) vacant w,
    )

-- On a valid pool with room for one number more, Intern of a string that is not empty succeeds: the
-- pool stays valid, the string has the number returned and one reference more of the kind asked for,
-- up to the ceiling, the references of every other string are as they were, and no number changes
-- its string.
pub intern-Interns :
    (s : Str) (k : Bool) (p : Pool)
    → s ≢ []
    → Valid p
    → length p.entries + 1 < 2 ^ 32
    → (id : ℕ) × (q : Pool) × (intern s k p ≡ some (id, q)) × Interns s k p id q
unfolding intern_at
intern-Interns s k p filled v room = elim (Option-cases (p.index s)) [
  | inl n ↦
      let (id, q, e, i) = new_lem s k p p.free filled v room n refl in
      (id, q, intern_eq s k p filled ∙ rw n e, i)
  | inr (id, h) ↦ known_lem s k p id filled v h
]
