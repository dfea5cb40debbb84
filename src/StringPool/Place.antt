-- ===== src/StringPool/Place.antt =====
-- A string that is new to the pool, and one that leaves it.
use go_msi.Prelude.{
  ℕ, ◌+◌, ◌^◌, ◌<◌, ◌≡◌, ◌≢◌, inl, inr, List, [], ◌∷◌, Option, none, some, length, ap, sym, ◌∙◌,
  arith,
}
use go_msi.Prelude.Text.{Str}
use go_msi.StringPool.{Entry, Pool, at_id, index_set}
use go_msi.StringPool.Slots.{Writes}
use go_msi.StringPool.Valid.{
  Live, Bounded, In, Distinct, Holds, Dead, Valid, same, eq_id?, eq_str?, index_set_self,
  index_set_ne,
}
use go_msi.StringPool.Keep.{not_dead}

none-some : {A : Type 0} {o : Option A} {a : A} → o ≡ none → ¬ (o ≡ some a)
none-some e f = ground (arith, e, f)

some_eq : {i j : ℕ} → some i ≡ some j → i ≡ j
some_eq e = ground (arith, e)

-- An entry for a string that the index does not know, in a cell that nothing lives in.
module _ (p : Pool) (s : Str) (id : ℕ) (e : Entry) (fs : List Entry) (free : List ℕ) (v : Valid p)
    (filled : s ≢ []) (fresh : p.index s ≡ none)
    (vacant : (y : Entry) → at_id p.entries id ≡ some y → ¬ Live y) (text : e.s ≡ s) (live : Live e)
    (bound : Bounded e) (w : Writes p.entries fs id e)
    (kept : (j : ℕ) → In j free → In j p.free × (j ≢ id)) (distinct : Distinct free)
    (small : length fs < 2 ^ 32) where
  abbrev index : Str → Option ℕ
  index = index_set s (some id) p.index

  sound : (t : Str) (j : ℕ) → index t ≡ some j → Holds fs j t
  sound t j h = elim (eq_str? t s) [
    | inl eq ↦
        let eq_j : j ≡ id = some_eq (sym h ∙ ap index eq ∙ index_set_self s (some id) p.index) in
        (e, rw eq_j (w.here), text ∙ sym eq, live)
    | inr ne ↦
        let (y, k, u, l) = v.sound t j (sym (index_set_ne s t (some id) p.index ne) ∙ h) in
        (y, w.others j (λ eq. vacant y (rw eq at k) l) ∙ k, u, l)
  ]

  complete : (j : ℕ) (y : Entry) → at_id fs j ≡ some y → Live y → index y.s ≡ some j
  complete j y h l = elim (eq_id? j id) [
    | inl eq ↦
        ap index (ap Entry.s (same fs id y e (rw eq at h) w.here) ∙ text)
        ∙ index_set_self s (some id) p.index
        ∙ ap some (sym eq)
    | inr ne ↦
        let k = v.complete j y (sym (w.others j ne) ∙ h) l in
        index_set_ne s y.s (some id) p.index (λ eq. none-some fresh (sym (ap p.index eq) ∙ k)) ∙ k
  ]

  freed-Dead : (j : ℕ) → In j free → Dead fs j
  freed-Dead j i =
      let (i', ne) = kept j i in let (y, k, d) = v.free_dead j i' in (y, w.others j ne ∙ k, d)

  bounded : (j : ℕ) (y : Entry) → at_id fs j ≡ some y → Bounded y
  bounded j y h = elim (eq_id? j id) [
    | inl eq ↦ rw (same fs id e y w.here (rw eq at h)) at bound
    | inr ne ↦ v.bounded j y (sym (w.others j ne) ∙ h)
  ]

  pub place-Valid : Valid (record p { index = index; entries = fs; free = free })
  place-Valid = record {
    sound = sound;
    complete = complete;
    free_dead = freed-Dead;
    free_distinct = distinct;
    bounded = bounded;
    no_empty = index_set_ne s [] (some id) p.index (λ eq. filled (sym eq)) ∙ v.no_empty;
    small = small;
  }

-- An entry whose last reference goes: its string leaves the index, and its number becomes free.
module _ (p : Pool) (id : ℕ) (x e : Entry) (fs : List Entry) (v : Valid p)
    (at : at_id p.entries id ≡ some x) (live : Live x) (dead : e.persistent + e.nonpersistent ≡ 0)
    (w : Writes p.entries fs id e) (len : length fs ≡ length p.entries) where
  abbrev left : Str → Option ℕ
  left = index_set x.s none p.index

  left_sound : (t : Str) (j : ℕ) → left t ≡ some j → Holds fs j t
  left_sound t j h = elim (eq_str? t x.s) [
    | inl eq ↦ absurd (none-some (index_set_self x.s none p.index) (sym (ap left eq) ∙ h))
    | inr ne ↦
        let (y, k, u, l) = v.sound t j (sym (index_set_ne x.s t none p.index ne) ∙ h) in
        (
          y,
          w.others j (λ eq. ne (sym u ∙ ap Entry.s (same p.entries id y x (rw eq at k) at))) ∙ k,
          u,
          l,
        )
  ]

  left_complete : (j : ℕ) (y : Entry) → at_id fs j ≡ some y → Live y → left y.s ≡ some j
  left_complete j y h l = elim (eq_id? j id) [
    | inl eq ↦ absurd (not_dead y e (same fs id y e (rw eq at h) w.here) l dead)
    | inr ne ↦
        let k = v.complete j y (sym (w.others j ne) ∙ h) l in
        index_set_ne x.s y.s none p.index
          (λ eq. ne (some_eq (sym k ∙ ap p.index eq ∙ v.complete id x at live)))
        ∙ k
  ]

  left_free : (j : ℕ) → In j (id ∷ p.free) → Dead fs j
  left_free j (inl eq) = (e, rw eq (w.here), dead)
  left_free j (inr i) =
      let (y, k, d) = v.free_dead j i in
      (y, w.others j (λ eq. not_dead x y (same p.entries id x y at (rw eq at k)) live d) ∙ k, d)

  not_free : ¬ In id p.free
  not_free i = let (y, k, d) = v.free_dead id i in not_dead x y (same p.entries id x y at k) live d

  left-Bounded : (j : ℕ) (y : Entry) → at_id fs j ≡ some y → Bounded y
  left-Bounded j y h = elim (eq_id? j id) [
    | inl eq ↦
        let none_left : Bounded e = (omega (arith, dead), omega (arith, dead)) in
        rw (same fs id e y w.here (rw eq at h)) at none_left
    | inr ne ↦ v.bounded j y (sym (w.others j ne) ∙ h)
  ]

  pub leave-Valid : Valid (record p { index = left; entries = fs; free = id ∷ p.free })
  leave-Valid = record {
    sound = left_sound;
    complete = left_complete;
    free_dead = left_free;
    free_distinct = (not_free, v.free_distinct);
    bounded = left-Bounded;
    no_empty =
        index_set_ne x.s [] none p.index
          (λ eq. none-some v.no_empty (ap p.index eq ∙ v.complete id x at live))
        ∙ v.no_empty;
    small = omega (arith, len, v.small);
  }
