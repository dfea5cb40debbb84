-- ===== src/StringPool/Keep.antt =====
-- Changes of one entry of a string pool that leave it valid.
use go_msi.Prelude.{ℕ, ◌+◌, ◌≡◌, inl, inr, List, some, length, ap, sym, ◌∙◌, arith}
use go_msi.Prelude.Text.{Str}
use go_msi.StringPool.{Entry, Pool, at_id}
use go_msi.StringPool.Slots.{Writes}
use go_msi.StringPool.Valid.{Live, Bounded, In, Holds, Dead, Valid, same, eq_id?}

pub not_dead : (x y : Entry) → x ≡ y → Live x → ¬ (y.persistent + y.nonpersistent ≡ 0)
not_dead x y eq l d =
    let k : x.persistent + x.nonpersistent ≡ 0 = rw (sym eq) at d in omega (arith, k, l)

-- An entry in use stays in use under its string: only its counts change.
module _ (p : Pool) (id : ℕ) (x e : Entry) (fs : List Entry) (v : Valid p)
    (at : at_id p.entries id ≡ some x) (live : Live x) (text : e.s ≡ x.s) (live' : Live e)
    (bound : Bounded e) (w : Writes p.entries fs id e) (len : length fs ≡ length p.entries) where
  sound : (s : Str) (j : ℕ) → p.index s ≡ some j → Holds fs j s
  sound s j h =
      let (y, k, t, l) = v.sound s j h in
      elim (eq_id? j id) [
        | inl eq ↦ (
          e,
          rw eq (w.here),
          text ∙ ap Entry.s (same p.entries id x y at (rw eq at k)) ∙ t,
          live',
        )
        | inr ne ↦ (y, w.others j ne ∙ k, t, l)
      ]

  complete : (j : ℕ) (y : Entry) → at_id fs j ≡ some y → Live y → p.index y.s ≡ some j
  complete j y h l = elim (eq_id? j id) [
    | inl eq ↦
        ap p.index (ap Entry.s (same fs id y e (rw eq at h) w.here) ∙ text)
        ∙ v.complete id x at live
        ∙ ap some (sym eq)
    | inr ne ↦ v.complete j y (sym (w.others j ne) ∙ h) l
  ]

  freed-Dead : (j : ℕ) → In j p.free → Dead fs j
  freed-Dead j i =
      let (y, k, d) = v.free_dead j i in
      elim (eq_id? j id) [
        | inl eq ↦ absurd (not_dead x y (same p.entries id x y at (rw eq at k)) live d)
        | inr ne ↦ (y, w.others j ne ∙ k, d)
      ]

  bounded : (j : ℕ) (y : Entry) → at_id fs j ≡ some y → Bounded y
  bounded j y h = elim (eq_id? j id) [
    | inl eq ↦ rw (same fs id e y w.here (rw eq at h)) at bound
    | inr ne ↦ v.bounded j y (sym (w.others j ne) ∙ h)
  ]

  pub recount-Valid : Valid (record p { entries = fs })
  recount-Valid = record {
    sound = sound;
    complete = complete;
    free_dead = freed-Dead;
    free_distinct = v.free_distinct;
    bounded = bounded;
    no_empty = v.no_empty;
    small = omega (arith, len, v.small);
  }
