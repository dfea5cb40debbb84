-- ===== src/StringPool/Refs.antt =====
-- The string pool as its users see it: how often each string is referenced, and which number has
-- which string.
use go_msi.Prelude.{
  ℕ, ◌+◌, ◌-◌, ◌<◌, ◌≡◌, inl, inr, ◌==◌, ltb, min, Bool, true, false, Bool-cases, List, [], Option,
  none, some, Option-cases, refl, ap, sym, ◌∙◌, arith,
}
use go_msi.Prelude.Text.{Str}
use go_msi.StringPool.{Entry, Pool, at_id, size, text_of, unused, lookup, max_refcount}
use go_msi.StringPool.Slots.{at_id_range, at_id_pos}
use go_msi.StringPool.Valid.{Live, Holds, Valid}

abbrev pub counts : Entry → ℕ × ℕ
counts e = (e.persistent, e.nonpersistent)

abbrev pub counts_at : Option Entry → ℕ × ℕ
counts_at (some e) = counts e
counts_at none = (0, 0)

abbrev pub refs_at : List Entry → Option ℕ → ℕ × ℕ
refs_at es (some id) = counts_at (at_id es id)
refs_at es none = (0, 0)

-- The references of a string, persistent and not.
abbrev pub refs : Pool → Str → ℕ × ℕ
refs p s = refs_at p.entries (p.index s)

-- One reference more, up to the ceiling, and one less.
abbrev pub one_more : Bool → ℕ × ℕ → ℕ × ℕ
one_more true c = (min max_refcount (c.0 + 1), c.1)
one_more false c = (c.0, min max_refcount (c.1 + 1))

abbrev pub one_less : Bool → ℕ × ℕ → ℕ × ℕ
one_less true c = (c.0 - 1, c.1)
one_less false c = (c.0, c.1 - 1)

pub refs_known :
    (p : Pool) (s : Str) (id : ℕ) (e : Entry)
    → p.index s ≡ some id
    → at_id p.entries id ≡ some e
    → refs p s ≡ counts e
refs_known p s id e h k = ap (refs_at p.entries) h ∙ ap counts_at k

pub refs_unknown : (p : Pool) (s : Str) → p.index s ≡ none → refs p s ≡ (0, 0)
refs_unknown p s h = ap (refs_at p.entries) h

-- A string keeps its references when its number and the entry there stay.
pub refs_same :
    (p q : Pool) (t : Str)
    → q.index t ≡ p.index t
    → ((j : ℕ) → p.index t ≡ some j → at_id q.entries j ≡ at_id p.entries j)
    → refs q t ≡ refs p t
refs_same p q t h k = elim (Option-cases (p.index t)) [
  | inl e ↦ refs_unknown q t (h ∙ e) ∙ sym (refs_unknown p t e)
  | inr (j, e) ↦
      ap (refs_at q.entries) (h ∙ e) ∙ ap counts_at (k j e) ∙ sym (ap (refs_at p.entries) e)
]

text-Live : (e : Entry) → Live e → text_of e ≡ (e.s, true)
text-Live e l = elim (Bool-cases (unused e)) [ inl u ↦ ground (arith, l, u) | inr u ↦ rw u refl ]

-- A number with an entry in use gives its string.
pub lookup-Live :
    (p : Pool) (id : ℕ) (e : Entry)
    → Valid p
    → at_id p.entries id ≡ some e
    → Live e
    → lookup p id ≡ some (e.s, true)
unfolding lookup
lookup-Live p id e v h l =
    let pos = at_id_pos p.entries id e h in
    let range = at_id_range p.entries id e h in
    let first : (id == 0) ≡ false = ground (arith, pos) in
    let second : ltb (size p.entries) id ≡ false = ground (arith, range, v.small) in
    rw first (rw second (rw h (ap some (text-Live e l))))

text_of-Live : (e : Entry) (t : Str) → text_of e ≡ (t, true) → (e.s ≡ t) × Live e
text_of-Live e t h = elim (Bool-cases (unused e)) [
  | inl u ↦ absurd (false_true (ap (λ r. r.1) (sym (rw u at h))))
  | inr u ↦ (ap (λ r. r.0) (rw u at h), ground (arith, u))
]
  where
    false_true : ¬ (true ≡ false)
    false_true e = ground arith

abbrev pub said : Str → Bool → Option (Str × Bool)
said s b = some (s, b)

-- What Lookup says of a number is the string of its entry.
pub lookup-Holds :
    (p : Pool) (id : ℕ) (t : Str) → 0 < id → lookup p id ≡ some (t, true) → Holds p.entries id t
unfolding lookup
lookup-Holds p id t pos h =
    let first : (id == 0) ≡ false = ground (arith, pos) in
    let k = rw first at h in
    elim (Bool-cases (ltb (size p.entries) id)) [
      | inl e ↦ absurd (not_found (rw e at k))
      | inr e ↦ elim (Option-cases (at_id p.entries id)) [
        | inl n ↦ absurd (no_panic (rw n at (rw e at k)))
        | inr (x, a) ↦
            let text : text_of x ≡ (t, true) = some_of (rw a at (rw e at k)) in
            let (u, l) = text_of-Live x t text in (x, a, u, l)
      ]
    ]
  where
    not_found : ¬ (said [] false ≡ said t true)
    not_found e = ground (arith, e)

    no_panic : ¬ (none ≡ said t true)
    no_panic e = ground (arith, e)

    some_of : {a b : Str × Bool} → some a ≡ some b → a ≡ b
    some_of e = grind (arith, e)
