-- ===== src/StringPool/Slots.antt =====
-- The entries of the string pool as a memory with numbered cells.
use go_msi.Prelude.{
  ℕ, zero, suc, ◌≤◌, ◌<◌, ◌≡◌, ◌≢◌, List, [], ◌∷◌, ◌++◌, some, length, length-set, get_elem?, set,
  get_elem?-set_self, get_elem?-set_ne, refl, ap, sym, arith,
}
use go_msi.StringPool.{Entry, at_id, write_id}

-- `fs` is `es` but for the cell `id`, which holds `e`.
pub record Writes (es fs : List Entry) (id : ℕ) (e : Entry) : Type 0 where
  pub here : at_id fs id ≡ some e
  pub others : (j : ℕ) → j ≢ id → at_id fs j ≡ at_id es j

in_range : (es : List Entry) (i : ℕ) (x : Entry) → get_elem? es i ≡ some x → i < length es
in_range [] i x h = ground arith
in_range (e ∷ es) zero x h = omega arith
in_range (e ∷ es) (suc i) x h = omega (arith, in_range es i x h)

pub at_id_range : (es : List Entry) (id : ℕ) (x : Entry) → at_id es id ≡ some x → id ≤ length es
at_id_range es zero x h = omega arith
at_id_range es (suc i) x h = omega (arith, in_range es i x h)

pub at_id_pos : (es : List Entry) (id : ℕ) (x : Entry) → at_id es id ≡ some x → 0 < id
at_id_pos es zero x h = ground arith
at_id_pos es (suc i) x h = omega arith

-- A cell that there is can be written.
pub write_id-Writes :
    (es : List Entry) (id : ℕ) (x e : Entry)
    → at_id es id ≡ some x
    → (fs : List Entry) × (write_id es id e ≡ some fs) × Writes es fs id e × (length fs ≡ length es)
unfolding write_id
write_id-Writes es zero x e h = ground arith
write_id-Writes es (suc i) x e h = (
  set es i e,
  rw h refl,
  record { here = get_elem?-set_self es i e (in_range es i x h); others = others },
  length-set es i e,
)
  where
    others : (j : ℕ) → j ≢ suc i → at_id (set es i e) j ≡ at_id es j
    others zero ne = refl
    others (suc j) ne = get_elem?-set_ne es e (λ eq. ne (ap suc (sym eq)))

append_here : (es : List Entry) (e : Entry) → get_elem? (es ++ (e ∷ [])) (length es) ≡ some e
append_here [] e = refl
append_here (x ∷ es) e = append_here es e

append_others :
    (es : List Entry) (e : Entry) (j : ℕ)
    → j ≢ length es
    → get_elem? (es ++ (e ∷ [])) j ≡ get_elem? es j
append_others [] e zero ne = absurd (ne refl)
append_others [] e (suc j) ne = refl
append_others (x ∷ es) e zero ne = refl
append_others (x ∷ es) e (suc j) ne = append_others es e j (λ eq. ne (ap suc eq))

-- A new entry is a write to the first cell behind the end.
pub append-Writes : (es : List Entry) (e : Entry) → Writes es (es ++ (e ∷ [])) (suc (length es)) e
append-Writes es e = record { here = append_here es e; others = others }
  where
    others : (j : ℕ) → j ≢ suc (length es) → at_id (es ++ (e ∷ [])) j ≡ at_id es j
    others zero ne = refl
    others (suc j) ne = append_others es e j (λ eq. ne (ap suc eq))
