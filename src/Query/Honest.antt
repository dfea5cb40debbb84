-- ===== src/Query/Honest.antt =====
-- What the compiler of msidb/query.go promises of a condition: it reads no table behind its level,
-- and its seek gives the first key of every record that it matches.
use go_msi.Prelude.{
  ℕ, zero, suc, ◌<◌, ◌≡◌, refl, ap, sym, ◌∙◌, inl, inr, ◌&&◌, ◌==◌, ltb, not, Bool, true, false,
  Bool-cases, List, [], ◌∷◌, length, get_or, take, Option, none, some, arith, if◌then◌else◌,
}
use go_msi.Prelude.Int.{ℤ}
use go_msi.Sql.{
  CompareOp, op_equal, op_not_equal, op_less, op_less_equal, op_greater, op_greater_equal,
}
use go_msi.Table.{Table, no_row, cell_at, col_at}
use go_msi.Query.{
  Query, Tuple, BoundCol, raw_of, ordinal, ordinal_of, table_at, no_table, first_key, eq_ℤ,
}
use go_msi.Query.Compile.{
  Cond, is_equal_op, compares, comparison_cond, equal_cond, null_cond, is_integer, iff,
}
use go_msi.Query.Walk.{key_ordinal}
use go_msi.Query.Constants.{Small, compares_found}
use go_msi.Query.Resolve.{Bound}

pub record CondHonest (ts : List Table) (c : Cond) : Type 0 where
  pub inside : c.level < length ts
  pub local : (u v : Tuple) → take (suc c.level) u ≡ take (suc c.level) v → c.match u ≡ c.match v
  pub early :
      (f : Tuple → ℤ)
      → c.seek ≡ some f
      → (u v : Tuple) → take c.level u ≡ take c.level v
      → f u ≡ f v
  pub found :
      (f : Tuple → ℤ)
      → c.seek ≡ some f
      → (u : Tuple) → c.match u ≡ true
      → eq_ℤ (key_ordinal (get_or ts c.level no_table) (get_or u c.level no_row)) (f u) ≡ true

get_or-take {ℓ} :
    {A : Type ℓ} (n i : ℕ) (u : List A) (d : A) → i < n → get_or (take n u) i d ≡ get_or u i d
get_or-take zero i u d h = absurd (omega arith)
get_or-take (suc n) i [] d h = refl
get_or-take (suc n) zero (x ∷ u) d h = refl
get_or-take (suc n) (suc i) (x ∷ u) d h = get_or-take n i u d (omega arith)

raw_local :
    (n : ℕ) (col : BoundCol) (u v : Tuple)
    → col.table < n
    → take n u ≡ take n v
    → raw_of col u ≡ raw_of col v
raw_local n col u v h e =
    ap (λ r. cell_at r col.cell)
      (sym (get_or-take n col.table u no_row h)
        ∙ ap (λ w. get_or w col.table no_row) e
        ∙ get_or-take n col.table v no_row h)

first_key_ordinal :
    (q : Query) (col : BoundCol) (u : Tuple)
    → Bound q.tables col
    → first_key q col ≡ true
    → key_ordinal (table_at q col.table) (get_or u col.table no_row) ≡ ordinal_of col u
unfolding first_key
first_key_ordinal q col u b h =
    let key : get_or (table_at q col.table).keys 0 0 ≡ col.cell = ground (arith, h) in
    ap (λ c. ordinal (col_at (table_at q col.table) c) (cell_at (get_or u col.table no_row) c)) key
    ∙ ap (λ c. ordinal c (raw_of col u)) (sym b.same)

or_seek : (Tuple → ℤ) → Option (Tuple → ℤ) → Tuple → ℤ
or_seek d none = d
or_seek d (some f) = f

seek_of :
    (b : Bool) (f g : Tuple → ℤ) → (if b then some f else none) ≡ some g → (b ≡ true) × (f ≡ g)
unfolding or_seek
seek_of true f g h = (refl, ap (or_seek f) h)
seek_of false f g h = absurd (ground arith)

is_equal→eq : (op : CompareOp) → is_equal_op op ≡ true → op ≡ op_equal
is_equal→eq op_equal h = refl
is_equal→eq op_not_equal h = cc
is_equal→eq op_less h = cc
is_equal→eq op_less_equal h = cc
is_equal→eq op_greater h = cc
is_equal→eq op_greater_equal h = cc

eq_ℤ_sym : (a b : ℤ) → eq_ℤ a b ≡ true → eq_ℤ b a ≡ true
eq_ℤ_sym a b h = ground arith

eq_ℤ_refl : (a : ℤ) → eq_ℤ a a ≡ true
eq_ℤ_refl a = ground arith

null_raw :
    (raw : ℕ) (inverted : Bool)
    → not inverted ≡ true
    → not (iff (raw == 0) inverted) ≡ true
    → raw ≡ 0
null_raw raw true h m = cc
null_raw raw false h m = elim (Bool-cases (raw == 0)) [
  | inl e ↦ ground (arith, e)
  | inr e ↦ absurd (ground (arith, rw e at m))
]

-- A match on the first key column is one on the key of the table's record.
key_found :
    (q : Query) (col : BoundCol) (u : Tuple) (k : ℤ)
    → Bound q.tables col
    → first_key q col ≡ true
    → eq_ℤ (ordinal_of col u) k ≡ true
    → eq_ℤ (key_ordinal (get_or q.tables col.table no_table) (get_or u col.table no_row)) k ≡ true
key_found q col u k b first h = ap (λ o. eq_ℤ o k) (first_key_ordinal q col u b first) ∙ h

both_local :
    (n : ℕ) (l r : BoundCol) (u w : Tuple)
    → l.table < n
    → r.table < n
    → take n u ≡ take n w
    → eq_ℤ (ordinal_of l u) (ordinal_of r u) ≡ eq_ℤ (ordinal_of l w) (ordinal_of r w)
both_local n l r u w hl hr e =
    ap (λ x. eq_ℤ (ordinal l.column x) (ordinal_of r u)) (raw_local n l u w hl e)
    ∙ ap (λ x. eq_ℤ (ordinal_of l w) (ordinal r.column x)) (raw_local n r u w hr e)

pub comparison-Honest :
    (q : Query) (l : BoundCol) (op : CompareOp) (v : ℤ)
    → Bound q.tables l
    → (is_integer l.column.type ≡ false → Small v)
    → CondHonest q.tables (comparison_cond q l op v)
comparison-Honest q l op v b small = record {
  inside = b.inside;
  local = λ u w e. ap (compares l.column op v) (raw_local (suc l.table) l u w (omega arith) e);
  early = λ f s u w e.
      let (t, g) = seek_of (is_equal_op op && first_key q l) (λ tuple. v) f s in
      sym (ap (λ k. k u) g) ∙ ap (λ k. k w) g;
  found = λ f s u m.
      let (t, g) = seek_of (is_equal_op op && first_key q l) (λ tuple. v) f s in
      let e = is_equal→eq op (ground (arith, t)) in
      key_found q l u (f u) b (ground (arith, t)) (
        ap (λ k. eq_ℤ (ordinal_of l u) k) (sym (ap (λ k. k u) g))
        ∙ compares_found l.column l.column.type v (raw_of l u) refl small
            (ap (λ o. compares l.column o v (raw_of l u)) (sym e) ∙ m));
}

pub null-Honest :
    (q : Query) (col : BoundCol) (inverted : Bool)
    → Bound q.tables col
    → CondHonest q.tables (null_cond q col inverted)
null-Honest q col inverted b = record {
  inside = b.inside;
  local = λ u w e.
      ap (λ r. not (iff (r == 0) inverted)) (raw_local (suc col.table) col u w (omega arith) e);
  early = λ f s u w e.
      let (t, g) = seek_of (not inverted && first_key q col) (λ tuple. ordinal col.column 0) f s in
      sym (ap (λ k. k u) g) ∙ ap (λ k. k w) g;
  found = λ f s u m.
      let (t, g) = seek_of (not inverted && first_key q col) (λ tuple. ordinal col.column 0) f s in
      let zero' : raw_of col u ≡ 0 = null_raw (raw_of col u) inverted (ground (arith, t)) m in
      key_found q col u (f u) b (ground (arith, t)) (
        ap (λ k. eq_ℤ (ordinal_of col u) k) (sym (ap (λ k. k u) g))
        ∙ ap (λ r. eq_ℤ (ordinal col.column r) (ordinal col.column 0)) zero'
        ∙ eq_ℤ_refl (ordinal col.column 0));
}

pub equal-Honest :
    (q : Query) (l r : BoundCol)
    → Bound q.tables l
    → Bound q.tables r
    → CondHonest q.tables (equal_cond q l r)
equal-Honest q l r bl br = elim (Bool-cases (ltb l.table r.table)) [
  | inl less ↦ rw less (record {
    inside = br.inside;
    local = λ u w e. both_local (suc r.table) l r u w (ground (arith, less)) (omega arith) e;
    early = λ f s u w e.
        let (t, g) = seek_of (ltb l.table r.table && first_key q r) (ordinal_of l) f s in
        sym (ap (λ k. k u) g)
        ∙ ap (ordinal l.column) (raw_local r.table l u w (ground (arith, less)) e)
        ∙ ap (λ k. k w) g;
    found = λ f s u m.
        let (t, g) = seek_of (ltb l.table r.table && first_key q r) (ordinal_of l) f s in
        key_found q r u (f u) br (ground (arith, t)) (
          ap (λ k. eq_ℤ (ordinal_of r u) k) (sym (ap (λ k. k u) g))
          ∙ eq_ℤ_sym (ordinal_of l u) (ordinal_of r u) m);
  })
  | inr not_less ↦ rw not_less (record {
    inside = bl.inside;
    local = λ u w e. both_local (suc l.table) l r u w (omega arith) (ground (arith, not_less)) e;
    early = λ f s u w e.
        let (t, g) = seek_of (ltb r.table l.table && first_key q l) (ordinal_of r) f s in
        sym (ap (λ k. k u) g)
        ∙ ap (ordinal r.column) (raw_local l.table r u w (ground (arith, t)) e)
        ∙ ap (λ k. k w) g;
    found = λ f s u m.
        let (t, g) = seek_of (ltb r.table l.table && first_key q l) (ordinal_of r) f s in
        key_found q l u (f u) bl (ground (arith, t))
          (ap (λ k. eq_ℤ (ordinal_of l u) k) (sym (ap (λ k. k u) g)) ∙ m);
  })
]
