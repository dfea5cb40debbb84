-- ===== src/Query/Scans.antt =====
-- Scans with one condition more, as `where` of msidb/query.go adds it.
use go_msi.Prelude.{
  ℕ, zero, suc, ◌+◌, ◌<◌, ◌≡◌, refl, ap, sym, ◌∙◌, inl, inr, ◌&&◌, Bool, true, Option-cases, List,
  [], ◌∷◌, length, get_or, take, set, Option, none, some, arith,
}
use mathlib.Core.Path.{subst}
use go_msi.Prelude.Int.{ℤ}
use go_msi.Sql.{Expr, and, or, column_equal, comparison, is_null}
use go_msi.Table.{Table, no_row}
use go_msi.Query.{Query, Tuple, Scan, no_scan, eq_ℤ, no_table, column, first_key, missing_column}
use go_msi.Query.Compile.{
  Cond, add_match, add_cond, compile, compile_comparison, compile_column_equal, equal_or_refuse,
  compile_is_null, constant, plain_constant, typed_constant,
}
use go_msi.Query.Walk.{key_ordinal, accepts}
use go_msi.Query.Window.{Ordered}
use go_msi.Query.Levels.{Honest, AllHonest, all_accept}

abbrev pub AllOrdered : List Table → Type 0
AllOrdered [] = Unit {0}
AllOrdered (t ∷ ts) = Ordered t × AllOrdered ts

accepts-add_match :
    (m : Option (Tuple → Bool)) (f : Tuple → Bool) (u : Tuple)
    → accepts (some (add_match m f)) u ≡ (accepts m u && f u)
accepts-add_match none f u = refl
accepts-add_match (some g) f u = refl

and_parts : (a b : Bool) → (a && b) ≡ true → (a ≡ true) × (b ≡ true)
and_parts a b h = ground arith

-- One scan with one condition more.
add_cond-Honest :
    (n : ℕ) (t : Table) (s : Scan) (c : Cond)
    → Ordered t
    → Honest n t s
    → ((u v : Tuple) → take (suc n) u ≡ take (suc n) v → c.match u ≡ c.match v)
    → ((f : Tuple → ℤ) → c.seek ≡ some f → (u v : Tuple) → take n u ≡ take n v → f u ≡ f v)
    → ((f : Tuple → ℤ)
        → c.seek ≡ some f
        → (u : Tuple) → c.match u ≡ true
        → eq_ℤ (key_ordinal t (get_or u n no_row)) (f u) ≡ true)
    → Honest n t (add_cond s c)
unfolding add_cond
add_cond-Honest n t s c ordered h local early found = record {
  local = λ u v e.
      accepts-add_match s.match c.match u
      ∙ ap (λ b. b && c.match u) (h.local u v e)
      ∙ ap (λ b. accepts s.match v && b) (local u v e)
      ∙ sym (accepts-add_match s.match c.match v);
  sound = λ f seeks. elim (Option-cases s.seek) [
    | inl fresh ↦
        let own : c.seek ≡ some f = rw fresh at seeks in
        record {
          early = early f own;
          found = λ u m.
              found f own u (and_parts _ _ (sym (accepts-add_match s.match c.match u) ∙ m)).1;
          ordered = ordered;
        }
    | inr (g, old) ↦
        let kept : s.seek ≡ some f = old ∙ (rw old at seeks) in
        let sound = h.sound f kept in
        record {
          early = sound.early;
          found = λ u m.
              sound.found u (and_parts _ _ (sym (accepts-add_match s.match c.match u) ∙ m)).0;
          ordered = ordered;
        }
  ];
}

-- The same among the scans of all tables, where the condition's level is that of its table.
pub set-AllHonest :
    (ts : List Table) (ss : List Scan) (n i : ℕ) (c : Cond)
    → AllHonest n ts ss
    → AllOrdered ts
    → c.level ≡ n + i
    → i < length ts
    → ((u v : Tuple) → take (suc c.level) u ≡ take (suc c.level) v → c.match u ≡ c.match v)
    → ((f : Tuple → ℤ)
        → c.seek ≡ some f
        → (u v : Tuple) → take c.level u ≡ take c.level v
        → f u ≡ f v)
    → ((f : Tuple → ℤ)
        → c.seek ≡ some f
        → (u : Tuple) → c.match u ≡ true
        → eq_ℤ (key_ordinal (get_or ts i no_table) (get_or u c.level no_row)) (f u) ≡ true)
    → AllHonest n ts (set ss i (add_cond (get_or ss i no_scan) c))
set-AllHonest [] ss n i c h o e lt local early found = absurd (omega arith)
set-AllHonest (t ∷ ts) [] n i c h o e lt local early found = elim h [ ]
set-AllHonest (t ∷ ts) (s ∷ ss) n zero c (h, hs) (o, os) e lt local early found =
    let d : c.level ≡ n = omega arith in
    (
      add_cond-Honest n t s c o h
          (λ u v k. local u v (subst (λ l. take (suc l) u ≡ take (suc l) v) (sym d) k))
          (λ f sk u v k. early f sk u v (subst (λ l. take l u ≡ take l v) (sym d) k))
          (λ f sk u m.
            subst (λ l. eq_ℤ (key_ordinal t (get_or u l no_row)) (f u) ≡ true) d (found f sk u m)),
      hs,
    )
set-AllHonest (t ∷ ts) (s ∷ ss) n (suc i) c (h, hs) (o, os) e lt local early found =
    (h, set-AllHonest ts ss (suc n) i c hs os (omega arith) (omega arith) local early found)

pub all_accept-set :
    (ss : List Scan) (i : ℕ) (c : Cond) (u : Tuple)
    → i < length ss
    → all_accept (set ss i (add_cond (get_or ss i no_scan) c)) u ≡ (all_accept ss u && c.match u)
unfolding add_cond
all_accept-set [] i c u h = absurd (omega arith)
all_accept-set (s ∷ ss) zero c u h = ground (arith, accepts-add_match s.match c.match u)
all_accept-set (s ∷ ss) (suc i) c u h = ground (arith, all_accept-set ss i c u)

pub AllHonest-length :
    (n : ℕ) (ts : List Table) (ss : List Scan) → AllHonest n ts ss → length ts ≡ length ss
AllHonest-length n [] [] h = refl
AllHonest-length n [] (s ∷ ss) h = elim h [ ]
AllHonest-length n (t ∷ ts) [] h = elim h [ ]
AllHonest-length n (t ∷ ts) (s ∷ ss) (h, hs) = ap suc (AllHonest-length (suc n) ts ss hs)

-- A query with scans in place of its own.
abbrev pub with_scans : Query → List Scan → Query
with_scans q ss = record q { scans = ss }

-- The compiler looks at no scan.
pub compile-with_scans :
    (q : Query) (ss : List Scan) (e : Expr) → compile (with_scans q ss) e ≡ compile q e
unfolding compile compile_comparison compile_column_equal compile_is_null constant plain_constant
    typed_constant column missing_column equal_or_refuse first_key
compile-with_scans q ss (and a b) = rw (compile-with_scans q ss a, compile-with_scans q ss b) refl
compile-with_scans q ss (or a b) = rw (compile-with_scans q ss a, compile-with_scans q ss b) refl
compile-with_scans q ss (is_null ref inverted) = refl
compile-with_scans q ss (column_equal l r) = refl
compile-with_scans q ss (comparison ref op v) = refl
