-- ===== src/Query/Restrict.antt =====
-- `where` of msidb/query.go: each AND-term is tested at its level, and the scans stay honest.
use go_msi.Prelude.{
  ℕ, zero, suc, ◌≡◌, refl, ap, sym, ◌∙◌, ◌&&◌, Bool, true, List, [], ◌∷◌, length, replicate, arith,
}
use mathlib.Core.Path.{subst}
use go_msi.Prelude.Text.{Str}
use go_msi.Sql.{Expr, and, or, column_equal, comparison, is_null}
use go_msi.StringPool.Valid.{Valid}
use go_msi.Table.{Table}
use go_msi.Convert.{Any}
use go_msi.Errors.{ok, >>=-eq-ok, ok_injective}
use go_msi.Query.{Source, Query, Tuple, no_scan, new_query, fresh_query, find_tables}
use go_msi.Query.Compile.{Cond, add_at, add_term, restrict, compile, and_cond}
use go_msi.Query.Levels.{AllHonest, all_accept}
use go_msi.Query.Honest.{CondHonest}
use go_msi.Query.Compiled.{compile-Honest}
use go_msi.Query.Scans.{
  AllOrdered, set-AllHonest, all_accept-set, AllHonest-length, compile-with_scans, with_scans,
}

-- What `where` makes of a query, for a clause whose compiled condition is `m`.
pub record Restricted (q r : Query) (m : Tuple → Bool) : Type 0 where
  pub same : r ≡ with_scans q r.scans
  pub honest : AllHonest 0 q.tables r.scans
  pub accepts_all : (u : Tuple) → all_accept r.scans u ≡ (all_accept q.scans u && m u)

abbrev Restricts : Query → Expr → Query → Type 0
Restricts q e r = (c : Cond) × (compile q e ≡ ok c) × Restricted q r c.match

add_at-Restricted :
    (q : Query) (c : Cond)
    → AllHonest 0 q.tables q.scans
    → AllOrdered q.tables
    → CondHonest q.tables c
    → Restricted q (add_at q c) c.match
add_at-Restricted q c hs os h =
    let size = AllHonest-length 0 q.tables q.scans hs in
    record {
      same = refl;
      honest =
          set-AllHonest q.tables q.scans 0 c.level c hs os (omega arith) h.inside h.local h.early
            h.found;
      accepts_all = λ u. all_accept-set q.scans c.level c u (omega (arith, h.inside));
    }

add_term-Restricts :
    (q : Query) (e : Expr) (r : Query)
    → Valid q.db.pool
    → AllHonest 0 q.tables q.scans
    → AllOrdered q.tables
    → add_term q e ≡ ok r
    → Restricts q e r
unfolding add_term
add_term-Restricts q e r valid hs os h =
    let (c, k, h1) = >>=-eq-ok (compile q e) _ h in
    (
      c,
      k,
      subst (λ z. Restricted q z c.match) (ok_injective (add_at q c) r h1)
          (add_at-Restricted q c hs os (compile-Honest q e c valid k)),
    )

-- Two clauses in a row.
both-Restricts :
    (q r s : Query) (a b : Expr)
    → Restricts q a r
    → (Valid r.db.pool → AllHonest 0 r.tables r.scans → AllOrdered r.tables → Restricts r b s)
    → Valid q.db.pool
    → AllOrdered q.tables
    → Restricts q (and a b) s
unfolding compile
both-Restricts q r s a b (ca, ka, ra) next valid os =
    let same = ra.same in
    let (cb, kb, rb) =
      next (subst (λ z. Valid z.db.pool) (sym same) valid)
        (subst (λ z. AllHonest 0 z.tables r.scans) (sym same) ra.honest)
        (subst (λ z. AllOrdered z.tables) (sym same) os) in
    let kb' : compile q b ≡ ok cb =
      sym (compile-with_scans q r.scans b) ∙ ap (λ z. compile z b) (sym same) ∙ kb in
    (
      and_cond ca cb,
      rw (ka, kb') refl,
      record {
        same = rb.same ∙ ap (λ z. with_scans z s.scans) same;
        honest = subst (λ z. AllHonest 0 z.tables s.scans) same rb.honest;
        accepts_all = λ u. ground (arith, ra.accepts_all u, rb.accepts_all u);
      },
    )

-- `where` succeeds only on a clause that compiles, and the scans together test that condition.
pub restrict-Restricts :
    (e : Expr) (q r : Query)
    → Valid q.db.pool
    → AllHonest 0 q.tables q.scans
    → AllOrdered q.tables
    → restrict q e ≡ ok r
    → (c : Cond) × (compile q e ≡ ok c) × Restricted q r c.match
unfolding restrict
restrict-Restricts (and a b) q s valid hs os h =
    let (r, ra, h1) = >>=-eq-ok (restrict q a) _ h in
    both-Restricts q r s a b (restrict-Restricts a q r valid hs os ra)
      (λ v k o. restrict-Restricts b r s v k o h1) valid os
restrict-Restricts (or a b) q r valid hs os h = add_term-Restricts q (or a b) r valid hs os h
restrict-Restricts (is_null ref i) q r valid hs os h =
    add_term-Restricts q (is_null ref i) r valid hs os h
restrict-Restricts (column_equal a b) q r valid hs os h =
    add_term-Restricts q (column_equal a b) r valid hs os h
restrict-Restricts (comparison ref op v) q r valid hs os h =
    add_term-Restricts q (comparison ref op v) r valid hs os h

no_scans-Honest : (n : ℕ) (ts : List Table) → AllHonest n ts (replicate (length ts) no_scan)
no_scans-Honest n [] = tt
no_scans-Honest n (t ∷ ts) = (
  record { local = λ u v e. refl; sound = λ f s. absurd (ground arith) },
  no_scans-Honest (suc n) ts,
)

no_scans_accept : (n : ℕ) (u : Tuple) → all_accept (replicate n no_scan) u ≡ true
no_scans_accept zero u = refl
no_scans_accept (suc n) u = no_scans_accept n u

-- A query as `query` makes it.
pub record Fresh (q : Query) : Type 0 where
  pub honest : AllHonest 0 q.tables q.scans
  pub accepting : (u : Tuple) → all_accept q.scans u ≡ true

pub new_query-Fresh :
    (db : Source) (op : Str) (names : List Str) (args : List Any) (q : Query)
    → new_query db op names args ≡ ok q
    → Fresh q × (q.db ≡ db)
unfolding new_query
new_query-Fresh db op names args q h =
    let (ts, e, h1) = >>=-eq-ok (find_tables db op [] names) _ h in
    let same = ok_injective (fresh_query db op args ts) q h1 in
    (
      subst Fresh same
          (record { honest = no_scans-Honest 0 ts; accepting = no_scans_accept (length ts) }),
      ap (λ z. z.db) (sym same),
    )
