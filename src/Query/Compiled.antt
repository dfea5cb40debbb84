-- ===== src/Query/Compiled.antt =====
-- Every condition that the compiler of msidb/query.go makes keeps its promises.
use go_msi.Prelude.{
  ℕ, zero, suc, ◌≤◌, ◌≡◌, refl, ap, sym, ◌∙◌, ◌&&◌, ◌||◌, not, Bool, true, false, List, [], ◌∷◌,
  take, none, max, arith, if◌then◌else◌,
}
use go_msi.Prelude.Int.{ℤ}
use go_msi.Sql.{ColumnRef, Expr, and, or, column_equal, comparison, is_null, Value, CompareOp}
use go_msi.Convert.{Any, normalize}
use mathlib.Core.Path.{subst}
use go_msi.StringPool.Valid.{Valid}
use go_msi.Table.{Table}
use go_msi.Errors.{Error, ok, err, wrap, >>=-eq-ok, wrap-eq-ok, new_col_error, ok_injective}
use go_msi.Query.{Query, Tuple, BoundCol, column, table_at, literal}
use go_msi.Query.Compile.{
  Cond, constant, comparison_cond, compile_comparison, equal_cond, equal_or_refuse,
  compile_column_equal, null_cond, compile_is_null, compile, and_cond, or_cond, same_type,
  is_binary, is_integer,
}
use go_msi.Query.Constants.{Small, constant-Small}
use go_msi.Query.Resolve.{column-Bound}
use go_msi.Query.Honest.{CondHonest, comparison-Honest, null-Honest, equal-Honest}

bound-Small :
    (q : Query) (col : BoundCol) (op : CompareOp) (lit : Any) (v : ℤ)
    → Valid q.db.pool
    → constant q col op lit ≡ ok v
    → is_integer col.column.type ≡ false
    → Small v
unfolding constant
bound-Small q col op lit v valid h other =
    let (x, e, k) = >>=-eq-ok (normalize lit) _ h in
    constant-Small q col.column op x v valid other k

if_ok : (b : Bool) (e : Error) (a c : Cond) → (if b then err e else ok a) ≡ ok c → a ≡ c
if_ok true e a c h = cc
if_ok false e a c h = ok_injective a c h

take-take_le {ℓ} : {A : Type ℓ} (m n : ℕ) (u : List A) → m ≤ n → take m (take n u) ≡ take m u
take-take_le zero n u h = refl
take-take_le (suc m) zero u h = absurd (omega arith)
take-take_le (suc m) (suc n) [] h = refl
take-take_le (suc m) (suc n) (x ∷ u) h = ap (◌∷◌ x) (take-take_le m n u (omega arith))

shorter : (m n : ℕ) (u v : Tuple) → m ≤ n → take n u ≡ take n v → take m u ≡ take m v
shorter m n u v h e = sym (take-take_le m n u h) ∙ ap (take m) e ∙ take-take_le m n v h

front_max :
    (a b : ℕ) (u v : Tuple)
    → take (suc (max a b)) u ≡ take (suc (max a b)) v
    → (take (suc a) u ≡ take (suc a) v) × (take (suc b) u ≡ take (suc b) v)
front_max a b u v e = (
  shorter (suc a) (suc (max a b)) u v (omega arith) e,
  shorter (suc b) (suc (max a b)) u v (omega arith) e,
)

-- AND and OR under another term.
joined :
    {ts : List Table} (l r : Cond) (f : Bool → Bool → Bool)
    → CondHonest ts l
    → CondHonest ts r
    → CondHonest ts (record {
      level = max l.level r.level;
      match = λ tuple. f (l.match tuple) (r.match tuple);
      seek = none;
    })
joined l r f hl hr = record {
  inside = omega (arith, hl.inside, hr.inside);
  local = λ u v e.
      let (el, er) = front_max l.level r.level u v e in
      ap (λ x. f x (r.match u)) (hl.local u v el) ∙ ap (f (l.match v)) (hr.local u v er);
  early = λ g s u v e. absurd (ground (arith, s));
  found = λ g s u m. absurd (ground (arith, s));
}

compile_comparison-Honest :
    (q : Query) (ref : ColumnRef) (op : CompareOp) (value : Value) (c : Cond)
    → Valid q.db.pool
    → compile_comparison q ref op value ≡ ok c
    → CondHonest q.tables c
unfolding compile_comparison
compile_comparison-Honest q ref op value c valid h =
    let (l, el, h1) = >>=-eq-ok (column q ref) _ h in
    let (v, ev, h2) =
      >>=-eq-ok
        (wrap (new_col_error q.op (table_at q l.table) l.column)
          (constant q l op (literal value q.args)))
        _ h1 in
    let small =
      bound-Small q l op (literal value q.args) v valid
        (wrap-eq-ok _ (constant q l op (literal value q.args)) ev) in
    subst (CondHonest q.tables) (ok_injective (comparison_cond q l op v) c h2)
      (comparison-Honest q l op v (column-Bound q ref l el) small)

compile_column_equal-Honest :
    (q : Query) (left right : ColumnRef) (c : Cond)
    → compile_column_equal q left right ≡ ok c
    → CondHonest q.tables c
unfolding compile_column_equal equal_or_refuse
compile_column_equal-Honest q left right c h =
    let (l, el, h1) = >>=-eq-ok (column q left) _ h in
    let (r, er, h2) = >>=-eq-ok (column q right) _ h1 in
    let e =
      if_ok (not (same_type l.column.type r.column.type) || is_binary l.column.type) _
        (equal_cond q l r) c h2 in
    subst (CondHonest q.tables) e
      (equal-Honest q l r (column-Bound q left l el) (column-Bound q right r er))

compile_is_null-Honest :
    (q : Query) (ref : ColumnRef) (inverted : Bool) (c : Cond)
    → compile_is_null q ref inverted ≡ ok c
    → CondHonest q.tables c
unfolding compile_is_null
compile_is_null-Honest q ref inverted c h =
    let (col, e, h1) = >>=-eq-ok (column q ref) _ h in
    subst (CondHonest q.tables) (ok_injective (null_cond q col inverted) c h1)
      (null-Honest q col inverted (column-Bound q ref col e))

-- A condition that compiles keeps the promises.
pub compile-Honest :
    (q : Query) (e : Expr) (c : Cond) → Valid q.db.pool → compile q e ≡ ok c → CondHonest q.tables c
unfolding compile
compile-Honest q (is_null ref inverted) c valid h = compile_is_null-Honest q ref inverted c h
compile-Honest q (column_equal l r) c valid h = compile_column_equal-Honest q l r c h
compile-Honest q (comparison ref op v) c valid h = compile_comparison-Honest q ref op v c valid h
compile-Honest q (and a b) c valid h =
    let (l, el, h1) = >>=-eq-ok (compile q a) _ h in
    let (r, er, h2) = >>=-eq-ok (compile q b) _ h1 in
    subst (CondHonest q.tables) (ok_injective (and_cond l r) c h2)
      (joined l r (λ x y. x && y) (compile-Honest q a l valid el) (compile-Honest q b r valid er))
compile-Honest q (or a b) c valid h =
    let (l, el, h1) = >>=-eq-ok (compile q a) _ h in
    let (r, er, h2) = >>=-eq-ok (compile q b) _ h1 in
    subst (CondHonest q.tables) (ok_injective (or_cond l r) c h2)
      (joined l r (λ x y. x || y) (compile-Honest q a l valid el) (compile-Honest q b r valid er))
