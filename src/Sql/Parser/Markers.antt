-- ===== src/Sql/Parser/Markers.antt =====
-- Parse and Params of internal/sql/sql.go: the end of a parse, and the numbers of the `?`.
use go_msi.Prelude.{
  ℕ, ◌+◌, ◌≡◌, ◌≢◌, List, [], ◌∷◌, length, length-append, Option, none, some, refl, arith,
}
use go_msi.Prelude.Text.{Str}
use go_msi.Sql.{
  Value, int_lit, string_lit, marker, null, Expr, and, or, column_equal, comparison, is_null, Stmt,
  select, insert, update, delete, create_table, alter_table, drop_table, Assignment, value_params,
  expr_params, where_params, values_params, set_params, params, value_markers, expr_markers,
  where_markers, list_markers, assignment_markers, markers,
}
use go_msi.Sql.Scan.Progress.{scan-Advances}
use go_msi.Sql.Parser.{Parser, Outcome, ok, fail, stuck}
use go_msi.Sql.Parser.Stmt.{start, parse_fuel, parse}
use go_msi.Sql.Parser.Steps.{left_to_read, Numbered, Step, Returns, returned, failed, After, tokens}
use go_msi.Sql.Parser.StmtRules.{Enough}
use go_msi.Sql.Parser.Statements.{parse_statement_rule}

-- `Returns` by the outcome at hand.
abbrev Holds : {A : Type 0} → (A → Parser → Type 0) → Outcome A → Type 0
Holds Q (ok a p) = Q a p
Holds Q (fail e) = Unit {0}
Holds Q stuck = ⊥

holds : {A : Type 0} {Q : A → Parser → Type 0} {r : Outcome A} → Returns Q r → Holds Q r
holds (returned h) = h
holds failed = tt

start-Enough : (sql : Str) → Enough (parse_fuel sql) (start sql)
unfolding start parse_fuel left_to_read
start-Enough sql = ground (arith, scan-Advances (record { rest = sql; pos = 0; err = none }))

parse_rule : (sql : Str) → Returns (After (tokens 0) markers (start sql)) (parse sql)
unfolding parse
parse_rule sql = parse_statement_rule (parse_fuel sql) (start sql) (start-Enough sql)

-- Parsing ends for every input: the fuel, three times the bytes and six, never runs out.
pub parse_total : (sql : Str) → parse sql ≢ stuck
parse_total sql e = rw e at (holds (parse_rule sql))

length-value_markers : (v : Value) → length (value_markers v) ≡ value_params v
unfolding value_markers value_params
length-value_markers (marker n) = refl
length-value_markers (int_lit n) = refl
length-value_markers (string_lit s) = refl
length-value_markers null = refl

length-expr_markers : (e : Expr) → length (expr_markers e) ≡ expr_params e
unfolding expr_markers expr_params
length-expr_markers (and l r) = omega (
  arith,
  length-append (expr_markers l) (expr_markers r),
  length-expr_markers l,
  length-expr_markers r,
)
length-expr_markers (or l r) = omega (
  arith,
  length-append (expr_markers l) (expr_markers r),
  length-expr_markers l,
  length-expr_markers r,
)
length-expr_markers (comparison c op v) = length-value_markers v
length-expr_markers (column_equal l r) = refl
length-expr_markers (is_null c n) = refl

length-where_markers : (e : Option Expr) → length (where_markers e) ≡ where_params e
unfolding where_markers where_params
length-where_markers none = refl
length-where_markers (some e) = length-expr_markers e

length-list_markers : (vs : List Value) → length (list_markers value_markers vs) ≡ values_params vs
unfolding list_markers values_params
length-list_markers [] = refl
length-list_markers (v ∷ vs) = omega (
  arith,
  length-append (value_markers v) (list_markers value_markers vs),
  length-value_markers v,
  length-list_markers vs,
)

length-set_markers :
    (as' : List Assignment) → length (list_markers assignment_markers as') ≡ set_params as'
unfolding list_markers set_params assignment_markers
length-set_markers [] = refl
length-set_markers (a ∷ as') = omega (
  arith,
  length-append (value_markers a.value) (list_markers assignment_markers as'),
  length-value_markers a.value,
  length-set_markers as',
)

-- Params counts the markers of a statement.
pub length-markers : (stmt : Stmt) → length (markers stmt) ≡ params stmt
unfolding markers params
length-markers (select s) = length-where_markers s.condition
length-markers (insert s) = length-list_markers s.values
length-markers (update s) = omega (
  arith,
  length-append (list_markers assignment_markers s.set) (where_markers s.condition),
  length-set_markers s.set,
  length-where_markers s.condition,
)
length-markers (delete s) = length-where_markers s.condition
length-markers (create_table s) = refl
length-markers (alter_table s) = refl
length-markers (drop_table t) = refl

Numbered-length : (lo hi : ℕ) (ms : List ℕ) → Numbered lo ms hi → lo + length ms ≡ hi
Numbered-length lo hi [] h = omega arith
Numbered-length lo hi (m ∷ ms) (e, h) = omega (arith, Numbered-length (lo + 1) hi ms h)

start_params : (sql : Str) → (start sql).params ≡ 0
unfolding start
start_params sql = refl

-- Of a statement that Parse returns, the markers are 0, 1, 2 and so on in the order of the text, and
-- there are as many as Params says: it is also the count that the parser ends with.
pub parse-Numbered :
    (sql : Str) (stmt : Stmt) (p : Parser)
    → parse sql ≡ ok stmt p
    → Numbered 0 (markers stmt) (params stmt) × (p.params ≡ params stmt)
parse-Numbered sql stmt p e =
    let s : Step 0 (markers stmt) (start sql) p = rw e at (holds (parse_rule sql)) in
    let n : Numbered 0 (markers stmt) p.params = rw (start_params sql) at (s.numbered) in
    let count : p.params ≡ params stmt =
      omega (arith, Numbered-length 0 p.params (markers stmt) n, length-markers stmt) in
    (rw count at n, count)
