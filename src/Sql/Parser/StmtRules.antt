-- ===== src/Sql/Parser/StmtRules.antt =====
-- The rules of internal/sql/parse.go for the parts of statements.
use go_msi.Prelude.{
  ℕ, zero, suc, ◌+◌, ◌*◌, ◌≤◌, ◌≡◌, ◌==◌, ◌&&◌, leb, not, Bool, true, false, List, [], ◌∷◌, ◌++◌,
  append-nil, Option, none, some, refl, arith,
}
use go_msi.Prelude.Int.{ℤ, pos, negsuc}
use go_msi.Prelude.Text.{Str, eq_str}
use go_msi.Sql.{ColumnRef, Value, value_markers, where_markers, list_markers, assignment_markers}
use go_msi.Sql.Token.{
  Token, kind_comma, kind_eq, kind_int, kind_l_paren, kind_r_paren, kw_by, kw_char, kw_int, kw_long,
  kw_longchar, kw_not, kw_null, kw_object, kw_short, kw_temporary, kw_localizable, kw_where,
}
use go_msi.Sql.Parser.{Parser, M, comma_list, atoi}
use go_msi.Sql.Parser.Stmt.{
  parse_table_list, where_after, parse_where, columns_after, order_after, own_column, insert_column,
  wrong_count, values_after, values_list, parse_assignment, width_of, parse_width, width_after,
  column_type_of, not_null_after, parse_column_def,
}
use go_msi.Sql.Parser.Expr.{parse_expr}
use go_msi.Sql.Parser.Steps.{
  left_to_read, Step, Returns, After, unmarked, tokens, chain, begin, weaken, finish, last, choose,
  real, skip_rule, errorf_rule, accept_rule, expect_rule, current_rule, parse_name_rule,
}
use go_msi.Sql.Parser.Rules.{parse_column_ref_rule, parse_value_rule, comma_list_rule}
use go_msi.Sql.Parser.ExprRules.{parse_or_rule, take_or_else}

-- Fuel that is enough for any list or expression from here on.
abbrev pub Enough : ℕ → Parser → Type 0
Enough fuel p = 3 * left_to_read p + 3 ≤ fuel

list_markers-unmarked : {A : Type 0} (xs : List A) → list_markers unmarked xs ≡ []
unfolding list_markers
list_markers-unmarked [] = refl
list_markers-unmarked (x ∷ xs) = list_markers-unmarked xs

pub unmarked_list_rule :
    {A : Type 0} (item : M A)
    → ((p : Parser) → Returns (After (tokens 1) unmarked p) (item p))
    → (fuel : ℕ) (p : Parser) → Enough fuel p
    → Returns (After (tokens 1) unmarked p) (comma_list fuel item p)
unmarked_list_rule item h fuel p f =
    last (begin p) (comma_list_rule unmarked item h fuel p (omega (arith, f))) (λ xs. omega arith)
      list_markers-unmarked

pub parse_table_list_rule :
    (fuel : ℕ) (p : Parser)
    → Enough fuel p
    → Returns (After (tokens 1) unmarked p) (parse_table_list fuel p)
unfolding parse_table_list
parse_table_list_rule fuel p f = unmarked_list_rule _ (parse_name_rule _) fuel p f

where_after_rule :
    (fuel : ℕ) (b : Bool) (p : Parser)
    → Enough fuel p
    → Returns (After (tokens 0) where_markers p) (where_after fuel b p)
unfolding where_after where_markers parse_expr
where_after_rule fuel true p f =
    chain (begin p) (parse_or_rule fuel p f) λ e q s. finish s (omega arith) refl
where_after_rule fuel false p f = finish (begin p) (omega arith) refl

pub parse_where_rule :
    (fuel : ℕ) (p : Parser)
    → Enough fuel p
    → Returns (After (tokens 0) where_markers p) (parse_where fuel p)
unfolding parse_where
parse_where_rule fuel p f = chain (begin p) (accept_rule kw_where p refl) λ b q s.
    last s (where_after_rule fuel b q (omega (arith, s.taken, f))) (λ e. omega arith) λ e. refl

pub columns_after_rule :
    (fuel : ℕ) (b : Bool) (p : Parser)
    → Enough fuel p
    → Returns (After (tokens 0) unmarked p) (columns_after fuel b p)
unfolding columns_after
columns_after_rule fuel true p f = finish (begin p) (omega arith) refl
columns_after_rule fuel false p f =
    last (begin p) (unmarked_list_rule _ parse_column_ref_rule fuel p f) (λ xs. omega arith)
      λ xs. refl

pub order_after_rule :
    (fuel : ℕ) (b : Bool) (p : Parser)
    → Enough fuel p
    → Returns (After (tokens 0) unmarked p) (order_after fuel b p)
unfolding order_after
order_after_rule fuel true p f = chain (begin p) (expect_rule kw_by _ p refl) λ _ q s.
    last s (unmarked_list_rule _ parse_column_ref_rule fuel q (omega (arith, s.taken, f)))
      (λ xs. omega arith) λ xs. refl
order_after_rule fuel false p f = finish (begin p) (omega arith) refl

own_column_rule :
    (table : Str) (t : Token) (c : ColumnRef) (p : Parser)
    → Returns (After (tokens 0) unmarked p) (own_column table t c p)
unfolding own_column
own_column_rule table t c p =
    choose (not (eq_str c.table []) && not (eq_str c.table table)) _ _ (λ _. errorf_rule t _ p)
      λ _. finish (begin p) (omega arith) refl

pub insert_column_rule :
    (table : Str) (p : Parser) → Returns (After (tokens 1) unmarked p) (insert_column table p)
unfolding insert_column
insert_column_rule table p = chain (begin p) (current_rule p) λ t q s.
    chain s (parse_column_ref_rule q)
      λ c r u. last u (own_column_rule table t c r) (λ x. omega arith) λ x. refl

wrong_count_rule :
    {Q : List Value → Parser → Type 0} (total : ℕ) (p : Parser) → Returns Q (wrong_count total p)
unfolding wrong_count
wrong_count_rule total p = errorf_rule p.tok _ p

values_after_rule :
    (total left : ℕ) (v : Value) (more : M (List Value)) (b : Bool) (p q : Parser)
    → Step 1 (value_markers v ++ []) p q
    → Returns (After (tokens 0) (list_markers value_markers) q) (more q)
    → Returns (After (tokens 0) (list_markers value_markers) p) (values_after total left v more b q)
unfolding values_after list_markers
values_after_rule total left v more true p q s h =
    chain s h λ vs r t. finish t (omega arith) (rw append-nil refl)
values_after_rule total zero v more false p q s h = finish s (omega arith) refl
values_after_rule total (suc left) v more false p q s h = wrong_count_rule total q

pub values_list_rule :
    (total left : ℕ) (p : Parser)
    → Returns (After (tokens 0) (list_markers value_markers) p) (values_list total left p)
unfolding values_list
values_list_rule total zero p = wrong_count_rule total p
values_list_rule total (suc left) p = chain (begin p) (parse_value_rule p) λ v q s.
    chain s (accept_rule kind_comma q refl) λ b r t.
      values_after_rule total left v (values_list total left) b p r (weaken t (omega arith))
        (values_list_rule total left r)

pub parse_assignment_rule :
    (p : Parser) → Returns (After (tokens 1) assignment_markers p) (parse_assignment p)
unfolding parse_assignment assignment_markers
parse_assignment_rule p = chain (begin p) (parse_column_ref_rule p) λ c q s.
    chain s (expect_rule kind_eq _ q refl)
      λ _ r t. chain t (parse_value_rule r) λ v u w. finish w (omega arith) refl

width_of_rule :
    (t : Token) (n : Option ℤ) (p : Parser) → Returns (After (tokens 0) unmarked p) (width_of t n p)
unfolding width_of
width_of_rule t none p = errorf_rule t _ p
width_of_rule t (some (negsuc n)) p = errorf_rule t _ p
width_of_rule t (some (pos n)) p =
    choose (leb n 255) _ _ (λ _. finish (begin p) (omega arith) refl) λ _. errorf_rule t _ p

parse_width_rule : (p : Parser) → Returns (After (tokens 0) unmarked p) (parse_width p)
unfolding parse_width
parse_width_rule p =
    chain (begin p) (expect_rule kind_int _ p refl)
      λ t q s. last s (width_of_rule t (atoi t.text) q) (λ n. omega arith) λ n. refl

width_after_rule : (b : Bool) (p : Parser) → Returns (After (tokens 0) unmarked p) (width_after b p)
unfolding width_after
width_after_rule true p =
    chain (begin p) (parse_width_rule p)
      λ n q s. chain s (expect_rule kind_r_paren _ q refl) λ _ r t. finish t (omega arith) refl
width_after_rule false p = finish (begin p) (omega arith) refl

column_type_of_rule : (p : Parser) → Returns (After (tokens 1) unmarked p) (column_type_of p.tok p)
unfolding column_type_of
column_type_of_rule p =
    choose (p.tok.kind == kw_char) _ _
      (λ e. chain (begin p) (skip_rule p) λ _ q s.
        chain s (accept_rule kind_l_paren q refl) λ b r t.
          chain t (width_after_rule b r)
            λ n u v. finish v (omega (arith, real kw_char p.tok refl e)) refl)
      λ _. take_or_else kw_longchar _ _ p refl (
        take_or_else kw_short _ _ p refl (
          take_or_else kw_int _ _ p refl (
            take_or_else kw_long _ _ p refl
              (take_or_else kw_object _ _ p refl (errorf_rule p.tok _ p)))))

not_null_after_rule :
    (b : Bool) (p : Parser) → Returns (After (tokens 0) unmarked p) (not_null_after b p)
unfolding not_null_after
not_null_after_rule true p =
    chain (begin p) (expect_rule kw_null _ p refl) λ _ q s. finish s (omega arith) refl
not_null_after_rule false p = finish (begin p) (omega arith) refl

-- The column definition of CREATE TABLE and of ALTER TABLE ... ADD.
pub parse_column_def_rule :
    (p : Parser) → Returns (After (tokens 1) unmarked p) (parse_column_def p)
unfolding parse_column_def
parse_column_def_rule p = chain (begin p) (parse_name_rule _ p) λ name p1 s1.
    chain s1 (column_type_of_rule p1) λ typed p2 s2.
      chain s2 (accept_rule kw_not p2 refl) λ negated p3 s3.
        chain s3 (not_null_after_rule negated p3) λ not_null p4 s4.
          chain s4 (accept_rule kw_temporary p4 refl) λ temporary p5 s5.
            chain s5 (accept_rule kw_localizable p5 refl)
              λ localizable p6 s6. finish s6 (omega arith) refl
