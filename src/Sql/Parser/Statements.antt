-- ===== src/Sql/Parser/Statements.antt =====
-- The rules of internal/sql/parse.go for whole statements.
use go_msi.Prelude.{ℕ, ◌==◌, List, append-nil, length, refl, ◌∙◌, arith}
use go_msi.Sql.{Stmt, markers, assignment_markers}
use go_msi.Sql.Token.{
  Token, kind_eof, kind_l_paren, kind_r_paren, kind_star, kw_add, kw_alter, kw_create, kw_delete,
  kw_distinct, kw_drop, kw_free, kw_from, kw_hold, kw_insert, kw_into, kw_key, kw_order, kw_primary,
  kw_select, kw_set, kw_table, kw_temporary, kw_update, kw_values,
}
use go_msi.Sql.Parser.{Parser, M}
use go_msi.Sql.Parser.Stmt.{
  parse_select, parse_insert, parse_update, parse_delete, parse_create, alter_action_of,
  parse_alter, parse_drop, statement_of, at_end, parse_statement, insert_column, parse_column_def,
}
use go_msi.Sql.Parser.Steps.{
  Step, Returns, After, unmarked, tokens, chain, begin, weaken, finish, choose, skip_rule,
  errorf_rule, accept_rule, expect_rule, parse_name_rule,
}
use go_msi.Sql.Parser.Rules.{comma_list_rule}
use go_msi.Sql.Parser.StmtRules.{
  Enough, unmarked_list_rule, parse_table_list_rule, parse_where_rule, columns_after_rule,
  order_after_rule, insert_column_rule, values_list_rule, parse_assignment_rule,
  parse_column_def_rule,
}

-- Fuel that was enough for what was left to read is enough for the rest.
Enough-after :
    {d : ℕ} {ms : List ℕ} (fuel : ℕ) (p q : Parser) → Step d ms p q → Enough fuel p → Enough fuel q
Enough-after fuel p q s f = omega (arith, s.taken, f)

-- A statement is read to its markers, whatever its kind.
abbrev Reads : (ℕ → M Stmt) → Type 0
Reads m = (fuel : ℕ) (p : Parser) → Enough fuel p → Returns (After (tokens 0) markers p) (m fuel p)

parse_select_rule : Reads parse_select
unfolding parse_select markers
parse_select_rule fuel p f = chain (begin p) (skip_rule p) λ _ p1 s1.
    chain s1 (accept_rule kw_distinct p1 refl) λ distinct p2 s2.
      chain s2 (accept_rule kind_star p2 refl) λ star p3 s3.
        chain s3 (columns_after_rule fuel star p3 (Enough-after fuel p p3 s3 f)) λ cs p4 s4.
          chain s4 (expect_rule kw_from _ p4 refl) λ _ p5 s5.
            chain s5 (parse_table_list_rule fuel p5 (Enough-after fuel p p5 s5 f)) λ ts p6 s6.
              chain s6 (parse_where_rule fuel p6 (Enough-after fuel p p6 s6 f)) λ w p7 s7.
                chain s7 (accept_rule kw_order p7 refl) λ o p8 s8.
                  chain s8 (order_after_rule fuel o p8 (Enough-after fuel p p8 s8 f))
                    λ os p9 s9. finish s9 (omega arith) (append-nil _ ∙ append-nil _)

parse_insert_rule : Reads parse_insert
unfolding parse_insert markers
parse_insert_rule fuel p f = chain (begin p) (skip_rule p) λ _ p1 s1.
    chain s1 (expect_rule kw_into _ p1 refl) λ _ p2 s2.
      chain s2 (parse_name_rule _ p2) λ table p3 s3.
        chain s3 (expect_rule kind_l_paren _ p3 refl) λ _ p4 s4.
          chain s4
            (unmarked_list_rule (insert_column table) (insert_column_rule table) fuel p4
              (Enough-after fuel p p4 s4 f))
            λ columns p5 s5. chain s5 (expect_rule kind_r_paren _ p5 refl) λ _ p6 s6.
              chain s6 (expect_rule kw_values _ p6 refl) λ _ p7 s7.
                chain s7 (expect_rule kind_l_paren _ p7 refl) λ _ p8 s8.
                  chain s8 (values_list_rule (length columns) (length columns) p8) λ vs p9 s9.
                    chain s9 (expect_rule kind_r_paren _ p9 refl) λ _ p10 s10.
                      chain s10 (accept_rule kw_temporary p10 refl)
                        λ _ p11 s11. finish s11 (omega arith) (append-nil _ ∙ append-nil _)

parse_update_rule : Reads parse_update
unfolding parse_update markers
parse_update_rule fuel p f = chain (begin p) (skip_rule p) λ _ p1 s1.
    chain s1 (parse_table_list_rule fuel p1 (Enough-after fuel p p1 s1 f)) λ ts p2 s2.
      chain s2 (expect_rule kw_set _ p2 refl) λ _ p3 s3.
        chain s3
          (comma_list_rule assignment_markers _ parse_assignment_rule fuel p3
            (let e = Enough-after fuel p p3 s3 f in omega arith))
          λ set p4 s4.
            chain s4 (parse_where_rule fuel p4 (Enough-after fuel p p4 s4 f))
              λ w p5 s5. finish s5 (omega arith) refl

parse_delete_rule : Reads parse_delete
unfolding parse_delete markers
parse_delete_rule fuel p f = chain (begin p) (skip_rule p) λ _ p1 s1.
    chain s1 (expect_rule kw_from _ p1 refl) λ _ p2 s2.
      chain s2 (parse_name_rule _ p2) λ table p3 s3.
        chain s3 (parse_where_rule fuel p3 (Enough-after fuel p p3 s3 f))
          λ w p4 s4. finish s4 (omega arith) refl

parse_create_rule : Reads parse_create
unfolding parse_create markers
parse_create_rule fuel p f = chain (begin p) (skip_rule p) λ _ p1 s1.
    chain s1 (expect_rule kw_table _ p1 refl) λ _ p2 s2.
      chain s2 (parse_name_rule _ p2) λ table p3 s3.
        chain s3 (expect_rule kind_l_paren _ p3 refl) λ _ p4 s4.
          chain s4
            (unmarked_list_rule parse_column_def parse_column_def_rule fuel p4
              (Enough-after fuel p p4 s4 f))
            λ cs p5 s5. chain s5 (expect_rule kw_primary _ p5 refl) λ _ p6 s6.
              chain s6 (expect_rule kw_key _ p6 refl) λ _ p7 s7.
                chain s7
                  (unmarked_list_rule _ (parse_name_rule _) fuel p7 (Enough-after fuel p p7 s7 f))
                  λ ks p8 s8. chain s8 (expect_rule kind_r_paren _ p8 refl) λ _ p9 s9.
                    chain s9 (accept_rule kw_hold p9 refl)
                      λ _ p10 s10. finish s10 (omega arith) refl

alter_action_of_rule :
    (p : Parser) → Returns (After (tokens 0) unmarked p) (alter_action_of p.tok p)
unfolding alter_action_of
alter_action_of_rule p =
    choose (p.tok.kind == kw_hold) _ _
      (λ _. chain (begin p) (skip_rule p) λ _ q s. finish s (omega arith) refl)
      λ _.
        choose (p.tok.kind == kw_free) _ _
          (λ _. chain (begin p) (skip_rule p) λ _ q s. finish s (omega arith) refl)
          λ _.
            choose (p.tok.kind == kw_add) _ _
              (λ _. chain (begin p) (skip_rule p) λ _ p1 s1.
                chain s1 (parse_column_def_rule p1) λ cd p2 s2.
                  chain s2 (accept_rule kw_hold p2 refl) λ hold p3 s3. finish s3 (omega arith) refl)
              λ _. errorf_rule p.tok _ p

parse_alter_rule : (p : Parser) → Returns (After (tokens 0) markers p) (parse_alter p)
unfolding parse_alter markers
parse_alter_rule p = chain (begin p) (skip_rule p) λ _ p1 s1.
    chain s1 (expect_rule kw_table _ p1 refl) λ _ p2 s2.
      chain s2 (parse_name_rule _ p2) λ table p3 s3.
        chain s3 (alter_action_of_rule p3) λ action p4 s4. finish s4 (omega arith) refl

parse_drop_rule : (p : Parser) → Returns (After (tokens 0) markers p) (parse_drop p)
unfolding parse_drop markers
parse_drop_rule p = chain (begin p) (skip_rule p) λ _ p1 s1.
    chain s1 (expect_rule kw_table _ p1 refl)
      λ _ p2 s2. chain s2 (parse_name_rule _ p2) λ table p3 s3. finish s3 (omega arith) refl

statement_of_rule :
    (fuel : ℕ) (t : Token) (p : Parser)
    → Enough fuel p
    → Returns (After (tokens 0) markers p) (statement_of fuel t p)
unfolding statement_of
statement_of_rule fuel t p f =
    choose (t.kind == kw_select) _ _ (λ _. parse_select_rule fuel p f)
      λ _.
        choose (t.kind == kw_insert) _ _ (λ _. parse_insert_rule fuel p f)
          λ _.
            choose (t.kind == kw_update) _ _ (λ _. parse_update_rule fuel p f)
              λ _.
                choose (t.kind == kw_delete) _ _ (λ _. parse_delete_rule fuel p f)
                  λ _.
                    choose (t.kind == kw_create) _ _ (λ _. parse_create_rule fuel p f)
                      λ _.
                        choose (t.kind == kw_alter) _ _ (λ _. parse_alter_rule p)
                          λ _.
                            choose (t.kind == kw_drop) _ _ (λ _. parse_drop_rule p)
                              λ _. errorf_rule t _ p

at_end_rule :
    (stmt : Stmt) (t : Token) (p q : Parser)
    → Step 0 (markers stmt) p q
    → Returns (After (tokens 0) markers p) (at_end stmt t q)
unfolding at_end
at_end_rule stmt t p q s =
    choose (t.kind == kind_eof) _ _ (λ _. finish s (omega arith) refl) λ _. errorf_rule t _ q

pub parse_statement_rule : Reads parse_statement
unfolding parse_statement
parse_statement_rule fuel p f =
    chain (begin p) (statement_of_rule fuel p.tok p f)
      λ stmt q s. at_end_rule stmt q.tok p q (weaken s (omega arith))
