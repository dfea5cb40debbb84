-- ===== src/Sql/Parser/WellFormed.antt =====
-- What internal/sql/parse.go promises of the statements it returns.
use go_msi.Prelude.{ℕ, ◌<◌, ◌≡◌, ◌==◌, length}
use go_msi.Prelude.Text.{Str}
use go_msi.Sql.{
  AlterAction, alter_hold, alter_free, alter_add, Stmt, select, insert, update, delete,
  create_table, alter_table, drop_table,
}
use go_msi.Sql.Token.{
  Token, kind_eof, kind_l_paren, kind_r_paren, kind_star, kw_add, kw_alter, kw_create, kw_delete,
  kw_distinct, kw_drop, kw_free, kw_from, kw_hold, kw_insert, kw_into, kw_key, kw_order, kw_primary,
  kw_select, kw_set, kw_table, kw_temporary, kw_update, kw_values,
}
use go_msi.Sql.Parser.{Parser, Outcome, ok, accept, expect, skip, parse_name}
use go_msi.Sql.Parser.Stmt.{
  columns_after, parse_where, order_after, insert_column, parse_assignment, parse_table_list,
  parse_select, parse_insert, parse_update, parse_delete, parse_column_def, parse_create,
  alter_action_of, parse_alter, parse_drop, statement_of, at_end, parse_statement, parse_fuel,
  start, parse,
}
use go_msi.Sql.Parser.Makes.{
  Makes, made, failed, stopped, bind, pass, choose-Makes, errorf-Makes, Filled, comma_list-Makes,
  filled, values_list-Makes, ColumnSized, parse_column_def-Makes,
}

abbrev pub ActionWellFormed : AlterAction → Type 0
ActionWellFormed alter_hold = Unit {0}
ActionWellFormed alter_free = Unit {0}
ActionWellFormed (alter_add c hold) = ColumnSized c

-- SELECT and UPDATE name a table, INSERT has as many values as columns and one at least, UPDATE
-- sets something, and the columns of CREATE TABLE and ALTER TABLE have a width of at most 255, and
-- none unless they are a CHAR; CREATE TABLE has a column and a key.
abbrev pub WellFormed : Stmt → Type 0
WellFormed (select s) = 0 < length s.tables
WellFormed (insert s) = (0 < length s.columns) × (length s.values ≡ length s.columns)
WellFormed (update s) = (0 < length s.tables) × (0 < length s.set)
WellFormed (delete s) = Unit {0}
WellFormed (create_table s) = Filled ColumnSized s.columns × (0 < length s.primary_key)
WellFormed (alter_table s) = ActionWellFormed s.action
WellFormed (drop_table t) = Unit {0}

select-Makes : (fuel : ℕ) (p : Parser) → Makes WellFormed (parse_select fuel p)
unfolding parse_select parse_table_list
select-Makes fuel p = pass (skip p) λ _ p1. pass (accept kw_distinct p1) λ distinct p2.
    pass (accept kind_star p2) λ star p3. pass (columns_after fuel star p3) λ cs p4.
      pass (expect kw_from _ p4) λ _ p5. bind (filled (parse_name _) fuel p5) λ ts p6 h.
        pass (parse_where fuel p6)
          λ w p7. pass (accept kw_order p7) λ o p8. pass (order_after fuel o p8) λ os p9. made (h.0)

insert-Makes : (fuel : ℕ) (p : Parser) → Makes WellFormed (parse_insert fuel p)
unfolding parse_insert
insert-Makes fuel p = pass (skip p) λ _ p1. pass (expect kw_into _ p1) λ _ p2.
    pass (parse_name _ p2) λ table p3. pass (expect kind_l_paren _ p3) λ _ p4.
      bind (filled (insert_column table) fuel p4) λ cs p5 h. pass (expect kind_r_paren _ p5) λ _ p6.
        pass (expect kw_values _ p6) λ _ p7. pass (expect kind_l_paren _ p7) λ _ p8.
          bind (values_list-Makes (length cs) (length cs) p8) λ vs p9 e.
            pass (expect kind_r_paren _ p9)
              λ _ p10. pass (accept kw_temporary p10) λ _ p11. made (h.0, e)

update-Makes : (fuel : ℕ) (p : Parser) → Makes WellFormed (parse_update fuel p)
unfolding parse_update parse_table_list
update-Makes fuel p = pass (skip p) λ _ p1. bind (filled (parse_name _) fuel p1) λ ts p2 h.
    pass (expect kw_set _ p2) λ _ p3.
      bind (filled parse_assignment fuel p3)
        λ set p4 k. pass (parse_where fuel p4) λ w p5. made (h.0, k.0)

delete-Makes : (fuel : ℕ) (p : Parser) → Makes WellFormed (parse_delete fuel p)
unfolding parse_delete
delete-Makes fuel p = pass (skip p) λ _ p1.
    pass (expect kw_from _ p1)
      λ _ p2. pass (parse_name _ p2) λ table p3. pass (parse_where fuel p3) λ w p4. made tt

create-Makes : (fuel : ℕ) (p : Parser) → Makes WellFormed (parse_create fuel p)
unfolding parse_create
create-Makes fuel p = pass (skip p) λ _ p1. pass (expect kw_table _ p1) λ _ p2.
    pass (parse_name _ p2) λ table p3. pass (expect kind_l_paren _ p3) λ _ p4.
      bind (comma_list-Makes ColumnSized parse_column_def parse_column_def-Makes fuel p4) λ cs p5 h.
        pass (expect kw_primary _ p5) λ _ p6. pass (expect kw_key _ p6) λ _ p7.
          bind (filled (parse_name _) fuel p7) λ ks p8 k.
            pass (expect kind_r_paren _ p8) λ _ p9. pass (accept kw_hold p9) λ _ p10. made (h, k.0)

action-Makes : (t : Token) (p : Parser) → Makes ActionWellFormed (alter_action_of t p)
unfolding alter_action_of
action-Makes t p =
    choose-Makes (t.kind == kw_hold) _ _ (λ _. pass (skip p) λ _ q. made tt)
      λ _.
        choose-Makes (t.kind == kw_free) _ _ (λ _. pass (skip p) λ _ q. made tt)
          λ _.
            choose-Makes (t.kind == kw_add) _ _
              (λ _. pass (skip p) λ _ p1.
                bind (parse_column_def-Makes p1)
                  λ cd p2 h. pass (accept kw_hold p2) λ hold p3. made h)
              λ _. errorf-Makes t _ p

alter-Makes : (p : Parser) → Makes WellFormed (parse_alter p)
unfolding parse_alter
alter-Makes p = pass (skip p) λ _ p1.
    pass (expect kw_table _ p1)
      λ _ p2. pass (parse_name _ p2) λ table p3. bind (action-Makes p3.tok p3) λ action p4 h. made h

drop-Makes : (p : Parser) → Makes WellFormed (parse_drop p)
unfolding parse_drop
drop-Makes p =
    pass (skip p)
      λ _ p1. pass (expect kw_table _ p1) λ _ p2. pass (parse_name _ p2) λ table p3. made tt

statement-Makes : (fuel : ℕ) (t : Token) (p : Parser) → Makes WellFormed (statement_of fuel t p)
unfolding statement_of
statement-Makes fuel t p =
    choose-Makes (t.kind == kw_select) _ _ (λ _. select-Makes fuel p)
      λ _.
        choose-Makes (t.kind == kw_insert) _ _ (λ _. insert-Makes fuel p)
          λ _.
            choose-Makes (t.kind == kw_update) _ _ (λ _. update-Makes fuel p)
              λ _.
                choose-Makes (t.kind == kw_delete) _ _ (λ _. delete-Makes fuel p)
                  λ _.
                    choose-Makes (t.kind == kw_create) _ _ (λ _. create-Makes fuel p)
                      λ _.
                        choose-Makes (t.kind == kw_alter) _ _ (λ _. alter-Makes p)
                          λ _.
                            choose-Makes (t.kind == kw_drop) _ _ (λ _. drop-Makes p)
                              λ _. errorf-Makes t _ p

at_end-Makes :
    (stmt : Stmt) (t : Token) (p : Parser) → WellFormed stmt → Makes WellFormed (at_end stmt t p)
unfolding at_end
at_end-Makes stmt t p h =
    choose-Makes (t.kind == kind_eof) _ _ (λ _. made h) λ _. errorf-Makes t _ p

parse-Makes : (sql : Str) → Makes WellFormed (parse sql)
unfolding parse parse_statement
parse-Makes sql =
    bind (statement-Makes (parse_fuel sql) (start sql).tok (start sql))
      λ stmt q h. at_end-Makes stmt q.tok q h

abbrev Returned : {A : Type 0} → (A → Type 0) → Outcome A → Type 0
Returned P (ok a p) = P a
Returned P r = Unit {0}

Makes-Returned : {A : Type 0} {P : A → Type 0} {r : Outcome A} → Makes P r → Returned P r
Makes-Returned (made h) = h
Makes-Returned failed = tt
Makes-Returned stopped = tt

-- A statement that Parse returns is well-formed.
pub parse-WellFormed :
    (sql : Str) (stmt : Stmt) (p : Parser) → parse sql ≡ ok stmt p → WellFormed stmt
parse-WellFormed sql stmt p e = rw e at (Makes-Returned (parse-Makes sql))
