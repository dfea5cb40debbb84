-- ===== src/Tests/Sql.antt =====
-- internal/sql on small statements.
use go_msi.Prelude.{◌≡◌, ◌≢◌, [], ◌∷◌, true, false, none, some, refl}
use go_msi.Prelude.Int.{negsuc}
use go_msi.Prelude.Text.{Str, bytes}
use go_msi.Sql.{
  int_lit, marker, comparison, op_greater, Stmt, update, create_table, type_char, type_long, params,
  markers,
}
use go_msi.Sql.Token.{kind_eof, upper, upper_word, keyword_of, keyword_kind}
use go_msi.Sql.Scan.{
  expected_values, is_space, is_digit, is_ident_start, is_ident, errorf as scan_errorf, forward,
  tok, count_while, index_byte, scan_less, scan_greater, quoted, string_token, scan_string,
  quoted_token, scan_quoted, scan_number_end, scan_number, word_token, scan_ident, scan_at,
  scan_next, skip_space, scan,
}
use go_msi.Sql.Parser.{
  Parser, ok, fail, stuck, advance, skip, accept, errorf, expect, parse_name, column_ref_after,
  parse_column_ref, list_after, comma_list, digits_value, atoi, int_value, next_marker, value_of,
  parse_value,
}
use go_msi.Sql.Parser.Expr.{
  compare_op_of, parse_compare_op, column_side, comparison_side, predicate, column_predicate,
  primary_after, join_after, parse_expr, parse_or, or_loop, parse_and, and_loop, parse_primary,
}
use go_msi.Sql.Parser.Stmt.{
  parse_table_list, where_after, parse_where, columns_after, order_after, parse_select, own_column,
  insert_column, wrong_count, values_after, values_list, parse_insert, parse_assignment,
  parse_update, parse_delete, width_of, parse_width, width_after, column_type_of, not_null_after,
  parse_column_def, parse_create, alter_action_of, parse_alter, parse_drop, statement_of, at_end,
  parse_statement, start, parse_fuel, parse,
}
use go_msi.Sql.Parser.Steps.{Numbered}
use go_msi.Sql.Parser.WellFormed.{WellFormed, parse-WellFormed}
use go_msi.Sql.Parser.Markers.{parse_total, parse-Numbered}

-- UPDATE T SET A=?,B=-7 WHERE C>?
abbrev update_text : Str
update_text = bytes "UPDATE T SET A=?,B=-7 WHERE C>?"

abbrev update_stmt : Stmt
update_stmt = update (record {
  tables = bytes "T" ∷ [];
  set =
      record { column = record { table = []; name = bytes "A" }; value = marker 0 }
      ∷ record { column = record { table = []; name = bytes "B" }; value = int_lit (negsuc 6) }
      ∷ [];
  condition = some (comparison (record { table = []; name = bytes "C" }) op_greater (marker 1));
})

abbrev update_end : Parser
update_end = record {
  sc = record { rest = []; pos = 31; err = none };
  tok = record { kind = kind_eof; text = []; pos = 31 };
  params = 2;
}

update_runs : parse update_text ≡ ok update_stmt update_end
unfolding upper upper_word keyword_of keyword_kind is_space is_digit is_ident_start is_ident
    scan_errorf forward tok count_while index_byte scan_less scan_greater quoted string_token
    scan_string quoted_token scan_quoted scan_number_end scan_number word_token scan_ident scan_at
    scan_next skip_space scan advance skip accept errorf expect parse_name column_ref_after
    parse_column_ref list_after comma_list digits_value atoi int_value next_marker value_of
    parse_value compare_op_of parse_compare_op column_side comparison_side predicate
    column_predicate primary_after join_after parse_expr parse_or or_loop parse_and and_loop
    parse_primary parse_table_list where_after parse_where columns_after order_after parse_select
    own_column insert_column wrong_count values_after values_list parse_insert parse_assignment
    parse_update parse_delete width_of parse_width width_after column_type_of not_null_after
    parse_column_def parse_create alter_action_of parse_alter parse_drop statement_of at_end
    parse_statement start parse_fuel parse
update_runs = refl

-- CREATE TABLE with a width, a type that takes none, and a key.
abbrev create_text : Str
create_text = bytes "CREATE TABLE T (A CHAR(72) NOT NULL, B LONG PRIMARY KEY A)"

abbrev create_stmt : Stmt
create_stmt = create_table (record {
  table = bytes "T";
  columns =
      record {
        name = bytes "A";
        type = type_char;
        size = 72;
        not_null = true;
        localizable = false;
        temporary = false;
      }
      ∷ record {
        name = bytes "B";
        type = type_long;
        size = 0;
        not_null = false;
        localizable = false;
        temporary = false;
      }
      ∷ [];
  primary_key = bytes "A" ∷ [];
  hold = false;
})

abbrev create_end : Parser
create_end = record {
  sc = record { rest = []; pos = 58; err = none };
  tok = record { kind = kind_eof; text = []; pos = 58 };
  params = 0;
}

create_runs : parse create_text ≡ ok create_stmt create_end
unfolding upper upper_word keyword_of keyword_kind is_space is_digit is_ident_start is_ident
    scan_errorf forward tok count_while index_byte scan_less scan_greater quoted string_token
    scan_string quoted_token scan_quoted scan_number_end scan_number word_token scan_ident scan_at
    scan_next skip_space scan advance skip accept errorf expect parse_name column_ref_after
    parse_column_ref list_after comma_list digits_value atoi int_value next_marker value_of
    parse_value compare_op_of parse_compare_op column_side comparison_side predicate
    column_predicate primary_after join_after parse_expr parse_or or_loop parse_and and_loop
    parse_primary parse_table_list where_after parse_where columns_after order_after parse_select
    own_column insert_column wrong_count values_after values_list parse_insert parse_assignment
    parse_update parse_delete width_of parse_width width_after column_type_of not_null_after
    parse_column_def parse_create alter_action_of parse_alter parse_drop statement_of at_end
    parse_statement start parse_fuel parse
create_runs = refl

-- One value for two columns.
insert_fails :
    parse (bytes "INSERT INTO T (A,B) VALUES (1)")
    ≡ fail (record { pos = 29; msg = expected_values 2 })
unfolding upper upper_word keyword_of keyword_kind is_space is_digit is_ident_start is_ident
    scan_errorf forward tok count_while index_byte scan_less scan_greater quoted string_token
    scan_string quoted_token scan_quoted scan_number_end scan_number word_token scan_ident scan_at
    scan_next skip_space scan advance skip accept errorf expect parse_name column_ref_after
    parse_column_ref list_after comma_list digits_value atoi int_value next_marker value_of
    parse_value compare_op_of parse_compare_op column_side comparison_side predicate
    column_predicate primary_after join_after parse_expr parse_or or_loop parse_and and_loop
    parse_primary parse_table_list where_after parse_where columns_after order_after parse_select
    own_column insert_column wrong_count values_after values_list parse_insert parse_assignment
    parse_update parse_delete width_of parse_width width_after column_type_of not_null_after
    parse_column_def parse_create alter_action_of parse_alter parse_drop statement_of at_end
    parse_statement start parse_fuel parse
insert_fails = refl

parse_total_example : parse update_text ≢ stuck
parse_total_example = parse_total update_text

parse-Numbered_example :
    Numbered 0 (markers update_stmt) (params update_stmt) × (update_end.params ≡ params update_stmt)
parse-Numbered_example = parse-Numbered update_text update_stmt update_end update_runs

parse-WellFormed_example : WellFormed create_stmt
parse-WellFormed_example = parse-WellFormed create_text create_stmt create_end create_runs
