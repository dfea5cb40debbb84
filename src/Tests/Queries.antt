-- ===== src/Tests/Queries.antt =====
-- Runs of the queries of msidb/query.go.
use go_msi.Prelude.{
  take, drop, ◌++◌, ◌^◌, ℕ, zero, suc, ◌<◌, ◌≡◌, refl, Bool, true, false, List, [], ◌∷◌, none, some,
  arith, if◌then◌else◌,
}
use go_msi.Prelude.Text.{Str, bytes, eq_str}
use go_msi.Column.{Column, column_integer}
use go_msi.Format.{decode_int, to_signed}
use go_msi.Search.{search_loop, first_index}
use go_msi.Sql.{ColumnRef, Expr, Select, and, column_equal, comparison, op_less, int_lit}
use go_msi.Prelude.Int.{pos}
use go_msi.StringPool.{Pool, empty_pool}
use go_msi.StringPool.Valid.{empty_pool-Valid}
use go_msi.Table.{Table, Row, new_table}
use go_msi.Errors.{or_value}
use go_msi.Convert.{normalize, reduce, int_value, in_range}
use go_msi.Query.{
  Source, Query, new_query, fresh_query, find_tables, contains_str, find_column, names_cell, column,
  first_key, ordinal, literal, compare_int,
}
use go_msi.Query.Compile.{
  restrict, add_term, compile, compile_column_equal, compile_comparison, equal_or_refuse, same_type,
  add_cond, constant, plain_constant, typed_constant, is_null_value, compares,
}
use go_msi.Query.Walk.{gather, walk, walk_rows, window}
use go_msi.Query.Select.{select}
use go_msi.Table.{compare_keys, find, insert_at}
use go_msi.Table.Find.{IsSorted, Increasing, Located, Increasing-IsSorted, find-Located}
use go_msi.Table.Insert.{insert_at-find}
use go_msi.Query.Meaning.{evaluate, GoodRow}
use go_msi.Query.Named.{Resolved}
use go_msi.Query.Columns.{column-Resolved}
use go_msi.Query.Answer.{gather-restrict}
use go_msi.Dml.{exec_select, restrict_by}
use go_msi.Dml.Answer.{Answers, exec_select-Answers}

abbrev int_column : Str → ℕ → Bool → Column
int_column name size key = record {
  name = name;
  type = column_integer;
  size = size;
  primary_key = key;
  nullable = not_key key;
  localizable = false;
  temporary = false;
  table = [];
}
  where
    not_key : Bool → Bool
    not_key true = false
    not_key false = true

abbrev row : List ℕ → Row
row cells = record { cells = cells; temporary = false }

-- Table A has a key and a value that may be NULL, table B a key.
abbrev table_a : Table
table_a =
    record (new_table (bytes "A")
      (int_column (bytes "K") 2 true ∷ int_column (bytes "V") 4 false ∷ [])) {
        records = row (0x8001 ∷ 0x8000_0005 ∷ []) ∷ row (0x8007 ∷ 0 ∷ []) ∷ [];
      }

abbrev table_b : Table
table_b = record (new_table (bytes "B") (int_column (bytes "I") 2 true ∷ [])) {
  records = row (0x8001 ∷ []) ∷ row (0x8003 ∷ []) ∷ row (0x8007 ∷ []) ∷ [];
}

abbrev pool : Pool
pool = empty_pool 1252 false

abbrev source : Source
source = record {
  tables = λ s.
      if eq_str s (bytes "A")
      then some table_a
      else if eq_str s (bytes "B")
      then some table_b
      else none;
  pool = pool;
}

abbrev plain : Str → ColumnRef
plain s = record { table = []; name = s }

-- WHERE K = I AND V < 9
abbrev clause : Expr
clause =
    and (column_equal (plain (bytes "K")) (plain (bytes "I")))
      (comparison (plain (bytes "V")) op_less (int_lit (pos 9)))

abbrev no_query : Query
no_query = record { db = source; op = []; tables = []; args = []; scans = [] }

abbrev names : List Str
names = bytes "A" ∷ bytes "B" ∷ []

abbrev query : Query
query = fresh_query source (bytes "query") [] (table_a ∷ table_b ∷ [])

abbrev restricted : Query
restricted = or_value no_query (restrict query clause)

gather_rows : gather restricted ≡ row (0x8001 ∷ 0x8000_0005 ∷ []) ∷ row (0x8001 ∷ []) ∷ []
unfolding eq_str new_table restrict add_term compile compile_column_equal equal_or_refuse same_type
    compile_comparison add_cond constant plain_constant typed_constant is_null_value compares
    compare_int column find_column names_cell first_key ordinal literal normalize reduce int_value
    in_range gather walk walk_rows window first_index search_loop decode_int to_signed
gather_rows = refl

table_a-Increasing : Increasing table_a.keys table_a.records
unfolding new_table compare_keys
table_a-Increasing zero zero p q = absurd (omega arith)
table_a-Increasing zero (suc zero) p q = refl
table_a-Increasing zero (suc (suc j)) p q = absurd (omega arith)
table_a-Increasing (suc i) j p q = absurd (omega arith)

table_b-Increasing : Increasing table_b.keys table_b.records
unfolding new_table compare_keys
table_b-Increasing zero zero p q = absurd (omega arith)
table_b-Increasing zero (suc zero) p q = refl
table_b-Increasing zero (suc (suc zero)) p q = refl
table_b-Increasing zero (suc (suc (suc j))) p q = absurd (omega arith)
table_b-Increasing (suc zero) zero p q = absurd (omega arith)
table_b-Increasing (suc zero) (suc zero) p q = absurd (omega arith)
table_b-Increasing (suc zero) (suc (suc zero)) p q = refl
table_b-Increasing (suc zero) (suc (suc (suc j))) p q = absurd (omega arith)
table_b-Increasing (suc (suc i)) j p q = absurd (omega arith)

table_a-IsSorted : IsSorted table_a.keys table_a.records
table_a-IsSorted = Increasing-IsSorted table_a.keys table_a.records table_a-Increasing

table_b-IsSorted : IsSorted table_b.keys table_b.records
table_b-IsSorted = Increasing-IsSorted table_b.keys table_b.records table_b-Increasing

good_a : (k v : ℕ) → k < 2 ^ 16 → v < 2 ^ 32 → GoodRow pool table_a (row (k ∷ v ∷ []))
unfolding new_table
good_a k v h g zero = (omega arith, omega arith)
good_a k v h g (suc zero) = (omega arith, omega arith)
good_a k v h g (suc (suc i)) = (omega arith, tt)

good_b : (k : ℕ) → k < 2 ^ 16 → GoodRow pool table_b (row (k ∷ []))
unfolding new_table
good_b k h zero = (omega arith, omega arith)
good_b k h (suc i) = (omega arith, tt)

gather-restrict_example :
    gather restricted ≡ select (table_a ∷ table_b ∷ []) (evaluate query clause) []
unfolding new_query find_tables contains_str eq_str new_table restrict add_term compile
    compile_column_equal equal_or_refuse same_type compile_comparison add_cond constant
    plain_constant typed_constant is_null_value column find_column names_cell literal normalize
    reduce int_value in_range
gather-restrict_example =
    gather-restrict source (bytes "query") names [] clause query restricted refl refl
      (empty_pool-Valid 1252 false) (λ h. ground (arith, h))
      ((λ h. ground (arith, h), table_a-IsSorted), ((λ h. ground (arith, h), table_b-IsSorted), tt))
      (
        (
          good_a 0x8001 0x8000_0005 (omega arith) (omega arith),
          (good_a 0x8007 0 (omega arith) (omega arith), tt),
        ),
        (
          (
            good_b 0x8001 (omega arith),
            (good_b 0x8003 (omega arith), (good_b 0x8007 (omega arith), tt)),
          ),
          tt,
        ),
      )

-- SELECT DISTINCT * FROM A, B WHERE K = I AND V < 9 ORDER BY V
abbrev sorted_query : Select
sorted_query = record {
  distinct = true;
  columns = [];
  tables = names;
  condition = some clause;
  order_by = plain (bytes "V") ∷ [];
}

exec_select-Answers_example : Answers query sorted_query (exec_select source sorted_query [])
unfolding new_query find_tables contains_str eq_str new_table restrict_by restrict add_term compile
    compile_column_equal equal_or_refuse same_type compile_comparison add_cond constant
    plain_constant typed_constant is_null_value column find_column names_cell literal normalize
    reduce int_value in_range
exec_select-Answers_example =
    exec_select-Answers source sorted_query [] query restricted refl refl
      (empty_pool-Valid 1252 false) (λ h. ground (arith, h))
      ((λ h. ground (arith, h), table_a-IsSorted), ((λ h. ground (arith, h), table_b-IsSorted), tt))
      (
        (
          good_a 0x8001 0x8000_0005 (omega arith) (omega arith),
          (good_a 0x8007 0 (omega arith) (omega arith), tt),
        ),
        (
          (
            good_b 0x8001 (omega arith),
            (good_b 0x8003 (omega arith), (good_b 0x8007 (omega arith), tt)),
          ),
          tt,
        ),
      )

-- Table B has no 0x8005, which would stand third.
not_found : ℕ → ℕ × Bool
not_found i = (i, false)

find-Located_example :
    Located table_b.keys table_b.records (row (0x8005 ∷ [])) (find table_b (row (0x8005 ∷ [])))
find-Located_example = find-Located table_b (row (0x8005 ∷ [])) table_b-IsSorted

find_third : find table_b (row (0x8005 ∷ [])) ≡ not_found 2
unfolding find not_found new_table compare_keys first_index search_loop
find_third = refl

insert_at-find_example :
    (insert_at 2 (row (0x8005 ∷ [])) table_b.records
      ≡ take 2 table_b.records ++ (row (0x8005 ∷ []) ∷ drop 2 table_b.records))
    × IsSorted table_b.keys (insert_at 2 (row (0x8005 ∷ [])) table_b.records)
unfolding not_found
insert_at-find_example = insert_at-find table_b (row (0x8005 ∷ [])) 2 table_b-IsSorted find_third

-- Both tables are asked for I, and B has it.
column-Resolved_example :
    Resolved (table_a ∷ table_b ∷ []) (plain (bytes "I")) (column query (plain (bytes "I")))
column-Resolved_example = column-Resolved query (plain (bytes "I"))
