-- ===== src/Sql/Token.antt =====
-- internal/sql/scan.go: kinds of tokens, and the keywords.
use go_msi.Prelude.{
  ℕ, ◌-◌, ◌||◌, ◌&&◌, leb, ltb, if◌then◌else◌, [], ◌∷◌, Option, none, some, length,
}
use go_msi.Prelude.Text.{Str, bytes, eq_str}

-- `type kind uint8`, numbered by iota.
abbrev pub Kind : Type 0
Kind = ℕ

abbrev pub kind_error : Kind
kind_error = 0

abbrev pub kind_eof : Kind
kind_eof = 1

abbrev pub kind_ident : Kind
kind_ident = 2

abbrev pub kind_string : Kind
kind_string = 3

abbrev pub kind_int : Kind
kind_int = 4

abbrev pub kind_param : Kind
kind_param = 5

abbrev pub kind_l_paren : Kind
kind_l_paren = 6

abbrev pub kind_r_paren : Kind
kind_r_paren = 7

abbrev pub kind_comma : Kind
kind_comma = 8

abbrev pub kind_dot : Kind
kind_dot = 9

abbrev pub kind_star : Kind
kind_star = 10

abbrev pub kind_eq : Kind
kind_eq = 11

abbrev pub kind_ne : Kind
kind_ne = 12

abbrev pub kind_lt : Kind
kind_lt = 13

abbrev pub kind_le : Kind
kind_le = 14

abbrev pub kind_gt : Kind
kind_gt = 15

abbrev pub kind_ge : Kind
kind_ge = 16

abbrev pub kw_add : Kind
kw_add = 17

abbrev pub kw_alter : Kind
kw_alter = 18

abbrev pub kw_and : Kind
kw_and = 19

abbrev pub kw_as : Kind
kw_as = 20

abbrev pub kw_by : Kind
kw_by = 21

abbrev pub kw_char : Kind
kw_char = 22

abbrev pub kw_create : Kind
kw_create = 23

abbrev pub kw_delete : Kind
kw_delete = 24

abbrev pub kw_distinct : Kind
kw_distinct = 25

abbrev pub kw_drop : Kind
kw_drop = 26

abbrev pub kw_free : Kind
kw_free = 27

abbrev pub kw_from : Kind
kw_from = 28

abbrev pub kw_hold : Kind
kw_hold = 29

abbrev pub kw_insert : Kind
kw_insert = 30

abbrev pub kw_int : Kind
kw_int = 31

abbrev pub kw_into : Kind
kw_into = 32

abbrev pub kw_is : Kind
kw_is = 33

abbrev pub kw_key : Kind
kw_key = 34

abbrev pub kw_localizable : Kind
kw_localizable = 35

abbrev pub kw_long : Kind
kw_long = 36

abbrev pub kw_longchar : Kind
kw_longchar = 37

abbrev pub kw_not : Kind
kw_not = 38

abbrev pub kw_null : Kind
kw_null = 39

abbrev pub kw_object : Kind
kw_object = 40

abbrev pub kw_or : Kind
kw_or = 41

abbrev pub kw_order : Kind
kw_order = 42

abbrev pub kw_primary : Kind
kw_primary = 43

abbrev pub kw_select : Kind
kw_select = 44

abbrev pub kw_set : Kind
kw_set = 45

abbrev pub kw_short : Kind
kw_short = 46

abbrev pub kw_table : Kind
kw_table = 47

abbrev pub kw_temporary : Kind
kw_temporary = 48

abbrev pub kw_update : Kind
kw_update = 49

abbrev pub kw_values : Kind
kw_values = 50

abbrev pub kw_varchar : Kind
kw_varchar = 51

abbrev pub kw_where : Kind
kw_where = 52

pub record Token : Type 0 where
  pub kind : Kind
  pub text : Str
  pub pos : ℕ

-- `c -= 'a' - 'A'` on a lower-case letter
unfoldable pub upper : ℕ → ℕ
upper c = if leb b'a' c && leb c b'z' then c - 32 else c

unfoldable pub upper_word : Str → Str
unfolding upper
upper_word [] = []
upper_word (c ∷ cs) = upper c ∷ upper_word cs

-- The switch of keywordKind on the word in upper case.
unfoldable pub keyword_of : Str → Option Kind
unfolding eq_str
keyword_of w =
    if eq_str w (bytes "ADD")
    then some kw_add
    else if eq_str w (bytes "ALTER")
    then some kw_alter
    else if eq_str w (bytes "AND")
    then some kw_and
    else if eq_str w (bytes "AS")
    then some kw_as
    else if eq_str w (bytes "BY")
    then some kw_by
    else if eq_str w (bytes "CHAR") || eq_str w (bytes "CHARACTER")
    then some kw_char
    else if eq_str w (bytes "CREATE")
    then some kw_create
    else if eq_str w (bytes "DELETE")
    then some kw_delete
    else if eq_str w (bytes "DISTINCT")
    then some kw_distinct
    else if eq_str w (bytes "DROP")
    then some kw_drop
    else if eq_str w (bytes "FREE")
    then some kw_free
    else if eq_str w (bytes "FROM")
    then some kw_from
    else if eq_str w (bytes "HOLD")
    then some kw_hold
    else if eq_str w (bytes "INSERT")
    then some kw_insert
    else if eq_str w (bytes "INT") || eq_str w (bytes "INTEGER")
    then some kw_int
    else if eq_str w (bytes "INTO")
    then some kw_into
    else if eq_str w (bytes "IS")
    then some kw_is
    else if eq_str w (bytes "KEY")
    then some kw_key
    else if eq_str w (bytes "LOCALIZABLE")
    then some kw_localizable
    else if eq_str w (bytes "LONG")
    then some kw_long
    else if eq_str w (bytes "LONGCHAR")
    then some kw_longchar
    else if eq_str w (bytes "NOT")
    then some kw_not
    else if eq_str w (bytes "NULL")
    then some kw_null
    else if eq_str w (bytes "OBJECT")
    then some kw_object
    else if eq_str w (bytes "OR")
    then some kw_or
    else if eq_str w (bytes "ORDER")
    then some kw_order
    else if eq_str w (bytes "PRIMARY")
    then some kw_primary
    else if eq_str w (bytes "SELECT")
    then some kw_select
    else if eq_str w (bytes "SET")
    then some kw_set
    else if eq_str w (bytes "SHORT")
    then some kw_short
    else if eq_str w (bytes "TABLE")
    then some kw_table
    else if eq_str w (bytes "TEMPORARY")
    then some kw_temporary
    else if eq_str w (bytes "UPDATE")
    then some kw_update
    else if eq_str w (bytes "VALUES")
    then some kw_values
    else if eq_str w (bytes "VARCHAR")
    then some kw_varchar
    else if eq_str w (bytes "WHERE")
    then some kw_where
    else none

unfoldable pub keyword_kind : Str → Option Kind
unfolding upper_word keyword_of
keyword_kind word =
    if ltb (length word) 2 || ltb 11 (length word) then none else keyword_of (upper_word word)
