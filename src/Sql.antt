-- ===== src/Sql.antt =====
-- internal/sql: the MSI SQL dialect. Statements stand here, the scanner and the parser below.
pub mod Token
pub mod Scan
pub mod Parser
use go_msi.Prelude.{ℕ, ◌+◌, Bool, List, [], ◌∷◌, ◌++◌, Option, none, some}
use go_msi.Prelude.Int.{ℤ}
use go_msi.Prelude.Text.{Str}

-- A table of `[]` is an unqualified name.
pub record ColumnRef : Type 0 where
  pub table : Str
  pub name : Str

pub data Value : Type 0 where
  int_lit : ℤ → Value
  string_lit : Str → Value
  marker : ℕ → Value
  null : Value

pub data CompareOp : Type 0 where
  op_equal op_not_equal op_less op_less_equal op_greater op_greater_equal : CompareOp

pub data Expr : Type 0 where
  and : Expr → Expr → Expr
  or : Expr → Expr → Expr
  column_equal : ColumnRef → ColumnRef → Expr
  comparison : ColumnRef → CompareOp → Value → Expr
  is_null : ColumnRef → Bool → Expr

pub data DataType : Type 0 where
  type_char type_long_char type_short type_int type_long type_object : DataType

pub record ColumnDef : Type 0 where
  pub name : Str
  pub type : DataType
  pub size : ℕ
  pub not_null : Bool
  pub localizable : Bool
  pub temporary : Bool

pub record Assignment : Type 0 where
  pub column : ColumnRef
  pub value : Value

-- `[]` for the nil Columns of SELECT *, and for a nil OrderBy.
pub record Select : Type 0 where
  pub distinct : Bool
  pub columns : List ColumnRef
  pub tables : List Str
  pub condition : Option Expr
  pub order_by : List ColumnRef

pub record Insert : Type 0 where
  pub table : Str
  pub columns : List Str
  pub values : List Value
  pub temporary : Bool

pub record Update : Type 0 where
  pub tables : List Str
  pub set : List Assignment
  pub condition : Option Expr

pub record Delete : Type 0 where
  pub table : Str
  pub condition : Option Expr

pub record CreateTable : Type 0 where
  pub table : Str
  pub columns : List ColumnDef
  pub primary_key : List Str
  pub hold : Bool

-- The action of ALTER TABLE; ADD carries its column and HOLD.
pub data AlterAction : Type 0 where
  alter_hold : AlterAction
  alter_free : AlterAction
  alter_add : ColumnDef → Bool → AlterAction

pub record AlterTable : Type 0 where
  pub table : Str
  pub action : AlterAction

pub data Stmt : Type 0 where
  select : Select → Stmt
  insert : Insert → Stmt
  update : Update → Stmt
  delete : Delete → Stmt
  create_table : CreateTable → Stmt
  alter_table : AlterTable → Stmt
  drop_table : Str → Stmt

unfoldable pub value_params : Value → ℕ
value_params (marker n) = 1
value_params (int_lit n) = 0
value_params (string_lit s) = 0
value_params null = 0

unfoldable pub expr_params : Expr → ℕ
unfolding value_params
expr_params (and l r) = expr_params l + expr_params r
expr_params (or l r) = expr_params l + expr_params r
expr_params (comparison c op v) = value_params v
expr_params (column_equal l r) = 0
expr_params (is_null c n) = 0

-- A nil expression has no parameters.
unfoldable pub where_params : Option Expr → ℕ
unfolding expr_params
where_params none = 0
where_params (some e) = expr_params e

unfoldable pub values_params : List Value → ℕ
unfolding value_params
values_params [] = 0
values_params (v ∷ vs) = value_params v + values_params vs

unfoldable pub set_params : List Assignment → ℕ
unfolding value_params
set_params [] = 0
set_params (a ∷ as') = value_params a.value + set_params as'

unfoldable pub params : Stmt → ℕ
unfolding where_params values_params set_params
params (select s) = where_params s.condition
params (insert s) = values_params s.values
params (update s) = where_params s.condition + set_params s.set
params (delete s) = where_params s.condition
params (create_table s) = 0
params (alter_table s) = 0
params (drop_table t) = 0

-- The markers of a statement, in the order of the source text.
unfoldable pub value_markers : Value → List ℕ
value_markers (marker n) = n ∷ []
value_markers (int_lit n) = []
value_markers (string_lit s) = []
value_markers null = []

unfoldable pub expr_markers : Expr → List ℕ
unfolding value_markers
expr_markers (and l r) = expr_markers l ++ expr_markers r
expr_markers (or l r) = expr_markers l ++ expr_markers r
expr_markers (comparison c op v) = value_markers v
expr_markers (column_equal l r) = []
expr_markers (is_null c n) = []

unfoldable pub where_markers : Option Expr → List ℕ
where_markers none = []
where_markers (some e) = expr_markers e

-- The markers of a list, item by item.
unfoldable pub list_markers : {A : Type 0} → (A → List ℕ) → List A → List ℕ
list_markers f [] = []
list_markers f (x ∷ xs) = f x ++ list_markers f xs

unfoldable pub assignment_markers : Assignment → List ℕ
assignment_markers a = value_markers a.value

unfoldable pub markers : Stmt → List ℕ
markers (select s) = where_markers s.condition
markers (insert s) = list_markers value_markers s.values
markers (update s) = list_markers assignment_markers s.set ++ where_markers s.condition
markers (delete s) = where_markers s.condition
markers (create_table s) = []
markers (alter_table s) = []
markers (drop_table t) = []
