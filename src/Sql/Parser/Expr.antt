-- ===== src/Sql/Parser/Expr.antt =====
-- internal/sql/parse.go: the expressions of a WHERE clause.
use go_msi.Prelude.{ℕ, zero, suc, ◌==◌, if◌then◌else◌, Bool, true, false}
use go_msi.Prelude.Text.{bytes}
use go_msi.Sql.{
  ColumnRef, Expr, and, or, column_equal, comparison, is_null, CompareOp, op_equal, op_not_equal,
  op_less, op_less_equal, op_greater, op_greater_equal,
}
use go_msi.Sql.Token.{
  Token, kind_ident, kind_l_paren, kind_r_paren, kind_eq, kind_ne, kind_lt, kind_le, kind_gt,
  kind_ge, kw_and, kw_or, kw_is, kw_not, kw_null,
}
use go_msi.Sql.Scan.{expected, plain}
use go_msi.Sql.Parser.{
  M, stuck, ◌>>=◌, ◌>>◌, pure, current, skip, accept, errorf, expect, parse_column_ref, parse_value,
}

-- The switch of parseCompareOp.
unfoldable pub compare_op_of : Token → M CompareOp
compare_op_of t =
    if t.kind == kind_eq
    then skip >> pure op_equal
    else if t.kind == kind_ne
    then skip >> pure op_not_equal
    else if t.kind == kind_lt
    then skip >> pure op_less
    else if t.kind == kind_le
    then skip >> pure op_less_equal
    else if t.kind == kind_gt
    then skip >> pure op_greater
    else if t.kind == kind_ge
    then skip >> pure op_greater_equal
    else errorf t (expected (bytes "comparison operator"))

unfoldable pub parse_compare_op : M CompareOp
parse_compare_op = current >>= compare_op_of

-- The right side of `=` if it is a column.
unfoldable pub column_side : ColumnRef → Token → CompareOp → M Expr
column_side col t op_equal = do right ← parse_column_ref; pure (column_equal col right)
column_side col t op = errorf t (plain (bytes "expected '=' between columns"))

unfoldable pub comparison_side : ColumnRef → Token → CompareOp → Token → M Expr
comparison_side col t op next =
    if next.kind == kind_ident
    then column_side col t op
    else do v ← parse_value; pure (comparison col op v)

-- What follows a column: IS NULL, IS NOT NULL, or an operator with its right side.
unfoldable pub predicate : ColumnRef → Bool → M Expr
predicate col true = do
  negated ← accept kw_not
  expect kw_null (bytes "'NULL'")
  pure (is_null col negated)
predicate col false = do
  t ← current
  op ← parse_compare_op
  next ← current
  comparison_side col t op next

unfoldable pub column_predicate : M Expr
column_predicate = do col ← parse_column_ref; is ← accept kw_is; predicate col is

-- parsePrimary behind its test for a parenthesis; `inner` is parseExpr.
unfoldable pub primary_after : M Expr → Bool → M Expr
primary_after inner true = do e ← inner; expect kind_r_paren (bytes "')'"); pure e
primary_after inner false = column_predicate

-- The loops `for p.accept(kw)`: `next` goes on with the joined expression.
unfoldable pub join_after : (Expr → Expr → Expr) → M Expr → (Expr → M Expr) → Expr → Bool → M Expr
join_after join operand next left true = do right ← operand; next (join left right)
join_after join operand next left false = pure left

-- parseOr and parseAnd with their loops, and parsePrimary. All recur on one fuel.
unfoldable mutual
  pub parse_or : ℕ → M Expr
  parse_or zero p = stuck
  parse_or (suc fuel) p = (parse_and fuel >>= or_loop fuel) p

  pub or_loop : ℕ → Expr → M Expr
  or_loop zero left p = stuck
  or_loop (suc fuel) left p =
      (accept kw_or >>= join_after or (parse_and fuel) (or_loop fuel) left) p

  pub parse_and : ℕ → M Expr
  parse_and zero p = stuck
  parse_and (suc fuel) p = (parse_primary fuel >>= and_loop fuel) p

  pub and_loop : ℕ → Expr → M Expr
  and_loop zero left p = stuck
  and_loop (suc fuel) left p =
      (accept kw_and >>= join_after and (parse_primary fuel) (and_loop fuel) left) p

  pub parse_primary : ℕ → M Expr
  parse_primary zero p = stuck
  parse_primary (suc fuel) p = (accept kind_l_paren >>= primary_after (parse_or fuel)) p

unfoldable pub parse_expr : ℕ → M Expr
parse_expr fuel = parse_or fuel
