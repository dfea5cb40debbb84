-- ===== src/Sql/Parser/ExprRules.antt =====
-- The rules of internal/sql/parse.go for the expressions of a WHERE clause.
use go_msi.Prelude.{
  ℕ, zero, suc, ◌+◌, ◌*◌, ◌≤◌, ◌≡◌, ◌==◌, if◌then◌else◌, Bool, true, false, [], ◌++◌, append-nil,
  refl, ap, arith,
}
use go_msi.Sql.{
  ColumnRef, Expr, and, or, CompareOp, op_equal, op_not_equal, op_less, op_less_equal, op_greater,
  op_greater_equal, expr_markers,
}
use go_msi.Sql.Token.{
  Token, kind_ident, kind_l_paren, kind_r_paren, kind_eq, kind_ne, kind_lt, kind_le, kind_gt,
  kind_ge, kw_and, kw_or, kw_is, kw_not, kw_null,
}
use go_msi.Sql.Parser.{Parser, M, ◌>>◌, pure, skip}
use go_msi.Sql.Parser.Expr.{
  compare_op_of, parse_compare_op, column_side, comparison_side, predicate, column_predicate,
  primary_after, join_after, parse_or, or_loop, parse_and, and_loop, parse_primary,
}
use go_msi.Sql.Parser.Steps.{
  left_to_read, Step, Returns, After, unmarked, tokens, bit, chain, chain_round, begin, weaken,
  finish, last, choose, IsReal, real, skip_rule, errorf_rule, accept_rule, expect_rule,
  current_rule,
}
use go_msi.Sql.Parser.Rules.{parse_column_ref_rule, parse_value_rule}

-- A switch's branch that takes the token at hand, or looks at the branches behind it.
pub take_or_else :
    {A : Type 0} (k : ℕ) (a : A) (rest : M A) (p : Parser)
    → IsReal k
    → Returns (After (tokens 1) unmarked p) (rest p)
    → Returns (After (tokens 1) unmarked p) ((if p.tok.kind == k then skip >> pure a else rest) p)
take_or_else k a rest p h r =
    choose (p.tok.kind == k) _ _
      (λ e. chain (begin p) (skip_rule p) λ _ q s. finish s (omega (arith, real k p.tok h e)) refl)
      λ _. r

parse_compare_op_rule : (p : Parser) → Returns (After (tokens 1) unmarked p) (parse_compare_op p)
unfolding parse_compare_op compare_op_of
parse_compare_op_rule p = take_or_else kind_eq _ _ p refl (
    take_or_else kind_ne _ _ p refl (
      take_or_else kind_lt _ _ p refl (
        take_or_else kind_le _ _ p refl (
          take_or_else kind_gt _ _ p refl
            (take_or_else kind_ge _ _ p refl (errorf_rule p.tok _ p))))))

column_side_rule :
    (c : ColumnRef) (t : Token) (op : CompareOp) (p : Parser)
    → Returns (After (tokens 0) expr_markers p) (column_side c t op p)
unfolding column_side expr_markers
column_side_rule c t op_equal p =
    chain (begin p) (parse_column_ref_rule p) λ r q s. finish s (omega arith) refl
column_side_rule c t op_not_equal p = errorf_rule t _ p
column_side_rule c t op_less p = errorf_rule t _ p
column_side_rule c t op_less_equal p = errorf_rule t _ p
column_side_rule c t op_greater p = errorf_rule t _ p
column_side_rule c t op_greater_equal p = errorf_rule t _ p

comparison_side_rule :
    (c : ColumnRef) (t : Token) (op : CompareOp) (next : Token) (p : Parser)
    → Returns (After (tokens 0) expr_markers p) (comparison_side c t op next p)
unfolding comparison_side
comparison_side_rule c t op next p =
    choose (next.kind == kind_ident) _ _ (λ _. column_side_rule c t op p)
      λ _.
        chain (begin p) (parse_value_rule p)
          λ v q s. finish s (omega arith) (unfold expr_markers in refl)

predicate_rule :
    (c : ColumnRef) (b : Bool) (p : Parser)
    → Returns (After (tokens 0) expr_markers p) (predicate c b p)
unfolding predicate expr_markers
predicate_rule c true p =
    chain (begin p) (accept_rule kw_not p refl)
      λ b q s. chain s (expect_rule kw_null _ q refl) λ _ r t. finish t (omega arith) refl
predicate_rule c false p = chain (begin p) (current_rule p) λ t q s.
    chain s (parse_compare_op_rule q) λ op r u.
      chain u (current_rule r)
        λ next v w. last w (comparison_side_rule c t op next v) (λ e. omega arith) λ e. refl

column_predicate_rule :
    (p : Parser) → Returns (After (tokens 1) expr_markers p) (column_predicate p)
unfolding column_predicate
column_predicate_rule p = chain (begin p) (parse_column_ref_rule p) λ c q s.
    chain s (accept_rule kw_is q refl)
      λ is r t. last t (predicate_rule c is r) (λ e. omega arith) λ e. refl

primary_after_rule :
    (inner : M Expr) (b : Bool) (p q : Parser)
    → Step (bit b) [] p q
    → (b ≡ true → Returns (After (tokens 1) expr_markers q) (inner q))
    → Returns (After (tokens 1) expr_markers p) (primary_after inner b q)
unfolding primary_after
primary_after_rule inner true p q s h = chain s (h refl) λ e r t.
    chain t (expect_rule kind_r_paren _ r refl) λ _ u v. finish v (omega arith) (rw append-nil refl)
primary_after_rule inner false p q s h =
    last s (column_predicate_rule q) (λ e. omega arith) λ e. refl

-- What stands left of an operator is read already: its markers come first.
join_after_rule :
    (join : Expr → Expr → Expr) (operand : M Expr) (next : Expr → M Expr) (left : Expr) (b : Bool)
    (p q : Parser)
    → ((l r : Expr) → expr_markers (join l r) ≡ expr_markers l ++ expr_markers r)
    → Step (1 + bit b) (expr_markers left ++ []) p q
    → (b ≡ true → Returns (After (tokens 1) expr_markers q) (operand q))
    → ((right : Expr) (r : Parser)
        → left_to_read r + 1 ≤ left_to_read q
        → Step 1 (expr_markers (join left right)) p r
        → Returns (After (tokens 1) expr_markers p) (next (join left right) r))
    → Returns (After (tokens 1) expr_markers p) (join_after join operand next left b q)
unfolding join_after
join_after_rule join operand next left true p q eq s h k = chain_round s (h refl) λ right r le t.
    k right r le (record {
      taken = omega (arith, t.taken);
      numbered = rw (eq left right) (rw (append-nil (expr_markers left)) at (t.numbered));
    })
join_after_rule join operand next left false p q eq s h k =
    finish s (omega arith) (rw append-nil refl)

or_markers : (l r : Expr) → expr_markers (or l r) ≡ expr_markers l ++ expr_markers r
unfolding expr_markers
or_markers l r = refl

and_markers : (l r : Expr) → expr_markers (and l r) ≡ expr_markers l ++ expr_markers r
unfolding expr_markers
and_markers l r = refl

-- Each of the five calls the next one on what is left, so three calls to a token are enough fuel.
mutual
  unfolding parse_or or_loop parse_and and_loop parse_primary

  pub parse_or_rule :
      (fuel : ℕ) (p : Parser)
      → 3 * left_to_read p + 3 ≤ fuel
      → Returns (After (tokens 1) expr_markers p) (parse_or fuel p)
  parse_or_rule zero p f = absurd (omega arith)
  parse_or_rule (suc fuel) p f =
      chain_round (begin p) (parse_and_rule fuel p (omega arith))
        λ e q le s. or_loop_rule fuel e p q (omega arith) s

  or_loop_rule :
      (fuel : ℕ) (left : Expr) (p q : Parser)
      → 3 * left_to_read q + 1 ≤ fuel
      → Step 1 (expr_markers left) p q
      → Returns (After (tokens 1) expr_markers p) (or_loop fuel left q)
  or_loop_rule zero left p q f s = absurd (omega arith)
  or_loop_rule (suc fuel) left p q f s = chain_round s (accept_rule kw_or q refl) λ b r le t.
      join_after_rule or _ _ left b p r or_markers t
        (λ e. parse_and_rule fuel r (omega (arith, ap bit e)))
        λ right u le' v. or_loop_rule fuel (or left right) p u (omega arith) v

  parse_and_rule :
      (fuel : ℕ) (p : Parser)
      → 3 * left_to_read p + 2 ≤ fuel
      → Returns (After (tokens 1) expr_markers p) (parse_and fuel p)
  parse_and_rule zero p f = absurd (omega arith)
  parse_and_rule (suc fuel) p f =
      chain_round (begin p) (parse_primary_rule fuel p (omega arith))
        λ e q le s. and_loop_rule fuel e p q (omega arith) s

  and_loop_rule :
      (fuel : ℕ) (left : Expr) (p q : Parser)
      → 3 * left_to_read q + 1 ≤ fuel
      → Step 1 (expr_markers left) p q
      → Returns (After (tokens 1) expr_markers p) (and_loop fuel left q)
  and_loop_rule zero left p q f s = absurd (omega arith)
  and_loop_rule (suc fuel) left p q f s = chain_round s (accept_rule kw_and q refl) λ b r le t.
      join_after_rule and _ _ left b p r and_markers t
        (λ e. parse_primary_rule fuel r (omega (arith, ap bit e)))
        λ right u le' v. and_loop_rule fuel (and left right) p u (omega arith) v

  parse_primary_rule :
      (fuel : ℕ) (p : Parser)
      → 3 * left_to_read p + 1 ≤ fuel
      → Returns (After (tokens 1) expr_markers p) (parse_primary fuel p)
  parse_primary_rule zero p f = absurd (omega arith)
  parse_primary_rule (suc fuel) p f =
      chain_round (begin p) (accept_rule kind_l_paren p refl) λ b q le s.
        primary_after_rule (parse_or fuel) b p q (weaken s (omega arith))
          λ e. parse_or_rule fuel q (omega (arith, ap bit e))
