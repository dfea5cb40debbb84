-- ===== src/Sql/Parser/Rules.antt =====
-- The rules of the parser below expressions: names, lists and values.
use go_msi.Prelude.{
  append-nil, ℕ, zero, suc, ◌+◌, ◌<◌, ◌≡◌, ◌==◌, Bool, true, false, List, [], ◌∷◌, ◌++◌, Option,
  none, some, refl, arith,
}
use go_msi.Prelude.Int.{ℤ}
use go_msi.Prelude.Text.{Str}
use go_msi.Sql.{value_markers, list_markers}
use go_msi.Sql.Token.{Token, kind_comma, kind_dot, kind_int, kind_string, kind_param, kw_null}
use go_msi.Sql.Scan.{out_of_range}
use go_msi.Sql.Parser.{
  Parser, M, column_ref_after, parse_column_ref, list_after, comma_list, int_value, next_marker,
  value_of, parse_value, atoi,
}
use go_msi.Sql.Parser.Steps.{
  Step, Returns, returned, After, unmarked, tokens, bit, chain, begin, finish, last, choose,
  skip_rule, errorf_rule, accept_rule, parse_name_rule, left_to_read, real,
}

column_ref_after_rule :
    (first : Str) (b : Bool) (p : Parser)
    → Returns (After (tokens 0) unmarked p) (column_ref_after first b p)
unfolding column_ref_after
column_ref_after_rule first true p =
    chain (begin p) (parse_name_rule _ p) λ t q s. finish s (omega arith) refl
column_ref_after_rule first false p = finish (begin p) (omega arith) refl

pub parse_column_ref_rule :
    (p : Parser) → Returns (After (tokens 1) unmarked p) (parse_column_ref p)
unfolding parse_column_ref
parse_column_ref_rule p = chain (begin p) (parse_name_rule _ p) λ first q s.
    chain s (accept_rule kind_dot q refl)
      λ dot r t. last t (column_ref_after_rule first dot r) (λ c. omega arith) (λ c. refl)

list_after_rule :
    {A : Type 0} (marks : A → List ℕ) (x : A) (more : M (List A)) (b : Bool) (p q : Parser)
    → Step (1 + bit b) (marks x ++ []) p q
    → (b ≡ true → Returns (After (tokens 1) (list_markers marks) q) (more q))
    → Returns (After (tokens 1) (list_markers marks) p) (list_after x more b q)
unfolding list_after list_markers
list_after_rule marks x more true p q s h =
    chain s (h refl) λ xs r t. finish t (omega arith) (rw append-nil refl)
list_after_rule marks x more false p q s h = finish s (omega arith) refl

-- A list takes what its items take, and reads their markers one after the other. Each round takes
-- an item and a comma, so fuel above what is left to read is enough.
pub comma_list_rule :
    {A : Type 0} (marks : A → List ℕ) (item : M A)
    → ((p : Parser) → Returns (After (tokens 1) marks p) (item p))
    → (fuel : ℕ) (p : Parser) → left_to_read p < fuel
    → Returns (After (tokens 1) (list_markers marks) p) (comma_list fuel item p)
unfolding comma_list
comma_list_rule marks item h zero p f = absurd (omega arith)
comma_list_rule marks item h (suc fuel) p f = chain (begin p) (h p) λ x q s.
    chain s (accept_rule kind_comma q refl) λ comma r t.
      list_after_rule marks x (comma_list fuel item) comma p r t
        λ e. comma_list_rule marks item h fuel r (omega (arith, t.taken, f))

int_value_rule :
    (t : Token) (n : Option ℤ) (p : Parser)
    → Returns (After (tokens 0) value_markers p) (int_value t n p)
unfolding int_value value_markers
int_value_rule t none p = errorf_rule t (out_of_range t.text) p
int_value_rule t (some n) p = finish (begin p) (omega arith) refl

marker-Step : (p : Parser) → Step 0 (p.params ∷ []) p (record p { params = p.params + 1 })
unfolding left_to_read
marker-Step p = record { taken = omega arith; numbered = (refl, refl) }

next_marker_rule : (p : Parser) → Returns (After (tokens 0) value_markers p) (next_marker p)
unfolding next_marker value_markers
next_marker_rule p = returned (marker-Step p)

pub parse_value_rule : (p : Parser) → Returns (After (tokens 1) value_markers p) (parse_value p)
unfolding parse_value value_of
parse_value_rule p =
    choose (p.tok.kind == kind_int) _ _
      (λ e. chain (begin p) (skip_rule p) λ _ q s.
        last s (int_value_rule p.tok (atoi p.tok.text) q)
          (λ v. omega (arith, real kind_int p.tok refl e)) (λ v. refl))
      λ _.
        choose (p.tok.kind == kind_string) _ _
          (λ e. chain (begin p) (skip_rule p) λ _ q s.
            finish s (omega (arith, real kind_string p.tok refl e)) (unfold value_markers in refl))
          λ _.
            choose (p.tok.kind == kind_param) _ _
              (λ e. chain (begin p) (skip_rule p) λ _ q s.
                last s (next_marker_rule q) (λ v. omega (arith, real kind_param p.tok refl e))
                  (λ v. refl))
              λ _.
                choose (p.tok.kind == kw_null) _ _
                  (λ e. chain (begin p) (skip_rule p) λ _ q s.
                    finish s (omega (arith, real kw_null p.tok refl e))
                      (unfold value_markers in refl))
                  λ _. errorf_rule p.tok _ p
