-- ===== src/Sql/Parser/Makes.antt =====
-- What the lists and columns that internal/sql/parse.go reads have.
use go_msi.Prelude.{
  ℕ, zero, suc, ◌≤◌, ◌<◌, ◌≡◌, ◌⊎◌, inl, inr, ◌==◌, leb, if◌then◌else◌, Bool, true, false, List, [],
  ◌∷◌, Option, none, some, length, refl, ap, arith,
}
use go_msi.Prelude.Int.{ℤ, pos, negsuc}
use go_msi.Sql.{Value, DataType, type_char, ColumnDef}
use go_msi.Sql.Token.{
  Token, kind_comma, kind_int, kind_l_paren, kind_r_paren, kw_char, kw_int, kw_not, kw_temporary,
  kw_localizable, kw_long, kw_longchar, kw_object, kw_short,
}
use go_msi.Sql.Scan.{SqlError, Msg}
use go_msi.Sql.Parser.{
  Parser, Outcome, ok, fail, stuck, M, and_then, ◌>>◌, pure, accept, errorf, expect, skip,
  parse_name, parse_value, list_after, comma_list, atoi,
}
use go_msi.Sql.Parser.Stmt.{
  Typed, wrong_count, values_after, values_list, width_of, parse_width, width_after, column_type_of,
  parse_column_def, not_null_after,
}

-- `P` holds of what a rule returns, if it returns anything.
pub data Makes {A : Type 0} (P : A → Type 0) : Outcome A → Type 0 where
  made : {a : A} {p : Parser} → P a → Makes P (ok a p)
  failed : {e : SqlError} → Makes P (fail e)
  stopped : Makes P stuck

-- What is known of one step of a `do` block, and of the rest of the block.
pub bind :
    {A B : Type 0} {P : A → Type 0} {R : B → Type 0} {f : A → M B} {r : Outcome A}
    → Makes P r
    → ((a : A) (p : Parser) → P a → Makes R (f a p))
    → Makes R (and_then f r)
bind (made {a} {p} h) k = k a p h
bind failed k = failed
bind stopped k = stopped

-- A step of which nothing need be known.
pub pass :
    {A B : Type 0} {R : B → Type 0} {f : A → M B} (r : Outcome A)
    → ((a : A) (p : Parser) → Makes R (f a p))
    → Makes R (and_then f r)
pass (ok a p) k = k a p
pass (fail e) k = failed
pass stuck k = stopped

pub choose-Makes :
    {A : Type 0} {P : A → Type 0} {p : Parser} (c : Bool) (m n : M A)
    → (c ≡ true → Makes P (m p))
    → (c ≡ false → Makes P (n p))
    → Makes P ((if c then m else n) p)
choose-Makes true m n h k = h refl
choose-Makes false m n h k = k refl

error-Makes :
    {A : Type 0} {P : A → Type 0} (e : Option SqlError) (x : SqlError)
    → Makes P (elim e [ some y ↦ fail y | none ↦ fail x ])
error-Makes (some y) x = failed
error-Makes none x = failed

pub errorf-Makes :
    {A : Type 0} {P : A → Type 0} (t : Token) (m : Msg) (p : Parser) → Makes P (errorf t m p)
unfolding errorf
errorf-Makes t m p = error-Makes p.sc.err _

-- A comma list has an item at least, and every item has what the rule of the items promises.
abbrev pub Every : {A : Type 0} → (A → Type 0) → List A → Type 0
Every P [] = Unit {0}
Every P (x ∷ xs) = P x × Every P xs

abbrev pub Filled : {A : Type 0} → (A → Type 0) → List A → Type 0
Filled P xs = (0 < length xs) × Every P xs

list_after-Makes :
    {A : Type 0} {P : A → Type 0} (x : A) (more : M (List A)) (b : Bool) (p : Parser)
    → P x
    → Makes (Filled P) (more p)
    → Makes (Filled P) (list_after x more b p)
unfolding list_after
list_after-Makes x more true p h k = bind k λ xs q e. made (omega arith, (h, e.1))
list_after-Makes x more false p h k = made (omega arith, (h, tt))

pub comma_list-Makes :
    {A : Type 0} (P : A → Type 0) (item : M A)
    → ((p : Parser) → Makes P (item p))
    → (fuel : ℕ) (p : Parser) → Makes (Filled P) (comma_list fuel item p)
unfolding comma_list
comma_list-Makes P item h zero p = stopped
comma_list-Makes P item h (suc fuel) p = bind (h p) λ x q k. pass (accept kind_comma q) λ comma r.
    list_after-Makes x (comma_list fuel item) comma r k (comma_list-Makes P item h fuel r)

abbrev pub Anything : {A : Type 0} → A → Type 0
Anything a = Unit {0}

pub filled :
    {A : Type 0} (item : M A) (fuel : ℕ) (p : Parser)
    → Makes (Filled Anything) (comma_list fuel item p)
filled item fuel p = comma_list-Makes Anything item (λ q. anything (item q)) fuel p
  where
    anything : {A : Type 0} (r : Outcome A) → Makes Anything r
    anything (ok a p) = made tt
    anything (fail e) = failed
    anything stuck = stopped

-- INSERT has as many values as columns.
wrong_count-Makes : {P : List Value → Type 0} (n : ℕ) (p : Parser) → Makes P (wrong_count n p)
unfolding wrong_count
wrong_count-Makes n p = errorf-Makes p.tok _ p

abbrev pub Counts : ℕ → List Value → Type 0
Counts n vs = length vs ≡ n

values_after-Makes :
    (total left : ℕ) (v : Value) (more : M (List Value)) (b : Bool) (p : Parser)
    → Makes (Counts left) (more p)
    → Makes (Counts (suc left)) (values_after total left v more b p)
unfolding values_after
values_after-Makes total left v more true p h = bind h λ vs q e. made (ap suc e)
values_after-Makes total zero v more false p h = made refl
values_after-Makes total (suc left) v more false p h = wrong_count-Makes total p

pub values_list-Makes :
    (total left : ℕ) (p : Parser) → Makes (Counts left) (values_list total left p)
unfolding values_list
values_list-Makes total zero p = wrong_count-Makes total p
values_list-Makes total (suc left) p = pass (parse_value p) λ v q. pass (accept kind_comma q) λ b r.
    values_after-Makes total left v (values_list total left) b r (values_list-Makes total left r)

-- A column of CREATE TABLE and ALTER TABLE: a width of a CHAR of at most 255, and no other width.
abbrev pub Sized : Typed → Type 0
Sized t = (t.1 ≤ 255) × ((t.0 ≡ type_char) ⊎ (t.1 ≡ 0))

abbrev pub ColumnSized : ColumnDef → Type 0
ColumnSized c = Sized (c.type, c.size)

abbrev Narrow : ℕ → Type 0
Narrow n = n ≤ 255

width_of-Makes : (t : Token) (n : Option ℤ) (p : Parser) → Makes Narrow (width_of t n p)
unfolding width_of
width_of-Makes t none p = errorf-Makes t _ p
width_of-Makes t (some (negsuc n)) p = errorf-Makes t _ p
width_of-Makes t (some (pos n)) p =
    choose-Makes (leb n 255) _ _ (λ e. made (ground arith)) λ _. errorf-Makes t _ p

width_after-Makes : (b : Bool) (p : Parser) → Makes Narrow (width_after b p)
unfolding width_after parse_width
width_after-Makes true p =
    bind {P = Narrow} (pass (expect kind_int _ p) λ t q. width_of-Makes t (atoi t.text) q)
      λ n q h. pass (expect kind_r_paren _ q) λ _ r. made h
width_after-Makes false p = made (omega arith)

-- A branch of the switch for a type without a width.
unsized :
    (k : ℕ) (ty : DataType) (t : Token) (rest : M Typed) (p : Parser)
    → Makes Sized (rest p)
    → Makes Sized ((if t.kind == k then skip >> pure (ty, 0) else rest) p)
unsized k ty t rest p h =
    choose-Makes (t.kind == k) _ _ (λ _. pass (skip p) λ _ q. made (omega arith, inr refl)) λ _. h

column_type_of-Makes : (t : Token) (p : Parser) → Makes Sized (column_type_of t p)
unfolding column_type_of
column_type_of-Makes t p =
    choose-Makes (t.kind == kw_char) _ _
      (λ _. pass (skip p) λ _ q.
        pass (accept kind_l_paren q)
          λ b r. bind (width_after-Makes b r) λ n u h. made (h, inl refl))
      λ _. unsized kw_longchar _ t _ p (
        unsized kw_short _ t _ p (
          unsized kw_int _ t _ p
            (unsized kw_long _ t _ p (unsized kw_object _ t _ p (errorf-Makes t _ p)))))

pub parse_column_def-Makes : (p : Parser) → Makes ColumnSized (parse_column_def p)
unfolding parse_column_def
parse_column_def-Makes p = pass (parse_name _ p) λ name p1.
    bind (column_type_of-Makes p1.tok p1) λ typed p2 h. pass (accept kw_not p2) λ negated p3.
      pass (not_null_after negated p3) λ nn p4.
        pass (accept kw_temporary p4) λ tmp p5. pass (accept kw_localizable p5) λ loc p6. made h
