-- ===== src/Sql/Parser.antt =====
-- internal/sql/parse.go: the parser's state, and the steps that every rule is made of.
pub mod Expr
pub mod Stmt
pub mod Steps
pub mod Rules
pub mod ExprRules
pub mod StmtRules
pub mod Statements
pub mod Markers
pub mod Makes
pub mod WellFormed
use go_msi.Prelude.{
  ℕ, zero, suc, ◌+◌, ◌-◌, ◌*◌, ◌^◌, ◌==◌, ◌||◌, ltb, leb, if◌then◌else◌, Bool, true, false, List,
  [], ◌∷◌, Option, none, some,
}
use go_msi.Prelude.Int.{ℤ, pos, negsuc}
use go_msi.Prelude.Text.{Str, bytes, eq_str}
use go_msi.Sql.{ColumnRef, Value, int_lit, string_lit, marker, null}
use go_msi.Sql.Token.{
  Kind, Token, kind_error, kind_eof, kind_ident, kind_string, kind_int, kind_param, kind_comma,
  kind_dot, kw_null,
}
use go_msi.Sql.Scan.{Scanner, SqlError, Msg, expected, out_of_range, plain, scan}

-- One token of lookahead, and the number of `?` seen.
pub record Parser : Type 0 where
  pub sc : Scanner
  pub tok : Token
  pub params : ℕ

-- A rule returns a value and the parser behind it, or the first error. `stuck` is no Go value: the
-- fuel of a loop or of the recursion ran out.
pub data Outcome {ℓ} (A : Type ℓ) : Type ℓ where
  ok : A → Parser → Outcome A
  fail : SqlError → Outcome A
  stuck : Outcome A

abbrev pub M : Type 0 → Type 0
M A = Parser → Outcome A

abbrev pub and_then : {A B : Type 0} → (A → M B) → Outcome A → Outcome B
and_then f (ok a p) = f a p
and_then f (fail e) = fail e
and_then f stuck = stuck

infixl 5 ◌>>=◌ ◌>>◌
abbrev pub ◌>>=◌ : {A B : Type 0} → M A → (A → M B) → M B
◌>>=◌ m f p = and_then f (m p)

abbrev pub ◌>>◌ : {A B : Type 0} → M A → M B → M B
m >> n = m >>= λ _. n

abbrev pub pure : {A : Type 0} → A → M A
pure a p = ok a p

abbrev pub current : M Token
current p = ok p.tok p

unfoldable pub advance : Parser → Parser
advance p =
    if p.tok.kind == kind_eof || p.tok.kind == kind_error
    then p
    else let (t, sc) = scan p.sc in record p { sc = sc; tok = t }

unfoldable pub skip : M (Unit {0})
skip p = ok tt (advance p)

unfoldable pub accept : Kind → M Bool
accept k p = if p.tok.kind == k then ok true (advance p) else ok false p

-- parser.errorf: an error of the scanner comes first.
unfoldable pub errorf : {A : Type 0} → Token → Msg → M A
errorf t msg p = elim p.sc.err [ some e ↦ fail e | none ↦ fail (record { pos = t.pos; msg = msg }) ]

unfoldable pub expect : Kind → Str → M Token
unfolding errorf
expect k what p = if p.tok.kind == k then ok p.tok (advance p) else errorf p.tok (expected what) p

unfoldable pub parse_name : Str → M Str
parse_name what = do t ← expect kind_ident what; pure t.text

unfoldable pub column_ref_after : Str → Bool → M ColumnRef
column_ref_after first true = do
  second ← parse_name (bytes "column name after '.'")
  pure (record { table = first; name = second })
column_ref_after first false = pure (record { table = []; name = first })

unfoldable pub parse_column_ref : M ColumnRef
parse_column_ref = do
  first ← parse_name (bytes "column name")
  dot ← accept kind_dot
  column_ref_after first dot

-- `for { item; if !p.accept(kindComma) { break } }`: `more` goes on behind a comma.
unfoldable pub list_after : {A : Type 0} → A → M (List A) → Bool → M (List A)
list_after x more true = do xs ← more; pure (x ∷ xs)
list_after x more false = pure (x ∷ [])

unfoldable pub comma_list : {A : Type 0} → ℕ → M A → M (List A)
comma_list zero item p = stuck
comma_list (suc fuel) item p =
    (do x ← item; comma ← accept kind_comma; list_after x (comma_list fuel item) comma) p

-- The value of a run of decimal digits, behind the digits already read.
unfoldable pub digits_value : ℕ → Str → ℕ
digits_value acc [] = acc
digits_value acc (b ∷ s) = digits_value (acc * 10 + (b - b'0')) s

-- strconv.Atoi on a token that the scanner made: digits, or a minus and digits. `none` for a value
-- outside int, which has 64 bits.
unfoldable pub atoi : Str → Option ℤ
unfolding digits_value
atoi [] = none
atoi (b ∷ s) =
    if b == b'-'
    then (let n = digits_value 0 s in
        if n == 0 then some (pos 0) else if leb n (2 ^ 63) then some (negsuc (n - 1)) else none)
    else let n = digits_value 0 (b ∷ s) in if ltb n (2 ^ 63) then some (pos n) else none

unfoldable pub int_value : Token → Option ℤ → M Value
int_value t none = errorf t (out_of_range t.text)
int_value t (some n) = pure (int_lit n)

-- `p.params++`, and the marker's number
unfoldable pub next_marker : M Value
next_marker p = ok (marker p.params) (record p { params = p.params + 1 })

-- The switch of parseValue on the token at hand.
unfoldable pub value_of : Token → M Value
value_of t =
    if t.kind == kind_int
    then skip >> int_value t (atoi t.text)
    else if t.kind == kind_string
    then skip >> pure (string_lit t.text)
    else if t.kind == kind_param
    then skip >> next_marker
    else if t.kind == kw_null
    then skip >> pure null
    else errorf t (expected (bytes "value"))

unfoldable pub parse_value : M Value
parse_value = current >>= value_of
