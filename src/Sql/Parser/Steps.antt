-- ===== src/Sql/Parser/Steps.antt =====
-- What a rule of the parser does to its state: it takes tokens, and it numbers the `?` that it reads.
use go_msi.Prelude.{
  ℕ, ◌+◌, ◌≤◌, ◌≡◌, ◌==◌, ◌||◌, if◌then◌else◌, Bool, true, false, List, [], ◌∷◌, ◌++◌, Option, none,
  some, length, refl, arith, Bool-cases, inl, inr,
}
use go_msi.Prelude.Text.{Str}
use go_msi.Sql.Token.{Kind, Token, kind_error, kind_eof, kind_ident}
use go_msi.Sql.Scan.{Msg, expected, SqlError}
use go_msi.Sql.Scan.Progress.{scan-Advances}
use go_msi.Sql.Parser.{
  Parser, Outcome, ok, fail, M, and_then, current, advance, skip, accept, errorf, expect,
  parse_name,
}

-- A token that can still be taken counts 1.
abbrev pub weight : Kind → ℕ
weight k = if k == kind_eof || k == kind_error then 0 else 1

-- What is left to read: the bytes behind the token at hand, and that token.
unfoldable pub left_to_read : Parser → ℕ
left_to_read p = length p.sc.rest + weight p.tok.kind

-- `ms` are the numbers from `lo` up to `hi`, in order.
abbrev pub Numbered : ℕ → List ℕ → ℕ → Type 0
Numbered lo [] hi = lo ≡ hi
Numbered lo (m ∷ ms) hi = (m ≡ lo) × Numbered (lo + 1) ms hi

pub Numbered-append :
    (ms ns : List ℕ) (a b c : ℕ) → Numbered a ms b → Numbered b ns c → Numbered a (ms ++ ns) c
Numbered-append [] ns a b c h k = rw h k
Numbered-append (m ∷ ms) ns a b c (e, h) k = (e, Numbered-append ms ns (a + 1) b c h k)

-- From `p` to `q`: at least `d` less is left to read, and the markers read are `ms`.
pub record Step (d : ℕ) (ms : List ℕ) (p q : Parser) : Type 0 where
  pub taken : left_to_read q + d ≤ left_to_read p
  pub numbered : Numbered p.params ms q.params

-- An outcome is an error, or a value and a parser for which `Q` holds; the fuel does not run out.
pub data Returns {A : Type 0} (Q : A → Parser → Type 0) : Outcome A → Type 0 where
  returned : {a : A} {q : Parser} → Q a q → Returns Q (ok a q)
  failed : {e : SqlError} → Returns Q (fail e)

-- From `p` a rule takes as much as `least` says of its value, and reads the value's markers.
abbrev pub After : {A : Type 0} → (A → ℕ) → (A → List ℕ) → Parser → A → Parser → Type 0
After least marks p a q = Step (least a) (marks a) p q

abbrev pub unmarked : {A : Type 0} → A → List ℕ
unmarked a = []

abbrev pub tokens : {A : Type 0} → ℕ → A → ℕ
tokens n a = n

-- One rule of a `do` block, started `d` further on than `p`, and what the rest of the block makes.
-- The rest also knows how much the rule itself took.
pub chain_round :
    {A B : Type 0} {R : B → Parser → Type 0} {f : A → M B} {r : Outcome A} {p q : Parser} {d : ℕ}
    {ms : List ℕ} {least : A → ℕ} {marks : A → List ℕ}
    → Step d ms p q
    → Returns (After least marks q) r
    → ((a : A) (t : Parser)
        → left_to_read t + least a ≤ left_to_read q
        → Step (d + least a) (ms ++ marks a) p t
        → Returns R (f a t))
    → Returns R (and_then f r)
chain_round {p = p} {q} {d} {ms} {least} {marks} s (returned {a} {q = t} h) k =
    k a t h.taken (record {
      taken = omega (arith, s.taken, h.taken);
      numbered = Numbered-append ms (marks a) p.params q.params t.params s.numbered h.numbered;
    })
chain_round s failed k = failed

-- The rest of a block seldom needs that.
pub chain :
    {A B : Type 0} {R : B → Parser → Type 0} {f : A → M B} {r : Outcome A} {p q : Parser} {d : ℕ}
    {ms : List ℕ} {least : A → ℕ} {marks : A → List ℕ}
    → Step d ms p q
    → Returns (After least marks q) r
    → ((a : A) (t : Parser) → Step (d + least a) (ms ++ marks a) p t → Returns R (f a t))
    → Returns R (and_then f r)
chain s h k = chain_round s h λ a t _ u. k a t u

pub begin : (p : Parser) → Step 0 [] p p
begin p = record { taken = omega arith; numbered = refl }

pub weaken : {d e : ℕ} {ms : List ℕ} {p q : Parser} → Step d ms p q → e ≤ d → Step e ms p q
weaken s h = record { taken = omega (arith, s.taken); numbered = s.numbered }

-- The end of a `do` block.
pub finish :
    {A : Type 0} {a : A} {d : ℕ} {ms : List ℕ} {least : A → ℕ} {marks : A → List ℕ} {p q : Parser}
    → Step d ms p q
    → least a ≤ d
    → ms ≡ marks a
    → Returns (After least marks p) (ok a q)
finish s h eq =
    returned (record { taken = omega (arith, s.taken); numbered = rw eq at (s.numbered) })

-- A rule as the last step of a `do` block, where it stands with no `pure` behind it.
pub last :
    {A : Type 0} {r : Outcome A} {p q : Parser} {d : ℕ} {ms : List ℕ} {least least' : A → ℕ}
    {marks marks' : A → List ℕ}
    → Step d ms p q
    → Returns (After least' marks' q) r
    → ((a : A) → least a ≤ d + least' a)
    → ((a : A) → ms ++ marks' a ≡ marks a)
    → Returns (After least marks p) r
last {p = p} {q} {ms = ms} {marks' = marks'} s (returned {a} {q = t} h) le eq =
    finish
      (record {
        taken = omega (arith, s.taken, h.taken);
        numbered = Numbered-append ms (marks' a) p.params q.params t.params s.numbered h.numbered;
      })
      (le a) (eq a)
last s failed le eq = failed

-- A switch on a test: the branches know how it came out.
pub choose :
    {A : Type 0} {Q : A → Parser → Type 0} {p : Parser} (c : Bool) (m n : M A)
    → (c ≡ true → Returns Q (m p))
    → (c ≡ false → Returns Q (n p))
    → Returns Q ((if c then m else n) p)
choose true m n h k = h refl
choose false m n h k = k refl

advance_params : (p : Parser) → p.params ≡ (advance p).params
unfolding advance
advance_params p = ground arith

-- Taking a token that is neither the end nor an error.
pub advance_lem : (p : Parser) → Step (weight p.tok.kind) [] p (advance p)
advance_lem p = record {
  taken = unfold advance left_to_read in ground (arith, scan-Advances p.sc);
  numbered = advance_params p;
}

pub skip_rule : (p : Parser) → Returns (After (tokens (weight p.tok.kind)) unmarked p) (skip p)
unfolding skip
skip_rule p = returned (advance_lem p)

errorf-fails :
    {A : Type 0} {Q : A → Parser → Type 0} (e : Option SqlError) (x : SqlError)
    → Returns Q (elim e [ some y ↦ fail y | none ↦ fail x ])
errorf-fails (some y) x = failed
errorf-fails none x = failed

pub errorf_rule :
    {A : Type 0} {Q : A → Parser → Type 0} (t : Token) (m : Msg) (p : Parser)
    → Returns Q (errorf t m p)
errorf_rule t m p = unfold errorf in errorf-fails p.sc.err _

abbrev pub bit : Bool → ℕ
bit true = 1
bit false = 0

-- A kind that is neither the end nor an error.
abbrev pub IsReal : Kind → Type 0
IsReal k = weight k ≡ 1

-- The token at hand is of a kind that can be taken.
pub real : (k : Kind) (t : Token) → IsReal k → (t.kind == k) ≡ true → 1 ≤ weight t.kind
real k t h e = ground arith

pub accept_rule : (k : Kind) (p : Parser) → IsReal k → Returns (After bit unmarked p) (accept k p)
accept_rule k p real = elim (Bool-cases (p.tok.kind == k)) [
  | inl e ↦ unfold accept in rw e (returned (weaken (advance_lem p) (ground arith)))
  | inr e ↦ unfold accept in rw e (returned (begin p))
]

pub expect_rule :
    (k : Kind) (what : Str) (p : Parser)
    → IsReal k
    → Returns (After (tokens 1) unmarked p) (expect k what p)
expect_rule k what p real = elim (Bool-cases (p.tok.kind == k)) [
  | inl e ↦ unfold expect in rw e (returned (weaken (advance_lem p) (ground arith)))
  | inr e ↦ unfold expect in rw e (errorf_rule p.tok (expected what) p)
]

pub current_rule : (p : Parser) → Returns (After (tokens 0) unmarked p) (current p)
current_rule p = returned (begin p)

pub parse_name_rule :
    (what : Str) (p : Parser) → Returns (After (tokens 1) unmarked p) (parse_name what p)
unfolding parse_name
parse_name_rule what p =
    chain (begin p) (expect_rule kind_ident what p refl) λ t q s. finish s (omega arith) refl
