-- ===== src/Table/Keys.antt =====
-- The order of records by their keys, in msidb/table.go.
use go_msi.Prelude.{ℕ, ◌≤◌, ◌≡◌, refl, List, [], ◌∷◌, arith}
use go_msi.Prelude.Lex.{SameAt, LexLess}
use go_msi.Table.{Row, cell_at, Order, before, same, after, compare_keys}

-- The order the other way round.
abbrev pub turned : Order → Order
turned before = after
turned same = same
turned after = before

pub compare_keys-turned :
    (ks : List ℕ) (a b : Row) → compare_keys ks b a ≡ turned (compare_keys ks a b)
unfolding compare_keys
compare_keys-turned [] a b = refl
compare_keys-turned (k ∷ ks) a b = ground (arith, compare_keys-turned ks a b)

pub compare_keys_self : (ks : List ℕ) (a : Row) → compare_keys ks a a ≡ same
unfolding compare_keys
compare_keys_self [] a = refl
compare_keys_self (k ∷ ks) a = ground (arith, compare_keys_self ks a)

-- Records of one key compare alike with any other.
pub compare_keys_same :
    (ks : List ℕ) (a b c : Row)
    → compare_keys ks a b ≡ same
    → compare_keys ks a c ≡ compare_keys ks b c
unfolding compare_keys
compare_keys_same [] a b c h = refl
compare_keys_same (k ∷ ks) a b c h = ground (arith, compare_keys_same ks a b c, h)

pub compare_keys_trans :
    (ks : List ℕ) (a b c : Row)
    → compare_keys ks a b ≡ before
    → compare_keys ks b c ≡ before
    → compare_keys ks a c ≡ before
unfolding compare_keys
compare_keys_trans [] a b c h k = ground (arith, h)
compare_keys_trans (i ∷ is) a b c h k =
    ground (arith, h, k, compare_keys_trans is a b c, compare_keys_same is a b c)

-- The cells of the key columns, one after the other, decide: the first that differs.
abbrev pub KeyLess : List ℕ → Row → Row → Type 0
KeyLess ks a b = LexLess (cell_at a) (cell_at b) ks

abbrev pub SameKey : List ℕ → Row → Row → Type 0
SameKey ks a b = SameAt (cell_at a) (cell_at b) ks

pub before-KeyLess : (ks : List ℕ) (a b : Row) → compare_keys ks a b ≡ before → KeyLess ks a b
unfolding compare_keys
before-KeyLess [] a b h = absurd cc
before-KeyLess (k ∷ ks) a b h = ground (arith, h, before-KeyLess ks a b)

pub KeyLess-before : (ks : List ℕ) (a b : Row) → KeyLess ks a b → compare_keys ks a b ≡ before
unfolding compare_keys
KeyLess-before [] a b h = absurd h
KeyLess-before (k ∷ ks) a b h = ground (arith, h, KeyLess-before ks a b)

pub same-SameKey : (ks : List ℕ) (a b : Row) → compare_keys ks a b ≡ same → SameKey ks a b
unfolding compare_keys
same-SameKey [] a b h = tt
same-SameKey (k ∷ ks) a b h = ground (arith, h, same-SameKey ks a b)

-- The first key of a record that is not behind another is at most the other's.
pub first_key_le :
    (k : ℕ) (ks : List ℕ) (a b : Row) → KeyLess (k ∷ ks) a b → cell_at a k ≤ cell_at b k
first_key_le k ks a b h = ground (arith, h)
