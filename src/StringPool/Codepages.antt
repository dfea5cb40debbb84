-- ===== src/StringPool/Codepages.antt =====
-- newPool, SetCodepage and Validate of internal/stringpool/stringpool.go, and getEncoding of
-- internal/stringpool/encoding.go. What the encoders of golang.org/x/text can write is a parameter.
use go_msi.Prelude.{
  ℕ, zero, suc, ◌==◌, ◌&&◌, ◌||◌, not, ltb, if◌then◌else◌, Bool, true, false, List, [], ◌∷◌, Option,
  none, some, length, drop,
}
use go_msi.Prelude.Text.{Str}
use go_msi.Utf8.{rune_error, decode_rune, runes}
use go_msi.StringPool.{Entry, Pool, empty_pool}

-- The code pages that getEncoding knows.
abbrev pub codepages : List ℕ
codepages =
    0 ∷ 1200 ∷ 65001 ∷ 874 ∷ 932 ∷ 936 ∷ 949 ∷ 950 ∷ 1250 ∷ 1251 ∷ 1252 ∷ 1253 ∷ 1254 ∷ 1255 ∷ 1256
    ∷ 1257 ∷ 1258 ∷ 10000 ∷ 28591 ∷ 28592 ∷ 28593 ∷ 28594 ∷ 28595 ∷ 28596 ∷ 28597 ∷ 28598 ∷ 28599
    ∷ 28603 ∷ 28605 ∷ []

unfoldable pub among : ℕ → List ℕ → Bool
among x [] = false
among x (y ∷ ys) = x == y || among x ys

unfoldable pub supported : ℕ → Bool
supported cp = among cp codepages

-- newPool: an error for a code page that is not supported.
unfoldable pub new_pool : ℕ → Bool → Option Pool
unfolding supported
new_pool cp long_refs = if supported cp then some (empty_pool cp long_refs) else none

-- utf8.ValidString
unfoldable pub valid_loop : ℕ → Str → Bool
valid_loop zero s = true
valid_loop (suc fuel) [] = true
valid_loop (suc fuel) (b ∷ s) =
    let (r, n) = decode_rune (b ∷ s) in
    let rest = valid_loop fuel (drop n (b ∷ s)) in not (r == rune_error && n == 1) && rest

unfoldable pub valid_string : Str → Bool
valid_string s = valid_loop (length s) s

-- What Validate answers.
pub data Checked : Type 0 where
  fine : Checked
  not_encodable : ℕ → Checked
  invalid_utf8 : Checked

pub data Changed : Type 0 where
  changed : Pool → Changed
  unsupported : Changed
  refused : ℕ → Changed

-- `encodes cp r`: the encoder of code page cp transforms the rune r without an error.
module _ (encodes : ℕ → ℕ → Bool) where
  abbrev pub writable : ℕ → ℕ → Bool
  writable cp r = ltb r 0x80 || encodes cp r

  -- The first rune that cannot be written.
  unfoldable pub first_unwritable : ℕ → List ℕ → Option ℕ
  first_unwritable cp [] = none
  first_unwritable cp (r ∷ rs) =
      let rest = first_unwritable cp rs in if writable cp r then rest else some r

  unfoldable pub validate : Pool → Str → Checked
  validate p s = elim (first_unwritable p.codepage (runes s)) [
    | some r ↦ not_encodable r
    | none ↦ if among rune_error (runes s) && not (valid_string s) then invalid_utf8 else fine
  ]

  -- Entries without a persistent reference are passed over.
  unfoldable pub entries_unwritable : ℕ → List Entry → Option ℕ
  entries_unwritable cp [] = none
  entries_unwritable cp (e ∷ es) =
      let rest = entries_unwritable cp es in
      if e.persistent == 0
      then rest
      else elim (first_unwritable cp (runes e.s)) [ some r ↦ some r | none ↦ rest ]

  unfoldable pub set_codepage : ℕ → Pool → Changed
  set_codepage cp p =
      if not (supported cp) then unsupported else elim (entries_unwritable cp p.entries) [
        | some r ↦ refused r
        | none ↦ changed (record p { codepage = cp })
      ]
