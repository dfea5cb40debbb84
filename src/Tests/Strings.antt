-- ===== src/Tests/Strings.antt =====
-- internal/stringpool on a small pool.
use go_msi.Prelude.{Bool, ltb, ℕ, ◌≡◌, ◌≢◌, ◌↔◌, true, false, [], ◌∷◌, none, some, refl, arith}
use go_msi.Prelude.Text.{Str, bytes, eq_str}
use go_msi.StringPool.{
  Pool, empty_pool, write_id, index_set, lookup, lookup_id, count_up, count_down, place, intern_at,
  intern, release_at, release,
}
use go_msi.Utf8.{runes, runes_loop, decode_rune}
use go_msi.StringPool.Codepages.{
  new_pool, among, supported, valid_loop, valid_string, fine, not_encodable, invalid_utf8, changed,
  first_unwritable, validate, entries_unwritable, set_codepage,
}
use go_msi.StringPool.Writable.{Writable, AllWritable, validate_iff, set_codepage_iff}
use go_msi.StringPool.Valid.{Valid}
use go_msi.StringPool.Interned.{Interns}
use go_msi.StringPool.Intern.{intern-Interns}
use go_msi.StringPool.Release.{Releases, release-Releases}
use go_msi.StringPool.Runs.{Reached, made, interned, Reached-Valid, Reached-total}
use go_msi.StringPool.Numbers.{lookup_id_iff}

abbrev name : Str
name = bytes "File"

-- File with one persistent reference, then with a temporary one as well.
abbrev one_file : Pool
one_file = record {
  index = index_set name (some 1) (λ s. none);
  entries = record { s = name; persistent = 1; nonpersistent = 0 } ∷ [];
  free = [];
  codepage = 1252;
  long_refs = false;
}

abbrev two_refs : Pool
two_refs = record one_file { entries = record { s = name; persistent = 1; nonpersistent = 1 } ∷ [] }

starts : new_pool 1252 false ≡ some (empty_pool 1252 false)
unfolding new_pool supported among
starts = refl

first_runs : intern name true (empty_pool 1252 false) ≡ some (1, one_file)
unfolding intern intern_at place empty_pool eq_str
first_runs = refl

second_runs : intern name false one_file ≡ some (1, two_refs)
unfolding intern intern_at index_set eq_str write_id count_up
second_runs = refl

release_runs : release 1 false two_refs ≡ some one_file
unfolding release release_at count_down write_id
release_runs = refl

two_refs-Reached : Reached two_refs
two_refs-Reached =
    interned name false
      (interned name true (made 1252 false starts) (unfold empty_pool in omega arith) first_runs)
      (omega arith) second_runs

two_refs-Valid : Valid two_refs
two_refs-Valid = Reached-Valid two_refs two_refs-Reached

name_filled : name ≢ []
name_filled h = ground (arith, h)

found_name : lookup two_refs 1 ≡ some (name, true)
unfolding lookup
found_name = refl

intern-Interns_example :
    (id : ℕ) × (q : Pool) × (intern name true two_refs ≡ some (id, q))
    × Interns name true two_refs id q
intern-Interns_example = intern-Interns name true two_refs name_filled two_refs-Valid (omega arith)

release-Releases_example :
    (q : Pool) × (release 1 true two_refs ≡ some q) × Releases name true two_refs q
release-Releases_example =
    release-Releases name true two_refs 1 two_refs-Valid (omega arith) found_name

Reached-Valid_example : Valid two_refs
Reached-Valid_example = Reached-Valid two_refs two_refs-Reached

Reached-total_example : (intern name true two_refs ≢ none) × (release 7 true two_refs ≢ none)
Reached-total_example = Reached-total two_refs name 7 true two_refs-Reached (omega arith)

lookup_id_iff_example :
    (lookup_id two_refs name ≡ (1, true)) ↔ (lookup two_refs 1 ≡ some (name, true))
lookup_id_iff_example = lookup_id_iff two_refs name 1 two_refs-Valid name_filled (omega arith)

-- An encoder that has the runes of one byte, for every code page.
abbrev latin : ℕ → ℕ → Bool
latin cp r = ltb r 0x100

validate_iff_example :
    (validate latin two_refs name ≡ fine)
    ↔ (Writable latin two_refs.codepage (runes name) × (valid_string name ≡ true))
validate_iff_example = validate_iff latin two_refs name

-- A rune of two bytes, the euro sign, and a byte that starts nothing.
validate_runs :
    (validate latin two_refs (0xc3 ∷ 0xa9 ∷ []) ≡ fine)
    × (validate latin two_refs (0xe2 ∷ 0x82 ∷ 0xac ∷ []) ≡ not_encodable 0x20ac)
    × (validate (λ cp r. true) two_refs (b'a' ∷ 0xff ∷ []) ≡ invalid_utf8)
unfolding validate first_unwritable among valid_string valid_loop runes runes_loop decode_rune
validate_runs = (refl, refl, refl)

change_runs : set_codepage latin 1250 two_refs ≡ changed (record two_refs { codepage = 1250 })
unfolding set_codepage supported among entries_unwritable first_unwritable runes runes_loop
    decode_rune
change_runs = refl

set_codepage_iff_example :
    (set_codepage latin 1250 two_refs ≡ changed (record two_refs { codepage = 1250 })) ↔ (
      (supported 1250 ≡ true)
      × AllWritable latin 1250 two_refs.entries
      × (record two_refs { codepage = 1250 } ≡ record two_refs { codepage = 1250 }))
set_codepage_iff_example =
    set_codepage_iff latin 1250 two_refs (record two_refs { codepage = 1250 })
