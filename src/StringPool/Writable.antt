-- ===== src/StringPool/Writable.antt =====
-- What SetCodepage and Validate of internal/stringpool/stringpool.go promise.
use go_msi.Prelude.{
  ℕ, zero, suc, ◌≡◌, inl, inr, ◌⊎◌, ◌↔◌, ◌==◌, ◌&&◌, not, if◌then◌else◌, Bool, true, false,
  Bool-cases, List, [], ◌∷◌, none, some, Option-cases, length, drop, refl, ap, sym, ◌∙◌, arith,
}
use go_msi.Prelude.Text.{Str}
use go_msi.Utf8.{rune_error, decode_rune, runes, runes_loop}
use go_msi.StringPool.{Entry, Pool}
use go_msi.StringPool.Codepages.{
  among, supported, valid_loop, valid_string, Checked, fine, not_encodable, invalid_utf8, Changed,
  changed, unsupported, refused, writable, first_unwritable, validate, entries_unwritable,
  set_codepage,
}

-- A string whose runes do not hold the rune of an error is valid.
valid_without_error :
    (fuel : ℕ) (s : Str) → among rune_error (runes_loop fuel s) ≡ false → valid_loop fuel s ≡ true
unfolding runes_loop valid_loop among
valid_without_error zero s h = refl
valid_without_error (suc fuel) [] h = refl
valid_without_error (suc fuel) (b ∷ s) h =
    ground (arith, h, valid_without_error fuel (drop (decode_rune (b ∷ s)).1 (b ∷ s)))

no_error : (t : Str) → among rune_error (runes t) ≡ false → valid_string t ≡ true
unfolding runes valid_string
no_error t a = valid_without_error (length t) t a

module _ (encodes : ℕ → ℕ → Bool) where
  -- Every rune is ASCII, or the encoder of the code page has it.
  abbrev pub Writable : ℕ → List ℕ → Type 0
  Writable cp [] = Unit {0}
  Writable cp (r ∷ rs) = (writable encodes cp r ≡ true) × Writable cp rs

  first_unwritable-none :
      (cp : ℕ) (rs : List ℕ) → first_unwritable encodes cp rs ≡ none → Writable cp rs
  unfolding first_unwritable
  first_unwritable-none cp [] h = tt
  first_unwritable-none cp (r ∷ rs) h = elim (Bool-cases (writable encodes cp r)) [
    | inl e ↦ (e, first_unwritable-none cp rs (rw e at h))
    | inr e ↦ absurd (ground (arith, rw e at h))
  ]

  none-first_unwritable :
      (cp : ℕ) (rs : List ℕ) → Writable cp rs → first_unwritable encodes cp rs ≡ none
  unfolding first_unwritable
  none-first_unwritable cp [] w = refl
  none-first_unwritable cp (r ∷ rs) (e, w) = rw e (none-first_unwritable cp rs w)

  -- The verdict behind the loop over the runes.
  verdict : Bool → Bool → Checked
  verdict has_error valid = if has_error && not valid then invalid_utf8 else fine

  validate_writable :
      (p : Pool) (s : Str)
      → first_unwritable encodes p.codepage (runes s) ≡ none
      → validate encodes p s ≡ verdict (among rune_error (runes s)) (valid_string s)
  unfolding validate verdict
  validate_writable p s h = rw (h, validate) refl

  validate_unwritable :
      (p : Pool) (s : Str) (r : ℕ)
      → first_unwritable encodes p.codepage (runes s) ≡ some r
      → validate encodes p s ≡ not_encodable r
  unfolding validate
  validate_unwritable p s r h = rw (h, validate) refl

  verdict_fine :
      (s : Str)
      → verdict (among rune_error (runes s)) (valid_string s) ≡ fine
      → valid_string s ≡ true
  unfolding verdict
  verdict_fine s h = elim (Bool-cases (valid_string s)) [
    | inl e ↦ e
    | inr e ↦ elim (Bool-cases (among rune_error (runes s))) [
      | inl a ↦ absurd (ground (arith, rw a at (rw e at h)))
      | inr a ↦ no_error s a
    ]
  ]

  fine_verdict : (b : Bool) → verdict b true ≡ fine
  unfolding verdict
  fine_verdict true = refl
  fine_verdict false = refl

  -- Validate accepts exactly the strings that are valid UTF-8 and whose runes the pool's code page
  -- has, or are ASCII.
  pub validate_iff :
      (p : Pool) (s : Str)
      → (validate encodes p s ≡ fine) ↔ (Writable p.codepage (runes s) × (valid_string s ≡ true))
  validate_iff p s = (to, from)
    where
      to : validate encodes p s ≡ fine → Writable p.codepage (runes s) × (valid_string s ≡ true)
      to h = elim (Option-cases (first_unwritable encodes p.codepage (runes s))) [
        | inl n ↦ (
          first_unwritable-none p.codepage (runes s) n,
          verdict_fine s (sym (validate_writable p s n) ∙ h),
        )
        | inr (r, e) ↦ absurd (ground (arith, sym (validate_unwritable p s r e) ∙ h))
      ]

      from : Writable p.codepage (runes s) × (valid_string s ≡ true) → validate encodes p s ≡ fine
      from (w, v) =
          validate_writable p s (none-first_unwritable p.codepage (runes s) w)
          ∙ ap (verdict (among rune_error (runes s))) v
          ∙ fine_verdict (among rune_error (runes s))

  -- An entry of the loop of SetCodepage, behind its test for a persistent reference.
  skip_eq :
      (cp : ℕ) (x : Entry) (es : List Entry)
      → entries_unwritable encodes cp (x ∷ es) ≡ none
      → entries_unwritable encodes cp es ≡ none
  unfolding entries_unwritable
  skip_eq cp x es h = elim (Bool-cases (x.persistent == 0)) [
    | inl z ↦ rw z at h
    | inr z ↦ elim (Option-cases (first_unwritable encodes cp (runes x.s))) [
      | inl n ↦ rw n at (rw z at h)
      | inr (r, e) ↦ absurd (ground (arith, rw e at (rw z at h)))
    ]
  ]

  first_skipped :
      (cp : ℕ) (x : Entry) (es : List Entry)
      → entries_unwritable encodes cp (x ∷ es) ≡ none
      → (x.persistent ≡ 0) ⊎ Writable cp (runes x.s)
  unfolding entries_unwritable
  first_skipped cp x es h = elim (Bool-cases (x.persistent == 0)) [
    | inl z ↦ inl (ground (arith, z))
    | inr z ↦ elim (Option-cases (first_unwritable encodes cp (runes x.s))) [
      | inl n ↦ inr (first_unwritable-none cp (runes x.s) n)
      | inr (r, e) ↦ absurd (ground (arith, rw e at (rw z at h)))
    ]
  ]

  -- Every string with a persistent reference can be written in the code page.
  abbrev pub AllWritable : ℕ → List Entry → Type 0
  AllWritable cp [] = Unit {0}
  AllWritable cp (x ∷ es) = ((x.persistent ≡ 0) ⊎ Writable cp (runes x.s)) × AllWritable cp es

  entries-AllWritable :
      (cp : ℕ) (es : List Entry) → entries_unwritable encodes cp es ≡ none → AllWritable cp es
  entries-AllWritable cp [] h = tt
  entries-AllWritable cp (x ∷ es) h =
      (first_skipped cp x es h, entries-AllWritable cp es (skip_eq cp x es h))

  AllWritable-entries :
      (cp : ℕ) (es : List Entry) → AllWritable cp es → entries_unwritable encodes cp es ≡ none
  unfolding entries_unwritable
  AllWritable-entries cp [] w = refl
  AllWritable-entries cp (x ∷ es) (inl z, w) =
      let e : (x.persistent == 0) ≡ true = ground (arith, z) in rw e (AllWritable-entries cp es w)
  AllWritable-entries cp (x ∷ es) (inr v, w) = elim (Bool-cases (x.persistent == 0)) [
    | inl z ↦ rw z (AllWritable-entries cp es w)
    | inr z ↦ rw (z, none-first_unwritable cp (runes x.s) v) (AllWritable-entries cp es w)
  ]

  abbrev pool_or : Pool → Changed → Pool
  pool_or p (changed q) = q
  pool_or p unsupported = p
  pool_or p (refused r) = p

  changed_pool :
      (cp : ℕ) (p q : Pool)
      → set_codepage encodes cp p ≡ changed q
      → (supported cp ≡ true) × AllWritable cp p.entries × (q ≡ record p { codepage = cp })
  unfolding set_codepage
  changed_pool cp p q h = elim (Bool-cases (supported cp)) [
    | inr s ↦ absurd (ground (arith, rw s at h))
    | inl s ↦ elim (Option-cases (entries_unwritable encodes cp p.entries)) [
      | inl n ↦ (s, entries-AllWritable cp p.entries n, sym (ap (pool_or p) (rw n at (rw s at h))))
      | inr (r, e) ↦ absurd (ground (arith, rw e at (rw s at h)))
    ]
  ]

  -- SetCodepage succeeds exactly where the code page is one of those supported and every string with
  -- a persistent reference can be written in it. Then it is the pool's code page, and nothing else
  -- of the pool changes.
  pub set_codepage_iff :
      (cp : ℕ) (p q : Pool)
      → (set_codepage encodes cp p ≡ changed q)
        ↔ ((supported cp ≡ true) × AllWritable cp p.entries × (q ≡ record p { codepage = cp }))
  unfolding set_codepage
  set_codepage_iff cp p q = (changed_pool cp p q, from)
    where
      from :
          (supported cp ≡ true) × AllWritable cp p.entries × (q ≡ record p { codepage = cp })
          → set_codepage encodes cp p ≡ changed q
      from (s, w, e) = rw (s, AllWritable-entries cp p.entries w) (ap changed (sym e))
