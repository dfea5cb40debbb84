-- ===== src/Prelude/Lex.antt =====
-- The lexicographic order of two readings of the same places.
use Prim.Native.Nat.{ℕ, ◌<◌}
use mathlib.Core.Path.{◌≡◌}
use mathlib.Core.Logic.{◌⊎◌}
use mathlib.Core.List.{List, [], ◌∷◌}

module _ {K : Type 0} where
  -- Both readings have the same number at every place.
  abbrev pub SameAt : (K → ℕ) → (K → ℕ) → List K → Type 0
  SameAt u v [] = Unit {0}
  SameAt u v (k ∷ ks) = (u k ≡ v k) × SameAt u v ks

  -- At the first place where they differ the first reading has the lesser number.
  abbrev pub LexLess : (K → ℕ) → (K → ℕ) → List K → Type 0
  LexLess u v [] = ⊥
  LexLess u v (k ∷ ks) = (u k < v k) ⊎ ((u k ≡ v k) × LexLess u v ks)
