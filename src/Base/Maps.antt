-- ===== src/Base/Maps.antt =====
-- A JavaScript `Map` or `Set` keyed by strings.
use mathlib.Core.Bool.{Bool, true, false, ◌||◌}
use mathlib.Core.Option.{Option, none, some}
use mathlib.Core.List.{List, [], ◌∷◌}
use mathlib.Core.Path.{◌≡◌, refl}
use native.Mathlib.Omega.{arith}
use pods.Base.Tests.{if◌then◌else◌}
use pods.Base.Strings.{Text, same_text, same_text_iff}

abbrev pub Dict {ℓ} : Type ℓ → Type ℓ
Dict V = List (Text × V)

-- `set.has(k)`
abbrev pub has : Text → List Text → Bool
has k [] = false
has k (x ∷ xs) = same_text x k || has k xs

-- No string is listed twice.
abbrev pub IsUnique : List Text → Type 0
IsUnique [] = Unit
IsUnique (x ∷ xs) = (has x xs ≡ false) × IsUnique xs

abbrev pub keys {ℓ} : {V : Type ℓ} → Dict V → List Text
keys [] = []
keys (e ∷ d) = e.0 ∷ keys d

module _ {ℓ} {V : Type ℓ} where
  -- `map.get(k)`
  abbrev pub lookup : Text → Dict V → Option V
  lookup k [] = none
  lookup k (e ∷ d) = if same_text e.0 k then some e.1 else lookup k d

  -- `map.has(k)`
  abbrev pub contains : Text → Dict V → Bool
  contains key map = elim (lookup key map) [ some _ ↦ true | none ↦ false ]

  -- `map.set(k, v)`
  abbrev pub insert : Text → V → Dict V → Dict V
  insert key new [] = (key, new) ∷ []
  insert key new (e ∷ d) = if same_text e.0 key then (e.0, new) ∷ d else e ∷ insert key new d

pub same_text_refl : (s : Text) → same_text s s ≡ true
same_text_refl s = (same_text_iff s s).1 refl

module _ {ℓ} {V : Type ℓ} where
  pub contains-eq-has : (k : Text) (d : Dict V) → contains k d ≡ has k (keys d)
  contains-eq-has k [] = refl
  contains-eq-has k (e ∷ d) = ground (arith, contains-eq-has k d)

  pub lookup-insert :
      (k j : Text) (v : V) (d : Dict V)
      → lookup j (insert k v d) ≡ (if same_text k j then some v else lookup j d)
  lookup-insert k j v [] = refl
  lookup-insert k j v (e ∷ d) =
      ground
        (arith, same_text_iff k j, same_text_iff e.0 k, same_text_iff e.0 j, lookup-insert k j v d)
