-- ===== src/Base/Sums.antt =====
-- Sums over the values of a `Map` at a list of distinct keys.
use Prim.Native.Nat.{ℕ, ◌+◌}
use mathlib.Core.Bool.{true, false}
use mathlib.Core.Option.{Option, none, some}
use mathlib.Core.List.{List, [], ◌∷◌}
use mathlib.Core.Path.{◌≡◌, refl}
use native.Mathlib.Omega.{arith}
use pods.Base.Lists.{sum_of, All}
use pods.Base.Strings.{Text, same_text_iff}
use pods.Base.Maps.{Dict, has, IsUnique, keys, lookup, insert, contains-eq-has, lookup-insert}

module _ {ℓ} {V : Type ℓ} where
  -- The measure of an entry, and 0 of a missing one.
  abbrev pub value : (V → ℕ) → Option V → ℕ
  value f none = 0
  value f (some v) = f v

  abbrev pub sum_at : (V → ℕ) → Dict V → List Text → ℕ
  sum_at f d ids = sum_of (λ id. value f (lookup id d)) ids

module _ {ℓ} {V : Type ℓ} (f : V → ℕ) where
  pub sum_at-insert_other :
      (k : Text) (v : V) (d : Dict V) (ids : List Text)
      → has k ids ≡ false
      → sum_at f (insert k v d) ids ≡ sum_at f d ids
  sum_at-insert_other k v d [] h = refl
  sum_at-insert_other k v d (id ∷ ids) h = ground (
    arith,
    same_text_iff id k,
    same_text_iff k id,
    lookup-insert k id v d,
    sum_at-insert_other k v d ids,
  )

  -- Writing over an entry moves the sum by the difference of the two values.
  pub sum_at-insert :
      (k : Text) (old v : V) (d : Dict V) (ids : List Text)
      → IsUnique ids
      → has k ids ≡ true
      → lookup k d ≡ some old
      → sum_at f (insert k v d) ids + f old ≡ sum_at f d ids + f v
  sum_at-insert k old v d [] u h e = cc
  sum_at-insert k old v d (id ∷ ids) u h e = ground (
    arith,
    same_text_iff id k,
    same_text_iff k id,
    lookup-insert k id v d,
    sum_at-insert_other k v d ids,
    sum_at-insert k old v d ids u.1,
  )

  sum_at-cons_other :
      (e : Text × V) (d : Dict V) (ids : List Text)
      → has e.0 ids ≡ false
      → sum_at f (e ∷ d) ids ≡ sum_at f d ids
  sum_at-cons_other e d [] h = refl
  sum_at-cons_other e d (id ∷ ids) h =
      ground (arith, same_text_iff id e.0, same_text_iff e.0 id, sum_at-cons_other e d ids)

  sum_at-cons :
      (e : Text × V) (d : Dict V) (ids : List Text)
      → IsUnique ids
      → has e.0 ids ≡ true
      → lookup e.0 d ≡ none
      → sum_at f (e ∷ d) ids ≡ f e.1 + sum_at f d ids
  sum_at-cons e d [] u h n = cc
  sum_at-cons e d (id ∷ ids) u h n = ground (
    arith,
    same_text_iff id e.0,
    same_text_iff e.0 id,
    sum_at-cons_other e d ids,
    sum_at-cons e d ids u.1,
  )

  -- With all the keys among distinct ids, the sum at the ids is the sum over the entries.
  pub sum_at-eq-sum_of :
      (d : Dict V) (ids : List Text)
      → IsUnique ids
      → IsUnique (keys d)
      → All (λ k. has k ids ≡ true) (keys d)
      → sum_at f d ids ≡ sum_of (λ e. f e.1) d
  sum_at-eq-sum_of [] [] u w a = refl
  sum_at-eq-sum_of [] (id ∷ ids) u w a = omega (arith, sum_at-eq-sum_of [] ids u.1 tt tt)
  sum_at-eq-sum_of (e ∷ d) ids u w a =
      ground
        (arith, contains-eq-has e.0 d, sum_at-cons e d ids u a.0, sum_at-eq-sum_of d ids u w.1 a.1)
