-- ===== src/Base/Trimming.antt =====
-- `trim` leaves a text that it has trimmed as it is.
use mathlib.Core.Path.{◌≡◌, refl, sym, ap, ◌∙◌}
use mathlib.Core.Bool.{Bool, true, false}
use mathlib.Core.List.{[], ◌∷◌, ◌++◌, reverse, reverse-append, reverse-reverse}
use native.Mathlib.Omega.{arith}
use pods.Base.Tests.{if◌then◌else◌}
use pods.Base.Lists.{some_of}
use Prim.Native.Nat.{ℕ}
use pods.Base.Strings.{Text, is_space, trim_start, trim}

-- The text does not begin with a space.
abbrev IsTight : Text → Type 0
IsTight [] = Unit
IsTight (c ∷ s) = is_space c ≡ false

trim_start-IsTight : (s : Text) → IsTight (trim_start s)
unfolding trim_start
trim_start-IsTight [] = tt
trim_start-IsTight (c ∷ s) = ground (arith, trim_start-IsTight s)

trim_start_tight : (s : Text) → IsTight s → trim_start s ≡ s
unfolding trim_start
trim_start_tight [] h = refl
trim_start_tight (c ∷ s) h = rw h

trim_start-suffix : (s : Text) → (p : Text) × (s ≡ p ++ trim_start s)
unfolding trim_start
trim_start-suffix [] = ([], refl)
trim_start-suffix (c ∷ s) =
    elim (is_space c) as (λ b. (p : Text) × (c ∷ s ≡ p ++ (if b then trim_start s else c ∷ s))) [
      | true ↦ let (p, e) = trim_start-suffix s in (c ∷ p, ap (λ (t : Text). c ∷ t) e)
      | false ↦ ([], refl)
    ]

IsTight-prefix : (s t : Text) → IsTight (s ++ t) → IsTight s
IsTight-prefix [] t h = tt
IsTight-prefix (c ∷ s) t h = h

trim_end-IsTight : (a : Text) → IsTight a → IsTight (reverse (trim_start (reverse a)))
trim_end-IsTight a h =
    let (p, e) = trim_start-suffix (reverse a) in
    let whole : a ≡ reverse (trim_start (reverse a)) ++ reverse p =
      sym (reverse-reverse a) ∙ (ap reverse e ∙ reverse-append p (trim_start (reverse a))) in
    IsTight-prefix (reverse (trim_start (reverse a))) (reverse p) (rw whole at h)

pub trim_idem : (s : Text) → trim (trim s) ≡ trim s
unfolding trim
trim_idem s =
    let a = trim_start s in
    let r = reverse (trim_start (reverse a)) in
    let start : trim_start r ≡ r = trim_start_tight r (trim_end-IsTight a (trim_start-IsTight s)) in
    let back : reverse r ≡ trim_start (reverse a) = reverse-reverse (trim_start (reverse a)) in
    ap (λ (t : Text). reverse (trim_start (reverse t))) start
    ∙ (ap (λ (t : Text). reverse (trim_start t)) back
        ∙ ap reverse (trim_start_tight (trim_start (reverse a)) (trim_start-IsTight (reverse a))))

IsTight-all : (s : Text) → some_of is_space s ≡ false → IsTight s
IsTight-all [] h = tt
IsTight-all (c ∷ s) h = ground arith

some_of-append :
    (f : ℕ → Bool) (s t : Text)
    → some_of f s ≡ false
    → some_of f t ≡ false
    → some_of f (s ++ t) ≡ false
some_of-append f [] t h k = k
some_of-append f (c ∷ s) t h k = ground (arith, some_of-append f s t)

some_of-reverse : (f : ℕ → Bool) (s : Text) → some_of f s ≡ false → some_of f (reverse s) ≡ false
some_of-reverse f [] h = refl
some_of-reverse f (c ∷ s) h =
    rw (reverse-append (c ∷ []) s)
      (some_of-append f (reverse s) (c ∷ []) (some_of-reverse f s (ground arith)) (ground arith))

-- A text without white space is trimmed.
pub trim_solid : (s : Text) → some_of is_space s ≡ false → trim s ≡ s
unfolding trim
trim_solid s h =
    let start : trim_start s ≡ s = trim_start_tight s (IsTight-all s h) in
    let end : trim_start (reverse s) ≡ reverse s =
      trim_start_tight (reverse s) (IsTight-all (reverse s) (some_of-reverse is_space s h)) in
    ap (λ (t : Text). reverse (trim_start (reverse t))) start ∙ (ap reverse end ∙ reverse-reverse s)
