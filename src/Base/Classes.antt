-- ===== src/Base/Classes.antt =====
-- Classes of characters by the ranges of their codes, as regular expressions name them.
use Prim.Native.Nat.{ℕ, ◌≤◌}
use mathlib.Core.Path.{◌≡◌}
use mathlib.Core.Logic.{◌↔◌, ◌⊎◌, inl, inr}
use mathlib.Core.Bool.{Bool, true, ◌&&◌, ◌||◌}
use mathlib.Core.List.{List, [], ◌∷◌}
use native.Mathlib.Omega.{arith}
use pods.Base.Tests.{leb, Bool-cases}
use pods.Base.Lists.{all, All}
use pods.Base.Strings.{is_digit, is_lower, is_upper, is_hex}

-- The codes from the first to the last.
abbrev pub IsWithin : ℕ → ℕ → ℕ → Type 0
IsWithin first last c = (first ≤ c) × (c ≤ last)

-- 0 to 9, a to f or A to F.
abbrev pub IsHex : ℕ → Type 0
IsHex c = (IsWithin 48 57 c ⊎ IsWithin 97 102 c) ⊎ IsWithin 65 70 c

between_iff : (first last c : ℕ) → ((leb first c && leb c last) ≡ true) ↔ IsWithin first last c
between_iff first last c = (λ h. ground arith, λ h. ground arith)

pub or_iff :
    (p q : Bool) {P Q : Type 0} → (p ≡ true) ↔ P → (q ≡ true) ↔ Q → ((p || q) ≡ true) ↔ (P ⊎ Q)
or_iff p q i j = (
  λ h. elim (Bool-cases p) [ inl e ↦ inl (i.0 e) | inr e ↦ inr (j.0 (ground arith)) ],
  elim [ inl x ↦ ground (arith, i.1 x) | inr y ↦ ground (arith, j.1 y) ],
)

pub is_digit_iff : (c : ℕ) → (is_digit c ≡ true) ↔ IsWithin 48 57 c
is_digit_iff = between_iff 48 57

pub is_lower_iff : (c : ℕ) → (is_lower c ≡ true) ↔ IsWithin 97 122 c
is_lower_iff = between_iff 97 122

pub is_upper_iff : (c : ℕ) → (is_upper c ≡ true) ↔ IsWithin 65 90 c
is_upper_iff = between_iff 65 90

pub is_hex_iff : (c : ℕ) → (is_hex c ≡ true) ↔ IsHex c
is_hex_iff c =
    or_iff _ _ (or_iff _ _ (between_iff 48 57 c) (between_iff 97 102 c)) (between_iff 65 70 c)

module _ {ℓ} {A : Type ℓ} (p : A → Bool) (P : A → Type 0)
    (same : (c : A) → (p c ≡ true) ↔ P c) where
  pub all_iff : (t : List A) → (all p t ≡ true) ↔ All P t
  all_iff [] = (λ h. tt, λ h. ground arith)
  all_iff (c ∷ t) = (
    λ h. ((same c).0 (ground arith), (all_iff t).0 (ground arith)),
    λ (x, xs). ground (arith, (same c).1 x, (all_iff t).1 xs),
  )
