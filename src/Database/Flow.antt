-- ===== src/Database/Flow.antt =====
-- How a transaction branches, and what holds of all that it returns.
use mathlib.Core.Path.{subst}
use pods.Base.{
  ok-injective, ◌≡◌, refl, Bool, true, false, Option, none, some, Result, ok, err, ◌>>=◌,
  if◌then◌else◌,
}

-- `const [row] = await …; if (!row) return missing;`
unfoldable pub if_found {ℓ κ} : {R : Type ℓ} {B : Type κ} → Option R → B → (R → B) → B
if_found none missing next = missing
if_found (some row) missing next = next row

pub if_found-elim {ℓ κ μ} :
    {R : Type ℓ} {B : Type κ} (Q : B → Type μ) (o : Option R) (missing : B) (next : R → B)
    → Q missing
    → ((r : R) → Q (next r))
    → Q (if_found o missing next)
unfolding if_found
if_found-elim Q none missing next m n = m
if_found-elim Q (some r) missing next m n = n r

pub if_found-by {ℓ κ μ} :
    {R : Type ℓ} {B : Type κ} (Q : B → Type μ) (o : Option R) (missing : B) (next : R → B)
    → (o ≡ none → Q missing)
    → ((r : R) → o ≡ some r → Q (next r))
    → Q (if_found o missing next)
unfolding if_found
if_found-by Q none missing next m n = m refl
if_found-by Q (some r) missing next m n = n r refl

-- `if (!test) throw error;`
unfoldable pub require : {E A : Type 0} → Bool → E → Result E A → Result E A
require true error next = next
require false error next = err error

-- `P` holds of what is returned, if anything is.
abbrev pub After {ℓ} : {E A : Type 0} → (A → Type ℓ) → Result E A → Type ℓ
After P (ok a) = P a
After P (err e) = Unit

module _ {ℓ} {E A : Type 0} (P : A → Type ℓ) where
  pub After-if_found {κ} :
      {R : Type κ} (o : Option R) (missing : Result E A) (next : R → Result E A)
      → (o ≡ none → After P missing)
      → ((r : R) → o ≡ some r → After P (next r))
      → After P (if_found o missing next)
  unfolding if_found
  After-if_found none missing next m n = m refl
  After-if_found (some r) missing next m n = n r refl

  pub After-require :
      (test : Bool) (error : E) (next : Result E A)
      → (test ≡ true → After P next)
      → After P (require test error next)
  unfolding require
  After-require true error next n = n refl
  After-require false error next n = tt

  pub After-if :
      (test : Bool) (yes_ no_ : Result E A)
      → (test ≡ true → After P yes_)
      → (test ≡ false → After P no_)
      → After P (if test then yes_ else no_)
  After-if true yes_ no_ y n = y refl
  After-if false yes_ no_ y n = n refl

  pub After-bind :
      {B : Type 0} (m : Result E B) (next : B → Result E A)
      → ((b : B) → m ≡ ok b → After P (next b))
      → After P (m >>= next)
  After-bind (ok b) next n = n b refl
  After-bind (err e) next n = tt

  -- What was returned has the property.
  pub After-eq-ok : (r : Result E A) {a : A} → After P r → r ≡ ok a → P a
  After-eq-ok (ok b) h e = subst P (ok-injective e) h
  After-eq-ok (err b) h e = cc
