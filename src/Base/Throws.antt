-- ===== src/Base/Throws.antt =====
-- Code that throws: a value, or the error that was thrown.
use mathlib.Core.Path.{◌≡◌, refl}
use mathlib.Core.Logic.{◌≢◌}
use mathlib.Core.List.{List, [], ◌∷◌}
use mathlib.Core.Bool.{Bool, true, false}

pub data Result (E A : Type 0) : Type 0 where
  err : E → Result E A
  ok : A → Result E A

infixl 5 ◌>>=◌ ◌>>◌
abbrev pub ◌>>=◌ : {E A B : Type 0} → Result E A → (A → Result E B) → Result E B
err thrown >>= next = err thrown
ok value >>= next = next value

abbrev pub ◌>>◌ : {E B : Type 0} → Result E (Unit {0}) → Result E B → Result E B
action >> next = action >>= λ _. next

-- `errors.length > 0 ? { success: false, errors } : { success: true, value }`.
abbrev pub checked : {E A : Type 0} → List E → A → Result (List E) A
checked [] value = ok value
checked (e ∷ errors) value = err (e ∷ errors)

-- `if (test) throw new Error(e)`.
abbrev pub throw_if : {E : Type 0} → Bool → E → Result E (Unit {0})
throw_if true e = err e
throw_if false e = ok tt

pub ok-injective : {E A : Type 0} {a b : A} → ◌≡◌ {A = Result E A} (ok a) (ok b) → a ≡ b
ok-injective h = cc

-- A bind that returns: the action returned, and so did what follows it.
pub >>=-eq-ok :
    {E A B : Type 0} (action : Result E A) (next : A → Result E B) {final : B}
    → (action >>= next) ≡ ok final
    → (value : A) × (action ≡ ok value) × (next value ≡ ok final)
>>=-eq-ok (err thrown) next h = cc
>>=-eq-ok (ok value) next h = (value, refl, h)

pub throw_if-eq-ok :
    {E : Type 0} (b : Bool) (e : E) {u : Unit {0}} → throw_if b e ≡ ok u → b ≡ false
throw_if-eq-ok true e h = cc
throw_if-eq-ok false e h = refl

-- A bind that throws: the action threw, or what follows it did.
pub >>=-eq-err :
    {E A B : Type 0} (m : Result E A) (f : A → Result E B) {e : E}
    → (m >>= f) ≡ err e
    → m ≢ err e
    → (a : A) × (m ≡ ok a) × (f a ≡ err e)
>>=-eq-err (ok a) f h n = (a, refl, h)
>>=-eq-err (err e) f h n = absurd (n (cc))

pub throw_if-ne-err : {E : Type 0} (b : Bool) {e e' : E} → e ≢ e' → throw_if b e ≢ err e'
throw_if-ne-err true n h = n (cc)
throw_if-ne-err false n h = cc

pub checked-eq-ok :
    {E A : Type 0} (errors : List E) (value : A) {a : A}
    → checked errors value ≡ ok a
    → (errors ≡ []) × (value ≡ a)
checked-eq-ok [] value h = (refl, ok-injective h)
checked-eq-ok (e ∷ errors) value h = cc

pub checked-ne-err : {E A : Type 0} (errors : List E) (value : A) → checked errors value ≢ err []
checked-ne-err [] value h = cc
checked-ne-err (e ∷ errors) value h = cc
