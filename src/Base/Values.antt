-- ===== src/Base/Values.antt =====
-- A JavaScript value that the code has not checked yet, and the tests it makes on one.
use Prim.Native.Nat.{ℕ}
use mathlib.Core.Bool.{Bool, true, false, not}
use mathlib.Core.Option.{Option, none, some}
use mathlib.Core.List.{List, [], ◌∷◌}
use pods.Base.Tests.{if◌then◌else◌}
use pods.Base.Lists.{is_empty}
use pods.Base.Strings.{Text, same_text, trim}
use pods.Base.Numbers.{Number, positive_safe_integer}

mutual
  pub data Value : Type 0 where
    undefined : Value
    null : Value
    bool : Bool → Value
    num : Number → Value
    str : Text → Value
    arr : Items → Value
    obj : Fields → Value

  pub data Fields : Type 0 where
    end : Fields
    field : Text → Value → Fields → Fields

  pub data Items : Type 0 where
    nil : Items
    cons : Value → Items → Items

-- `record.name`: a record that lacks the name has `undefined` there. Names are listed once.
abbrev pub get : Text → Fields → Value
get name end = undefined
get name (field k v rest) = if same_text k name then v else get name rest

-- `typeof value === "object" && value !== null && !Array.isArray(value) ? value : {}`.
abbrev pub as_record : Value → Fields
as_record (obj fs) = fs
as_record _ = end

-- `typeof value === "string" ? value : ""`.
abbrev pub as_text : Value → Text
as_text (str s) = s
as_text _ = []

-- `typeof value === "string" ? value.trim() : ""`.
abbrev pub trimmed_text : Value → Text
trimmed_text v = trim (as_text v)

-- `value === "text"`.
abbrev pub is_text : Value → Text → Bool
is_text (str s) t = same_text s t
is_text _ t = false

abbrev pub items : Items → List Value
items nil = []
items (cons v vs) = v ∷ items vs

abbrev pub is_array : Value → Bool
is_array (arr vs) = true
is_array _ = false

abbrev pub is_string : Value → Bool
is_string (str s) = true
is_string _ = false

abbrev pub is_undefined : Value → Bool
is_undefined undefined = true
is_undefined _ = false

-- The number, if `typeof value === "number" && Number.isSafeInteger(value) && value > 0`.
abbrev pub positive_number : Value → Option ℕ
positive_number (num n) = positive_safe_integer n
positive_number _ = none

abbrev pub is_some {ℓ} : {A : Type ℓ} → Option A → Bool
is_some none = false
is_some (some a) = true

-- `typeof value === "string" && value.trim().length > 0`.
abbrev pub non_empty_string : Value → Bool
non_empty_string (str s) = not (is_empty (trim s))
non_empty_string _ = false
