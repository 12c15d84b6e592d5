-- ===== src/Base/Numbers.antt =====
-- A JavaScript number: an integer, a finite number with a fraction, an infinity, or NaN. The
-- arithmetic that the code does on numbers is on integers that it has tested or counted; a sum or a
-- product of safe integers is exact while it is safe, and rounds to no safe integer otherwise.
use Prim.Native.Nat.{ℕ, ◌≤◌, ◌<◌}
use mathlib.Core.Path.{◌≡◌}
use native.Mathlib.Omega.{arith}
use mathlib.Core.Bool.{Bool, true, false, ◌&&◌}
use mathlib.Core.Option.{Option, none, some}
use pods.Base.Tests.{leb, ltb, if◌then◌else◌}

pub data Number : Type 0 where
  nat : ℕ → Number
  neg : ℕ → Number  -- -(n + 1)
  fraction : ℕ → ℕ → Number  -- a number between n and n + 1, the second names which
  neg_fraction : ℕ → Number  -- a number below 0 with a fraction
  infinite : Number
  neg_infinite : Number
  nan : Number

-- `Number.MAX_SAFE_INTEGER`, 2^53 - 1.
abbrev pub max_safe_integer : ℕ
max_safe_integer = 9007199254740991

-- `Number.isSafeInteger(n)` for a number that is not negative.
abbrev pub is_safe : ℕ → Bool
is_safe n = leb n max_safe_integer

-- The value, if `Number.isSafeInteger(value) && value > 0`.
abbrev pub positive_safe_integer : Number → Option ℕ
positive_safe_integer (nat n) = if leb 1 n && is_safe n then some n else none
positive_safe_integer _ = none

-- `m < n`
abbrev pub lt_number : ℕ → Number → Bool
lt_number m (nat n) = ltb m n
lt_number m (fraction n _) = leb m n
lt_number m infinite = true
lt_number m _ = false

pub positive_safe_integer_lem :
    (n : Number) {m : ℕ}
    → positive_safe_integer n ≡ some m
    → (n ≡ nat m) × (0 < m) × (m ≤ max_safe_integer)
positive_safe_integer_lem (nat n) h = ground arith
positive_safe_integer_lem _ h = cc
