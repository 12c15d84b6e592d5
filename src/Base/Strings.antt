-- ===== src/Base/Strings.antt =====
-- A JavaScript string is the list of its UTF-16 code units; `length` counts them.
use Prim.Native.Nat.{ℕ, ◌+◌}
use Prim.Native.Char.{code}
use Prim.Native.String.{String}
use mathlib.Core.Path.{◌≡◌, refl}
use mathlib.Core.Logic.{◌↔◌}
use mathlib.Core.Bool.{Bool, true, false, ◌&&◌, ◌||◌}
use mathlib.Core.List.{List, [], ◌∷◌, reverse}
use native.Mathlib.Omega.{arith}
use pods.Base.Tests.{leb, ◌==◌, if◌then◌else◌, ==_iff}

abbrev pub Text : Type 0
Text = List ℕ

-- The code units of an ASCII literal.
abbrev pub codes : String → Text
codes String.[] = []
codes (String.◌∷◌ c s) = code c ∷ codes s

-- `===` on strings.
unfoldable pub same_text : Text → Text → Bool
same_text [] [] = true
same_text [] (b ∷ t) = false
same_text (a ∷ s) [] = false
same_text (a ∷ s) (b ∷ t) = a == b && same_text s t

pub same_text_iff : (s t : Text) → (same_text s t ≡ true) ↔ (s ≡ t)
unfolding same_text
same_text_iff [] [] = (λ _. refl, λ _. refl)
same_text_iff [] (b ∷ t) = (λ h. cc, λ h. cc)
same_text_iff (a ∷ s) [] = (λ h. cc, λ h. cc)
same_text_iff (a ∷ s) (b ∷ t) = ground (arith, ==_iff a b, same_text_iff s t)

-- The white space and line terminators of ECMAScript, which `trim` removes.
unfoldable pub is_space : ℕ → Bool
is_space c =
    (leb 9 c && leb c 13)
    || c == 32
    || c == 0xa0
    || c == 0x1680
    || (leb 0x2000 c && leb c 0x200a)
    || c == 0x2028
    || c == 0x2029
    || c == 0x202f
    || c == 0x205f
    || c == 0x3000
    || c == 0xfeff

unfoldable pub trim_start : Text → Text
trim_start [] = []
trim_start (c ∷ s) = if is_space c then trim_start s else c ∷ s

-- `String.prototype.trim`.
unfoldable pub trim : Text → Text
unfolding trim_start is_space
trim s = reverse (trim_start (reverse (trim_start s)))

abbrev pub is_digit : ℕ → Bool
is_digit c = leb b'0' c && leb c b'9'

abbrev pub is_lower : ℕ → Bool
is_lower c = leb b'a' c && leb c b'z'

abbrev pub is_upper : ℕ → Bool
is_upper c = leb b'A' c && leb c b'Z'

-- [0-9a-f], with the i flag.
abbrev pub is_hex : ℕ → Bool
is_hex c = is_digit c || (leb b'a' c && leb c b'f') || (leb b'A' c && leb c b'F')

-- A code unit with an ASCII letter made lower case, as the i flag compares it.
abbrev pub lower : ℕ → ℕ
lower c = if is_upper c then c + 32 else c

-- The text begins with the pattern, in lower case, up to the i flag.
unfoldable pub begins_with : Text → Text → Bool
begins_with [] t = true
begins_with (a ∷ s) [] = false
begins_with (a ∷ s) (b ∷ t) = a == lower b && begins_with s t
