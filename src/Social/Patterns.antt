-- ===== src/Social/Patterns.antt =====
-- packages/domain/src/social.ts: the regular expressions of identities, links and handles.
use pods.Base.{
  ℕ, ◌≡◌, refl, Bool, true, false, ◌&&◌, ◌||◌, List, [], ◌∷◌, ◌++◌, Text, codes, all, length,
  replicate, leb, ◌==◌, is_digit, is_lower, is_hex, begins_with, or_false,
}

-- A text against one class for each of its code units.
unfoldable pub match_classes : List (ℕ → Bool) → Text → Bool
match_classes [] [] = true
match_classes (f ∷ fs) (c ∷ s) = f c && match_classes fs s
match_classes _ _ = false

abbrev pub is_dash : ℕ → Bool
is_dash c = c == b'-'

abbrev pub is_version : ℕ → Bool
is_version c = leb b'1' c && leb c b'8'

abbrev pub is_variant : ℕ → Bool
is_variant c = c == b'8' || c == b'9' || c == b'a' || c == b'b' || c == b'A' || c == b'B'

-- /^[0-9a-f]{8}-[0-9a-f]{4}-[1-8][0-9a-f]{3}-[89ab][0-9a-f]{3}-[0-9a-f]{12}$/i
abbrev pub uuid_pattern : List (ℕ → Bool)
uuid_pattern =
    replicate 8 is_hex
    ++ (is_dash
        ∷ (replicate 4 is_hex
            ++ (is_dash
                ∷ is_version
                ∷ is_hex
                ∷ is_hex
                ∷ is_hex
                ∷ is_dash
                ∷ is_variant
                ∷ is_hex
                ∷ is_hex
                ∷ is_hex
                ∷ is_dash
                ∷ replicate 12 is_hex)))

unfoldable pub is_uuid : Text → Bool
unfolding match_classes
is_uuid t = match_classes uuid_pattern t

-- The text begins with /https?:\/\/|www\./i.
unfoldable pub opens_link : Text → Bool
unfolding begins_with
opens_link t =
    begins_with (codes "http://") t
    || begins_with (codes "https://") t
    || begins_with (codes "www.") t

-- `/https?:\/\/|www\./i.test(text)`.
unfoldable pub has_link : Text → Bool
unfolding opens_link
has_link [] = false
has_link (c ∷ s) = opens_link (c ∷ s) || has_link s

-- Where no link is found, none starts after any of the text's beginnings.
pub has_link-append : (a b : Text) → has_link (a ++ b) ≡ false → opens_link b ≡ false
unfolding has_link
has_link-append [] [] h = refl
has_link-append [] (c ∷ b) h = let (here, _) = or_false _ _ h in here
has_link-append (c ∷ a) b h = let (_, later) = or_false _ _ h in has_link-append a b later

abbrev pub is_handle_char : ℕ → Bool
is_handle_char c = is_lower c || is_digit c || c == b'_'

-- /^[a-z0-9_]{3,20}$/
abbrev pub is_handle : Text → Bool
is_handle t = all is_handle_char t && leb 3 (length t) && leb (length t) 20
