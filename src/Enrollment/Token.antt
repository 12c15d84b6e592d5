-- ===== src/Enrollment/Token.antt =====
-- packages/domain/src/enrollment.ts: `normalizeInvitationToken`.
use pods.Base.{
  ℕ, ◌≡◌, ◌↔◌, inl, inr, ap, Bool, Bool-cases, ◌&&◌, ◌||◌, Option, none, some, Text, Value, str,
  all, length, ◌==◌, true, if◌then◌else◌, is_digit, is_lower, is_upper, arith, All, ◌⊎◌, ==_iff,
  IsWithin, or_iff, all_iff, is_upper_iff, is_lower_iff, is_digit_iff,
}

abbrev pub is_token_char : ℕ → Bool
is_token_char c = is_upper c || is_lower c || is_digit c || c == b'_' || c == b'-'

-- /^[A-Za-z0-9_-]{43}$/
abbrev pub is_token : Text → Bool
is_token t = all is_token_char t && length t == 43

unfoldable pub normalize_invitation_token : Value → Option Text
normalize_invitation_token (str t) = if is_token t then some t else none
normalize_invitation_token _ = none

-- A to Z, a to z, 0 to 9, `_` or `-`.
abbrev pub IsTokenChar : ℕ → Type 0
IsTokenChar c = (((IsWithin 65 90 c ⊎ IsWithin 97 122 c) ⊎ IsWithin 48 57 c) ⊎ (c ≡ 95)) ⊎ (c ≡ 45)

is_token_char_iff : (c : ℕ) → (is_token_char c ≡ true) ↔ IsTokenChar c
is_token_char_iff c =
    or_iff _ _
      (or_iff _ _ (or_iff _ _ (or_iff _ _ (is_upper_iff c) (is_lower_iff c)) (is_digit_iff c))
        (==_iff c 95))
      (==_iff c 45)

token_back :
    (s t : Text)
    → normalize_invitation_token (str s) ≡ some t
    → (str s ≡ str t) × All IsTokenChar t × (length t ≡ 43)
unfolding normalize_invitation_token
token_back s t h = elim (Bool-cases (is_token s)) [
  | inl e ↦
      let same : s ≡ t = ground arith in
      (
        ap str same,
        (all_iff is_token_char IsTokenChar is_token_char_iff t).0
            (ground (arith, ap (all is_token_char) same)),
        ground (arith, ap (λ (x : Text). length x) same),
      )
  | inr e ↦ ground arith
]

token_forth :
    (s t : Text)
    → (str s ≡ str t) × All IsTokenChar t × (length t ≡ 43)
    → normalize_invitation_token (str s) ≡ some t
unfolding normalize_invitation_token
token_forth s t (e, a, n) =
    let same : s ≡ t = cc in
    let chars = (all_iff is_token_char IsTokenChar is_token_char_iff t).1 a in
    let good : is_token t ≡ true = ground arith in rw (same, good)

-- A token is returned exactly when the value is that text, of 43 characters, each of them A to Z,
-- a to z, 0 to 9, an underscore or a dash.
pub normalize_invitation_token_iff :
    (v : Value) (t : Text)
    → (normalize_invitation_token v ≡ some t) ↔ ((v ≡ str t) × All IsTokenChar t × (length t ≡ 43))
unfolding normalize_invitation_token
normalize_invitation_token_iff (str s) t = (token_back s t, token_forth s t)
normalize_invitation_token_iff _ t = (λ h. cc, λ h. cc)
