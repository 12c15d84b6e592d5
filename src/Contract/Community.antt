-- ===== src/Contract/Community.antt =====
-- packages/domain/src/index.ts: `validateCommunityStep`.
use pods.Base.{
  Option-cases, inl, inr, positive_safe_integer_lem, ℕ, ◌≤◌, ◌≡◌, ◌⊎◌, Bool, true, false, not, ◌&&◌,
  Option, none, some, List, [], ◌∷◌, ◌++◌, codes, same_text, Value, is_text, is_array, is_undefined,
  positive_number, is_some, Number, nat, positive_safe_integer, max_safe_integer, lt_number,
  error_if, ltb, if◌then◌else◌, arith,
}
use pods.Contract.Types.{
  CommunityStepInput, ContractError, min_too_low, max_not_positive, max_below_min,
  questions_not_list, bad_audience, bad_invite_expiry, private_audience,
}

abbrev pub is_public : CommunityStepInput → Bool
is_public input = same_text input.visibility (codes "public")

-- `audience !== undefined && audience !== "members_only" && audience !== "public_read_only"`.
abbrev pub is_bad_audience : Option Value → Bool
is_bad_audience none = false
is_bad_audience (some v) =
    not (is_undefined v)
    && not (is_text v (codes "members_only"))
    && not (is_text v (codes "public_read_only"))

abbrev pub below_two : Option ℕ → Bool
below_two none = true
below_two (some n) = ltb n 2

abbrev pub maximum_errors : Option ℕ → Number → List ContractError
maximum_errors none minimum = max_not_positive ∷ []
maximum_errors (some maximum) minimum = error_if (lt_number maximum minimum) max_below_min

unfoldable pub validate_community_step : CommunityStepInput → List ContractError
validate_community_step input =
    error_if (below_two (positive_safe_integer input.min_participants)) min_too_low
    ++ (maximum_errors (positive_safe_integer input.max_participants) input.min_participants
        ++ (if is_public input
            then error_if (not (is_array input.application_questions)) questions_not_list
              ++ error_if (is_bad_audience input.room_audience) bad_audience
            else error_if (not (is_some (positive_number input.invite_expiry_hours)))
                bad_invite_expiry
              ++ error_if (is_some input.room_audience) private_audience))

-- A community without errors has from 2 to its maximum of members, safe integers; a Pod that is
-- not public has no visitor room and a positive number of hours to its invites.
pub validate_community_step_sound :
    (input : CommunityStepInput)
    → validate_community_step input ≡ []
    → (lo : ℕ) × (hi : ℕ) × (input.min_participants ≡ nat lo)
      × (input.max_participants ≡ nat hi)
      × (2 ≤ lo)
      × (lo ≤ hi)
      × (hi ≤ max_safe_integer)
      × ((is_public input ≡ true)
          ⊎ ((input.room_audience ≡ none)
              × (is_some (positive_number input.invite_expiry_hours) ≡ true)))
unfolding validate_community_step
validate_community_step_sound input h =
    elim (Option-cases (positive_safe_integer input.min_participants)) [
      | inl e ↦ ground arith
      | inr (lo, e) ↦ elim (Option-cases (positive_safe_integer input.max_participants)) [
        | inl e' ↦ ground arith
        | inr (hi, e') ↦
            let (min, _, _) = positive_safe_integer_lem input.min_participants e in
            let (max, _, safe) = positive_safe_integer_lem input.max_participants e' in
            (lo, hi, min, max, ground arith, ground (arith, min), safe, ground arith)
      ]
    ]
