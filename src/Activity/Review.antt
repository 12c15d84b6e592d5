-- ===== src/Activity/Review.antt =====
-- packages/domain/src/activity.ts: `validateCreatorReviewDecision`.
use pods.Base.{
  ◌≤◌, ◌≡◌, not, ◌&&◌, ◌||◌, List, [], ◌∷◌, Result, ok, err, Text, codes, same_text, Value, str,
  obj, end, field, get, as_record, as_text, trimmed_text, trim, trim_idem, is_text, is_string,
  is_undefined, length, ltb, if◌then◌else◌, arith,
}

pub data CreatorReviewDecision : Type 0 where
  approve : Text → CreatorReviewDecision
  reject : Text → CreatorReviewDecision

pub data ReviewError : Type 0 where
  note_not_text note_too_long reason_length no_decision : ReviewError

unfoldable pub validate_creator_review_decision :
    Value → Result (List ReviewError) CreatorReviewDecision
validate_creator_review_decision input =
    let candidate = as_record input in
    let note = trimmed_text (get (codes "note") candidate) in
    let reason = trimmed_text (get (codes "reason") candidate) in
    if is_text (get (codes "decision") candidate) (codes "approve")
    then (if not (is_undefined (get (codes "note") candidate))
          && not (is_string (get (codes "note") candidate))
        then err (note_not_text ∷ [])
        else if ltb 500 (length note)
        then err (note_too_long ∷ [])
        else ok (approve note))
    else if is_text (get (codes "decision") candidate) (codes "reject")
    then (if ltb (length reason) 12 || ltb 500 (length reason)
        then err (reason_length ∷ [])
        else ok (reject reason))
    else err (no_decision ∷ [])

-- A decision as the object that a client sends.
abbrev pub to_value : CreatorReviewDecision → Value
to_value (approve note) =
    obj (field (codes "decision") (str (codes "approve")) (field (codes "note") (str note) end))
to_value (reject reason) =
    obj (field (codes "decision") (str (codes "reject")) (field (codes "reason") (str reason) end))

-- The text of the decision, and the lengths that it may have.
abbrev pub HasLength : CreatorReviewDecision → Type 0
HasLength (approve note) = length note ≤ 500
HasLength (reject reason) = (12 ≤ length reason) × (length reason ≤ 500)

abbrev pub IsTrimmed : CreatorReviewDecision → Type 0
IsTrimmed (approve note) = trim note ≡ note
IsTrimmed (reject reason) = trim reason ≡ reason

-- An accepted decision is within its lengths and trimmed.
pub validate_creator_review_decision_sound :
    (input : Value) (d : CreatorReviewDecision)
    → validate_creator_review_decision input ≡ ok d
    → HasLength d × IsTrimmed d
unfolding validate_creator_review_decision
validate_creator_review_decision_sound input (approve note) h =
    ground (arith, trim_idem (as_text (get (codes "note") (as_record input))))
validate_creator_review_decision_sound input (reject reason) h =
    ground (arith, trim_idem (as_text (get (codes "reason") (as_record input))))

-- A decision that is trimmed and within its lengths is accepted unchanged when it is sent as it
-- was stored.
pub validate-to_value :
    (d : CreatorReviewDecision)
    → HasLength d
    → IsTrimmed d
    → validate_creator_review_decision (to_value d) ≡ ok d
unfolding validate_creator_review_decision same_text
validate-to_value (approve note) h t = ground arith
validate-to_value (reject reason) h t = ground arith
