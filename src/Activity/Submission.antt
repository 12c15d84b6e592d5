-- ===== src/Activity/Submission.antt =====
-- packages/domain/src/activity.ts: `nextSubmissionState`.
use pods.Base.{◌≡◌, ◌⊎◌, refl, Bool, true, false, Option, none, some, List, [], ◌∷◌, arith}

pub data SubmissionState : Type 0 where
  draft reviewing approved rejected timeout_protected : SubmissionState

pub data SubmissionActor : Type 0 where
  participant system creator : SubmissionActor

pub data SubmissionEvent : Type 0 where
  submit approve reject protect_timeout : SubmissionEvent

unfoldable pub next_submission_state :
    SubmissionState → SubmissionEvent → SubmissionActor → Option SubmissionState
next_submission_state draft submit participant = some reviewing
next_submission_state reviewing approve creator = some approved
next_submission_state reviewing reject creator = some rejected
next_submission_state reviewing protect_timeout system = some timeout_protected
next_submission_state _ _ _ = none

pub data Call : Type 0 where
  call : SubmissionEvent → SubmissionActor → Call

-- The state after the calls that were accepted; a refused call leaves the state.
unfoldable pub run : SubmissionState → List Call → SubmissionState
run s [] = s
run s (call e a ∷ calls) = run (elim (next_submission_state s e a) [ none ↦ s | some t ↦ t ]) calls

abbrev pub is_decided : SubmissionState → Bool
is_decided draft = false
is_decided reviewing = false
is_decided _ = true

-- The actor who alone brings a submission into a state.
abbrev pub author : SubmissionState → SubmissionActor
author approved = creator
author rejected = creator
author timeout_protected = system
author _ = participant

-- An accepted event comes from the actor that alone brings a submission into its new state, and
-- moves a draft to the review or a review to a decision.
pub next_submission_state_lem :
    (s t : SubmissionState) (e : SubmissionEvent) (a : SubmissionActor)
    → next_submission_state s e a ≡ some t
    → (a ≡ author t) × (((s ≡ draft) × (t ≡ reviewing)) ⊎ ((s ≡ reviewing) × (is_decided t ≡ true)))
unfolding next_submission_state
next_submission_state_lem s t e a h = ground arith

decided_stays :
    (s : SubmissionState) (e : SubmissionEvent) (a : SubmissionActor)
    → is_decided s ≡ true
    → next_submission_state s e a ≡ none
unfolding next_submission_state
decided_stays s e a h = ground arith

-- A decision on a submission is final: whatever is called afterwards, the submission keeps it.
pub run_decided : (s : SubmissionState) (calls : List Call) → is_decided s ≡ true → run s calls ≡ s
unfolding run
run_decided s [] h = refl
run_decided s (call e a ∷ calls) h = ground (arith, decided_stays s e a, run_decided s calls)
