-- ===== src/Activity/Tests.antt =====
-- Windows, submissions, reviews and links of builds.
use pods.Base.{
  ◌≤◌, ◌<◌, ◌≡◌, ◌↔◌, refl, some, [], ◌∷◌, ok, codes, same_text, str, Platform, trim, replicate,
  arith, length, trimmed_text,
}
use pods.Activity.Window.{
  OccurrenceTimes, occurrence_window_state, scheduled, commitment_open, evidence_open, review_open,
  occurrence_window_state-intervals,
}
use pods.Activity.Submission.{
  reviewing, approved, submit, approve, protect_timeout, participant, creator, system, call, run,
  next_submission_state, run_decided,
}
use pods.Activity.Review as Review
use pods.Activity.Review.{
  CreatorReviewDecision, validate_creator_review_decision, validate-to_value, to_value,
}
use pods.Activity.Build.{BuildEvidence, pull_request, validate_build_evidence}
use pods.Activity.Build.Accepted.{IsDeliverableLink, validate_build_evidence_sound}

abbrev monday : OccurrenceTimes
monday = record { opens_at = 10; commitment_deadline_at = some 20; closes_at = 30 }

occurrence_window_state-intervals_example :
    ((occurrence_window_state monday 15 ≡ scheduled) ↔ (15 < 10))
    × ((occurrence_window_state monday 15 ≡ commitment_open) ↔ ((10 ≤ 15) × (15 < 20)))
    × ((occurrence_window_state monday 15 ≡ evidence_open) ↔ ((20 ≤ 15) × (15 < 30)))
    × ((occurrence_window_state monday 15 ≡ review_open) ↔ (30 ≤ 15))
occurrence_window_state-intervals_example =
    occurrence_window_state-intervals monday 20 15 refl (omega arith) (omega arith)

approval : next_submission_state reviewing approve creator ≡ some approved
unfolding next_submission_state
approval = refl

run_decided_example :
    run approved (call protect_timeout system ∷ call submit participant ∷ []) ≡ approved
run_decided_example =
    run_decided approved (call protect_timeout system ∷ call submit participant ∷ []) refl

abbrev refusal : CreatorReviewDecision
refusal = CreatorReviewDecision.reject (codes "The picture is of another day")

refusal-good : Review.HasLength refusal × Review.IsTrimmed refusal
unfolding trim
refusal-good = ((omega arith, omega arith), refl)

validate-to_value_example : validate_creator_review_decision (to_value refusal) ≡ ok refusal
validate-to_value_example = validate-to_value refusal refusal-good.0 refusal-good.1

-- A run time whose URLs are all the same pull request.
abbrev one_url : Platform
one_url = record {
  parse_url = λ t. some (record {
    protocol = codes "https:";
    username = [];
    password = [];
    hostname = codes "github.com";
    pathname = codes "/pods/app/pull/12";
  });
  to_lower_case = λ t. t;
  string_of = λ v. [];
  print_number = λ n. [];
}

abbrev pull_evidence : BuildEvidence
pull_evidence = record {
  result_summary = replicate 20 b'a';
  artifact_url = codes "https://github.com/pods/app/pull/12";
}

pull_evidence_accepted :
    validate_build_evidence one_url pull_request
      (str (replicate 20 b'a'))
      (str (codes "https://github.com/pods/app/pull/12"))
    ≡ ok pull_evidence
unfolding validate_build_evidence same_text trim
pull_evidence_accepted = refl

validate_build_evidence_sound_example :
    (pull_evidence.result_summary ≡ trimmed_text (str (replicate 20 b'a')))
    × (20 ≤ length pull_evidence.result_summary)
    × (length pull_evidence.result_summary ≤ 1200)
    × (pull_evidence.artifact_url
        ≡ trimmed_text (str (codes "https://github.com/pods/app/pull/12")))
    × IsDeliverableLink one_url pull_request pull_evidence.artifact_url
validate_build_evidence_sound_example =
    validate_build_evidence_sound one_url pull_request (str (replicate 20 b'a'))
      (str (codes "https://github.com/pods/app/pull/12")) pull_evidence pull_evidence_accepted
