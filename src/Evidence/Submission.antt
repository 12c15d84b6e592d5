-- ===== src/Evidence/Submission.antt =====
-- packages/domain/src/template-evidence.ts: evidence that is submitted, and its older projection.
use pods.Base.{
  ℕ, Bool, false, not, ◌&&◌, ◌||◌, Option, none, some, List, [], ◌∷◌, ◌++◌, map, Result, ok, err,
  checked, ◌>>=◌, Text, codes, same_text, Value, str, get, as_record, trimmed_text, is_some,
  is_empty, length, ltb, Number, positive_safe_integer, error_if, Platform,
}
use pods.Activity.Build.{BuildDeliverableType, BuildError, BuildEvidence, validate_build_evidence}
use pods.Evidence.Template.{
  TemplateEvidenceKind, TemplateEvidence, fitness, reading, study, build, create, EvidenceError,
  activity_type_unavailable, completion_note_length, other_activity_type, no_evidence_image,
  title_length, bad_amount, reading_note_length, topic_length, bad_duration, takeaway_length,
  other_unit, deliverable_unavailable, reflection_length, unsafe_artifact_url, no_image_or_link,
  build_error, ReadingUnit, pages, minutes, unit_name, read_unit, validate_template_evidence_draft,
}

-- `validateRequiredLength`.
abbrev pub length_errors : Text → ℕ → ℕ → EvidenceError → List EvidenceError
length_errors value minimum maximum error =
    error_if (ltb (length value) minimum || ltb maximum (length value)) error

-- `requireEvidenceImage`.
abbrev pub image_errors : Bool → List EvidenceError
image_errors has_evidence_image = error_if (not has_evidence_image) no_evidence_image

abbrev pub is_positive_whole_number : Number → Bool
is_positive_whole_number n = is_some (positive_safe_integer n)

abbrev pub unit_errors : Option ReadingUnit → ReadingUnit → List EvidenceError
unit_errors none unit = []
unit_errors (some pages) unit =
    error_if (not (same_text (unit_name unit) (codes "pages"))) (other_unit pages)
unit_errors (some minutes) unit =
    error_if (not (same_text (unit_name unit) (codes "minutes"))) (other_unit minutes)

abbrev pub build_errors : Result (List BuildError) BuildEvidence → List EvidenceError
build_errors (ok evidence) = []
build_errors (err errors) = map build_error errors

-- A link that is there, which is neither null nor empty.
abbrev pub link_of : Option Text → Option Text
link_of (some (c ∷ s)) = some (c ∷ s)
link_of _ = none

module _ (p : Platform) where
  unfoldable pub is_safe_https_url : Text → Bool
  is_safe_https_url value = elim (p.parse_url value) [
    | none ↦ false
    | some url ↦
        same_text url.protocol (codes "https:") && is_empty url.username && is_empty url.password
  ]

  abbrev pub link_errors : Option Text → Bool → List EvidenceError
  link_errors none has_evidence_image = error_if (not has_evidence_image) no_image_or_link
  link_errors (some url) has_evidence_image =
      error_if (not (is_safe_https_url url)) unsafe_artifact_url

  abbrev pub deliverable_errors : Option BuildDeliverableType → Text → Text → List EvidenceError
  deliverable_errors none summary url = deliverable_unavailable ∷ []
  deliverable_errors (some type) summary url =
      build_errors (validate_build_evidence p type (str summary) (str url))

  -- The errors of evidence, by the frozen configuration, the image and the deliverable of its Pod.
  unfoldable pub submission_errors :
      TemplateEvidence → Value → Bool → Option BuildDeliverableType → List EvidenceError
  unfolding is_safe_https_url
  submission_errors (fitness type note) config image deliverable =
      let frozen = trimmed_text (get (codes "activityType") (as_record config)) in
      length_errors type 1 120 activity_type_unavailable
      ++ (length_errors note 4 500 completion_note_length
          ++ (error_if (not (is_empty frozen) && not (same_text type frozen)) other_activity_type
              ++ image_errors image))
  submission_errors (reading title amount unit note) config image deliverable =
      length_errors title 1 240 title_length
      ++ (error_if (not (is_positive_whole_number amount)) bad_amount
          ++ (unit_errors (read_unit (get (codes "targetType") (as_record config))) unit
              ++ (error_if (ltb 500 (length note)) reading_note_length ++ image_errors image)))
  submission_errors (study topic duration takeaway) config image deliverable =
      length_errors topic 1 240 topic_length
      ++ (error_if (not (is_positive_whole_number duration)) bad_duration
          ++ (length_errors takeaway 4 800 takeaway_length ++ image_errors image))
  submission_errors (build summary url) config image deliverable =
      deliverable_errors deliverable summary url
  submission_errors (create reflection url) config image deliverable =
      length_errors reflection 12 1200 reflection_length ++ link_errors (link_of url) image

  unfoldable pub validate_template_evidence_submission :
      TemplateEvidenceKind
      → Value
      → Value
      → Bool
      → Option BuildDeliverableType
      → Result (List EvidenceError) TemplateEvidence
  unfolding validate_template_evidence_draft submission_errors
  validate_template_evidence_submission template evidence config image deliverable = do
    parsed ← validate_template_evidence_draft template evidence
    checked (submission_errors parsed config image deliverable) parsed

  -- `legacySubmissionProjection`: a summary and a link.
  abbrev pub legacy_submission_projection : TemplateEvidence → Text × Text
  legacy_submission_projection (fitness type note) = (note, [])
  legacy_submission_projection (reading title amount unit []) = (
    codes "Read "
        ++ (p.print_number amount ++ (codes " " ++ (unit_name unit ++ (codes " of " ++ title)))),
    [],
  )
  legacy_submission_projection (reading title amount unit (c ∷ note)) = (c ∷ note, [])
  legacy_submission_projection (study topic duration takeaway) = (takeaway, [])
  legacy_submission_projection (build summary url) = (summary, url)
  legacy_submission_projection (create reflection none) = (reflection, [])
  legacy_submission_projection (create reflection (some url)) = (reflection, url)
