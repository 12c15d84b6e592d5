-- ===== src/Evidence/Template.antt =====
-- packages/domain/src/template-evidence.ts: `validateTemplateEvidenceDraft` and the goal of a create.
use pods.Base.{
  not, ◌||◌, Option, none, some, List, [], ◌∷◌, Result, ok, err, Text, codes, Value, Fields, str,
  num, obj, null, field, end, get, as_record, trimmed_text, is_text, length, ltb, Number, nat,
  infinite, neg_infinite, nan, if◌then◌else◌,
}
use pods.Activity.Build.{BuildError}

pub data TemplateEvidenceKind : Type 0 where
  fitness reading study build create : TemplateEvidenceKind

abbrev pub kind_name : TemplateEvidenceKind → Text
kind_name TemplateEvidenceKind.fitness = codes "fitness"
kind_name TemplateEvidenceKind.reading = codes "reading"
kind_name TemplateEvidenceKind.study = codes "study"
kind_name TemplateEvidenceKind.build = codes "build"
kind_name TemplateEvidenceKind.create = codes "create"

pub data ReadingUnit : Type 0 where
  pages minutes : ReadingUnit

abbrev pub unit_name : ReadingUnit → Text
unit_name pages = codes "pages"
unit_name minutes = codes "minutes"

pub data TemplateEvidence : Type 0 where
  fitness : (activity_type completion_note : Text) → TemplateEvidence
  reading :
      (title : Text) (amount_completed : Number) (unit : ReadingUnit) (note : Text)
      → TemplateEvidence
  study : (topic : Text) (duration_minutes : Number) (takeaway : Text) → TemplateEvidence
  build : (result_summary artifact_url : Text) → TemplateEvidence
  create : (reflection : Text) (artifact_url : Option Text) → TemplateEvidence

abbrev pub evidence_kind : TemplateEvidence → TemplateEvidenceKind
evidence_kind (TemplateEvidence.fitness _ _) = TemplateEvidenceKind.fitness
evidence_kind (TemplateEvidence.reading _ _ _ _) = TemplateEvidenceKind.reading
evidence_kind (TemplateEvidence.study _ _ _) = TemplateEvidenceKind.study
evidence_kind (TemplateEvidence.build _ _) = TemplateEvidenceKind.build
evidence_kind (TemplateEvidence.create _ _) = TemplateEvidenceKind.create

pub data EvidenceError : Type 0 where
  wrong_template wrong_unit goal_length : EvidenceError
  activity_type_unavailable completion_note_length other_activity_type no_evidence_image :
      EvidenceError
  title_length bad_amount reading_note_length topic_length bad_duration takeaway_length :
      EvidenceError
  other_unit : ReadingUnit → EvidenceError
  deliverable_unavailable reflection_length unsafe_artifact_url no_image_or_link : EvidenceError
  build_error : BuildError → EvidenceError

-- `typeof value === "number" && Number.isFinite(value) ? value : 0`.
abbrev pub normalized_number : Value → Number
normalized_number (num infinite) = nat 0
normalized_number (num neg_infinite) = nat 0
normalized_number (num nan) = nat 0
normalized_number (num n) = n
normalized_number _ = nat 0

-- `text || null`.
abbrev pub text_or_null : Text → Option Text
text_or_null [] = none
text_or_null (c ∷ s) = some (c ∷ s)

abbrev pub read_unit : Value → Option ReadingUnit
read_unit v =
    if is_text v (codes "pages")
    then some pages
    else if is_text v (codes "minutes")
    then some minutes
    else none

-- The evidence, once its kind is that of the template.
unfoldable pub draft_evidence :
    TemplateEvidenceKind → Fields → Result (List EvidenceError) TemplateEvidence
draft_evidence TemplateEvidenceKind.fitness evidence = ok (
    TemplateEvidence.fitness (trimmed_text (get (codes "activityType") evidence))
      (trimmed_text (get (codes "completionNote") evidence)))
draft_evidence TemplateEvidenceKind.reading evidence =
    elim (read_unit (get (codes "unit") evidence)) [
      | none ↦ err (wrong_unit ∷ [])
      | some unit ↦ ok (
          TemplateEvidence.reading (trimmed_text (get (codes "title") evidence))
            (normalized_number (get (codes "amountCompleted") evidence)) unit
            (trimmed_text (get (codes "note") evidence)))
    ]
draft_evidence TemplateEvidenceKind.study evidence = ok (
    TemplateEvidence.study (trimmed_text (get (codes "topic") evidence))
      (normalized_number (get (codes "durationMinutes") evidence))
      (trimmed_text (get (codes "takeaway") evidence)))
draft_evidence TemplateEvidenceKind.build evidence = ok (
    TemplateEvidence.build (trimmed_text (get (codes "resultSummary") evidence))
      (trimmed_text (get (codes "artifactUrl") evidence)))
draft_evidence TemplateEvidenceKind.create evidence = ok (
    TemplateEvidence.create (trimmed_text (get (codes "reflection") evidence))
      (text_or_null (trimmed_text (get (codes "artifactUrl") evidence))))

unfoldable pub validate_template_evidence_draft :
    TemplateEvidenceKind → Value → Result (List EvidenceError) TemplateEvidence
unfolding draft_evidence
validate_template_evidence_draft template value =
    let evidence = as_record value in
    if not (is_text (get (codes "kind") evidence) (kind_name template))
    then err (wrong_template ∷ [])
    else draft_evidence template evidence

unfoldable pub validate_create_goal : Value → Result (List EvidenceError) Text
validate_create_goal value =
    let goal = trimmed_text value in
    if ltb (length goal) 12 || ltb 240 (length goal) then err (goal_length ∷ []) else ok goal

-- Stored evidence, as the object that a client sends.
abbrev pub to_value : TemplateEvidence → Value
to_value (TemplateEvidence.fitness type note) = obj (
    field (codes "kind") (str (codes "fitness"))
      (field (codes "activityType") (str type) (field (codes "completionNote") (str note) end)))
to_value (TemplateEvidence.reading title amount unit note) = obj (
    field (codes "kind") (str (codes "reading")) (
      field (codes "title") (str title) (
        field (codes "amountCompleted") (num amount)
          (field (codes "unit") (str (unit_name unit)) (field (codes "note") (str note) end)))))
to_value (TemplateEvidence.study topic duration takeaway) = obj (
    field (codes "kind") (str (codes "study")) (
      field (codes "topic") (str topic) (
        field (codes "durationMinutes") (num duration)
          (field (codes "takeaway") (str takeaway) end))))
to_value (TemplateEvidence.build summary url) = obj (
    field (codes "kind") (str (codes "build"))
      (field (codes "resultSummary") (str summary) (field (codes "artifactUrl") (str url) end)))
to_value (TemplateEvidence.create reflection none) = obj (
    field (codes "kind") (str (codes "create"))
      (field (codes "reflection") (str reflection) (field (codes "artifactUrl") null end)))
to_value (TemplateEvidence.create reflection (some url)) = obj (
    field (codes "kind") (str (codes "create"))
      (field (codes "reflection") (str reflection) (field (codes "artifactUrl") (str url) end)))
