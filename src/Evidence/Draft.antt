-- ===== src/Evidence/Draft.antt =====
-- packages/domain/src/template-evidence.ts: what a draft of evidence keeps.
use mathlib.Core.Path.{subst}
use pods.Base.{
  ◌≡◌, refl, Bool-cases, inl, inr, Option-cases, ok, ok-injective, Text, [], ◌∷◌, codes, same_text,
  Value, num, Fields, get, as_record, as_text, is_text, trim, trim_start, trim_idem, Number, arith,
}
use pods.Evidence.Template.{
  TemplateEvidenceKind, TemplateEvidence, ReadingUnit, pages, minutes, kind_name, evidence_kind,
  read_unit, normalized_number, text_or_null, draft_evidence, validate_template_evidence_draft,
  to_value,
}

normalized_number_idem :
    (v : Value) → normalized_number (num (normalized_number v)) ≡ normalized_number v
normalized_number_idem (num n) = ground arith
normalized_number_idem _ = refl

reading_again :
    (title note : Text) (amount : Number) (unit : ReadingUnit)
    → trim title ≡ title
    → trim note ≡ note
    → normalized_number (num amount) ≡ amount
    → validate_template_evidence_draft TemplateEvidenceKind.reading
        (to_value (TemplateEvidence.reading title amount unit note))
      ≡ ok (TemplateEvidence.reading title amount unit note)
unfolding validate_template_evidence_draft same_text
reading_again title note amount pages h k n = rw (h, k, n)
reading_again title note amount minutes h k n = rw (h, k, n)

create_again :
    (reflection url : Text)
    → trim reflection ≡ reflection
    → trim url ≡ url
    → validate_template_evidence_draft TemplateEvidenceKind.create
        (to_value (TemplateEvidence.create reflection (text_or_null url)))
      ≡ ok (TemplateEvidence.create reflection (text_or_null url))
unfolding validate_template_evidence_draft same_text trim trim_start
create_again reflection [] h k = rw h
create_again reflection (c ∷ url) h k = rw (h, k)

abbrev IsKept : TemplateEvidenceKind → TemplateEvidence → Type 0
IsKept template e =
    (evidence_kind e ≡ template) × (validate_template_evidence_draft template (to_value e) ≡ ok e)

draft-IsKept :
    (template : TemplateEvidenceKind) (evidence : Fields) {e : TemplateEvidence}
    → draft_evidence template evidence ≡ ok e
    → IsKept template e
unfolding draft_evidence validate_template_evidence_draft same_text
draft-IsKept TemplateEvidenceKind.fitness evidence h =
    subst (IsKept TemplateEvidenceKind.fitness) (ok-injective h) (
      refl,
      rw (
        trim_idem (as_text (get (codes "activityType") evidence)),
        trim_idem (as_text (get (codes "completionNote") evidence)),
      ),
    )
draft-IsKept TemplateEvidenceKind.reading evidence h =
    elim (Option-cases (read_unit (get (codes "unit") evidence))) [
      | inl missing ↦ cc (rw (draft_evidence, missing) at h)
      | inr (unit, e) ↦
          subst (IsKept TemplateEvidenceKind.reading) (ok-injective (rw (draft_evidence, e) at h)) (
            refl,
            reading_again _ _ _ unit (trim_idem (as_text (get (codes "title") evidence)))
                (trim_idem (as_text (get (codes "note") evidence)))
                (normalized_number_idem (get (codes "amountCompleted") evidence)),
          )
    ]
draft-IsKept TemplateEvidenceKind.study evidence h =
    subst (IsKept TemplateEvidenceKind.study) (ok-injective h) (
      refl,
      rw (
        trim_idem (as_text (get (codes "topic") evidence)),
        trim_idem (as_text (get (codes "takeaway") evidence)),
        normalized_number_idem (get (codes "durationMinutes") evidence),
      ),
    )
draft-IsKept TemplateEvidenceKind.build evidence h =
    subst (IsKept TemplateEvidenceKind.build) (ok-injective h) (
      refl,
      rw (
        trim_idem (as_text (get (codes "resultSummary") evidence)),
        trim_idem (as_text (get (codes "artifactUrl") evidence)),
      ),
    )
draft-IsKept TemplateEvidenceKind.create evidence h =
    subst (IsKept TemplateEvidenceKind.create) (ok-injective h) (
      refl,
      create_again _ _ (trim_idem (as_text (get (codes "reflection") evidence)))
          (trim_idem (as_text (get (codes "artifactUrl") evidence))),
    )

-- A draft that was accepted is of the template's kind, and is accepted again as it was stored, with
-- the same result.
pub validate_template_evidence_draft_again :
    (template : TemplateEvidenceKind) (value : Value) {e : TemplateEvidence}
    → validate_template_evidence_draft template value ≡ ok e
    → (evidence_kind e ≡ template) × (validate_template_evidence_draft template (to_value e) ≡ ok e)
unfolding validate_template_evidence_draft
validate_template_evidence_draft_again template value h =
    elim (Bool-cases (is_text (get (codes "kind") (as_record value)) (kind_name template))) [
      | inl right ↦ draft-IsKept template (as_record value) (rw right at h)
      | inr wrong ↦ cc (rw wrong at h)
    ]
