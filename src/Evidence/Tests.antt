-- ===== src/Evidence/Tests.antt =====
-- The evidence of a reading, submitted with its image.
use pods.Base.{
  ◌≡◌, refl, true, none, [], ok, codes, same_text, trim, Value, str, num, obj, field, end, nat,
  Platform,
}
use pods.Evidence.Template.{
  TemplateEvidenceKind, TemplateEvidence, minutes, to_value, validate_template_evidence_draft,
}
use pods.Evidence.Submission.{validate_template_evidence_submission}
use pods.Evidence.Accepted.{
  IsSupported, validate_template_evidence_submission_sound,
  validate_template_evidence_submission_again,
}

-- A run time that parses no URL.
abbrev no_urls : Platform
no_urls = record {
  parse_url = λ t. none;
  to_lower_case = λ t. t;
  string_of = λ v. [];
  print_number = λ n. [];
}

abbrev sent : Value
sent = obj (
    field (codes "kind") (str (codes "reading")) (
      field (codes "title") (str (codes " Emma ")) (
        field (codes "amountCompleted") (num (nat 30))
          (field (codes "unit") (str (codes "minutes")) end))))

abbrev config : Value
config = obj (field (codes "targetType") (str (codes "minutes")) end)

abbrev emma : TemplateEvidence
emma = TemplateEvidence.reading (codes "Emma") (nat 30) minutes []

emma_accepted :
    validate_template_evidence_submission no_urls TemplateEvidenceKind.reading sent config true none
    ≡ ok emma
unfolding validate_template_evidence_submission same_text trim
emma_accepted = refl

validate_template_evidence_submission_sound_example :
    (validate_template_evidence_draft TemplateEvidenceKind.reading sent ≡ ok emma)
    × IsSupported no_urls emma config true none
validate_template_evidence_submission_sound_example =
    validate_template_evidence_submission_sound no_urls TemplateEvidenceKind.reading sent config
      true none {e = emma} emma_accepted

validate_template_evidence_submission_again_example :
    validate_template_evidence_submission no_urls TemplateEvidenceKind.reading
      (to_value emma)
      config
      true
      none
    ≡ ok emma
validate_template_evidence_submission_again_example =
    validate_template_evidence_submission_again no_urls TemplateEvidenceKind.reading sent config
      true none {e = emma} emma_accepted
