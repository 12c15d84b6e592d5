-- ===== src/Evidence/Accepted.antt =====
-- packages/domain/src/template-evidence.ts: what evidence that was submitted has.
use mathlib.Core.Path.{subst}
use pods.Base.{
  ℕ, ◌≤◌, ◌<◌, ◌≡◌, ◌⊎◌, refl, Bool, true, false, not, ◌&&◌, Option, none, some, List, [], ◌∷◌,
  Result, ok, err, checked-eq-ok, checked-ne-err, >>=-eq-ok, Text, codes, same_text, same_text_iff,
  Value, str, get, as_record, trimmed_text, is_empty, length, Number, nat, positive_safe_integer,
  positive_safe_integer_lem, max_safe_integer, Platform, arith, Option-cases, inl, inr,
}
use pods.Activity.Build.{BuildDeliverableType, BuildError, BuildEvidence, validate_build_evidence}
use pods.Evidence.Template.{
  TemplateEvidenceKind, TemplateEvidence, fitness, reading, study, build, create, ReadingUnit,
  pages, minutes, read_unit, validate_template_evidence_draft, to_value,
}
use pods.Evidence.Draft.{validate_template_evidence_draft_again}
use pods.Evidence.Submission.{
  is_positive_whole_number, unit_errors, build_errors, link_of, is_safe_https_url, link_errors,
  submission_errors, validate_template_evidence_submission,
}

abbrev pub IsLong : Text → ℕ → ℕ → Type 0
IsLong t lo hi = (lo ≤ length t) × (length t ≤ hi)

abbrev pub IsPositive : Number → Type 0
IsPositive n = (m : ℕ) × (n ≡ nat m) × (0 < m) × (m ≤ max_safe_integer)

positive : (n : Number) → is_positive_whole_number n ≡ true → IsPositive n
positive n h = elim (Option-cases (positive_safe_integer n)) [
  | inl e ↦ ground arith
  | inr (m, e) ↦ let (same, low, high) = positive_safe_integer_lem n e in (m, same, low, high)
]

same_activity :
    (frozen type : Text)
    → not (is_empty frozen) && not (same_text type frozen) ≡ false
    → (frozen ≡ []) ⊎ (type ≡ frozen)
same_activity [] type h = inl refl
same_activity (c ∷ s) type h = inr (ground (arith, same_text_iff type (c ∷ s)))

module _ (p : Platform) where
  -- What supports the evidence, by the frozen configuration, the image and the deliverable.
  abbrev pub IsSupported : TemplateEvidence → Value → Bool → Option BuildDeliverableType → Type 0
  IsSupported (fitness type note) config image deliverable =
      (image ≡ true)
      × IsLong type 1 120
      × IsLong note 4 500
      × ((trimmed_text (get (codes "activityType") (as_record config)) ≡ [])
          ⊎ (type ≡ trimmed_text (get (codes "activityType") (as_record config))))
  IsSupported (reading title amount unit note) config image deliverable =
      (image ≡ true)
      × IsLong title 1 240
      × IsPositive amount
      × (length note ≤ 500)
      × ((read_unit (get (codes "targetType") (as_record config)) ≡ none)
          ⊎ (read_unit (get (codes "targetType") (as_record config)) ≡ some unit))
  IsSupported (study topic duration takeaway) config image deliverable =
      (image ≡ true) × IsLong topic 1 240 × IsPositive duration × IsLong takeaway 4 800
  IsSupported (build summary url) config image deliverable =
      (type : BuildDeliverableType) × (e : BuildEvidence) × (deliverable ≡ some type)
      × (validate_build_evidence p type (str summary) (str url) ≡ ok e)
  IsSupported (create reflection url) config image deliverable =
      IsLong reflection 12 1200
      × (((link_of url ≡ none) × (image ≡ true))
          ⊎ ((link : Text) × (link_of url ≡ some link) × (is_safe_https_url p link ≡ true)))

  same_unit :
      (frozen : Option ReadingUnit) (unit : ReadingUnit)
      → unit_errors frozen unit ≡ []
      → (frozen ≡ none) ⊎ (frozen ≡ some unit)
  unfolding same_text
  same_unit none unit h = inl refl
  same_unit (some pages) pages h = inr refl
  same_unit (some minutes) minutes h = inr refl
  same_unit (some pages) minutes h = cc
  same_unit (some minutes) pages h = cc

  supported_link :
      (link : Option Text) (image : Bool)
      → link_errors p link image ≡ []
      → ((link ≡ none) × (image ≡ true))
        ⊎ ((t : Text) × (link ≡ some t) × (is_safe_https_url p t ≡ true))
  supported_link none image h = inl (refl, ground arith)
  supported_link (some t) image h = inr (t, refl, ground arith)

  supported_build :
      (type : BuildDeliverableType) (summary url : Text)
      (r : Result (List BuildError) BuildEvidence)
      → validate_build_evidence p type (str summary) (str url) ≡ r
      → build_errors r ≡ []
      → (e : BuildEvidence) × (validate_build_evidence p type (str summary) (str url) ≡ ok e)
  unfolding validate_build_evidence
  supported_build type summary url (ok e) same h = (e, same)
  supported_build type summary url (err []) same h = absurd (checked-ne-err _ _ same)
  supported_build type summary url (err (x ∷ errors)) same h = cc

  supported :
      (e : TemplateEvidence) (config : Value) (image : Bool)
      (deliverable : Option BuildDeliverableType)
      → submission_errors p e config image deliverable ≡ []
      → IsSupported e config image deliverable
  unfolding submission_errors
  supported (fitness type note) config image deliverable h = (
    ground arith,
    ground arith,
    ground arith,
    same_activity (trimmed_text (get (codes "activityType") (as_record config))) type
        (ground arith),
  )
  supported (reading title amount unit note) config image deliverable h = (
    ground arith,
    ground arith,
    positive amount (ground arith),
    ground arith,
    same_unit (read_unit (get (codes "targetType") (as_record config))) unit (ground arith),
  )
  supported (study topic duration takeaway) config image deliverable h =
      (ground arith, ground arith, positive duration (ground arith), ground arith)
  supported (build summary url) config image none h = cc
  supported (build summary url) config image (some type) h =
      let (e, same) =
        supported_build type summary url (validate_build_evidence p type (str summary) (str url))
          refl h in
      (type, e, refl, same)
  supported (create reflection url) config image deliverable h =
      (ground arith, supported_link (link_of url) image (ground arith))

  submission_inv :
      (template : TemplateEvidenceKind) (evidence config : Value) (image : Bool)
      (deliverable : Option BuildDeliverableType) {e : TemplateEvidence}
      → validate_template_evidence_submission p template evidence config image deliverable ≡ ok e
      → (validate_template_evidence_draft template evidence ≡ ok e)
        × (submission_errors p e config image deliverable ≡ [])
  unfolding validate_template_evidence_submission
  submission_inv template evidence config image deliverable h =
      let (draft, parsed, h') =
        >>=-eq-ok (validate_template_evidence_draft template evidence) _ h in
      let (passed, same) =
        checked-eq-ok (submission_errors p draft config image deliverable) draft h' in
      subst
        (λ (e : TemplateEvidence).
          (validate_template_evidence_draft template evidence ≡ ok e)
          × (submission_errors p e config image deliverable ≡ []))
        same (parsed, passed)

  -- A submission that is accepted is the draft, and what it claims is supported: fitness, reading
  -- and study have an image, lengths within the bounds and what the contract froze; a build has
  -- accepted evidence of its locked deliverable; a create has an image, or a safe HTTPS link.
  pub validate_template_evidence_submission_sound :
      (template : TemplateEvidenceKind) (evidence config : Value) (image : Bool)
      (deliverable : Option BuildDeliverableType) {e : TemplateEvidence}
      → validate_template_evidence_submission p template evidence config image deliverable ≡ ok e
      → (validate_template_evidence_draft template evidence ≡ ok e)
        × IsSupported e config image deliverable
  validate_template_evidence_submission_sound template evidence config image deliverable {e} h =
      let (parsed, passed) = submission_inv template evidence config image deliverable h in
      (parsed, supported e config image deliverable passed)

  -- A submission that was accepted is accepted again as it was stored, with the same result.
  pub validate_template_evidence_submission_again :
      (template : TemplateEvidenceKind) (evidence config : Value) (image : Bool)
      (deliverable : Option BuildDeliverableType) {e : TemplateEvidence}
      → validate_template_evidence_submission p template evidence config image deliverable ≡ ok e
      → validate_template_evidence_submission p template (to_value e) config image deliverable
        ≡ ok e
  unfolding validate_template_evidence_submission
  validate_template_evidence_submission_again template evidence config image deliverable {e} h =
      let (parsed, passed) = submission_inv template evidence config image deliverable h in
      let (_, again) = validate_template_evidence_draft_again template evidence parsed in
      rw (again, passed)
