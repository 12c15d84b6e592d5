-- ===== src/Social/Reports.antt =====
-- packages/domain/src/social.ts: reports of a user and of public content.
use mathlib.Core.Path.{subst}
use pods.Base.{
  ◌≤◌, ◌≡◌, ◌↔◌, ◌⊎◌, ◌∙◌, ap, or_iff, same_text_iff, Value, str, refl, sym, Bool, true, false, not,
  ◌||◌, List, ◌++◌, Result, ok, err, checked, checked-eq-ok, Text, codes, same_text, Fields, get,
  as_text, trimmed_text, length, ltb, error_if, arith,
}
use pods.Social.Patterns.{is_uuid}
use pods.Social.Uuid.{IsUuid, is_uuid_iff, uuid_text}

pub record Report : Type 0 where
  pub reason : Text
  pub details : Text

pub record PublicContentReport : Type 0 where
  pub target_kind : Text
  pub target_id : Text
  pub reason : Text
  pub details : Text

pub data ReportError : Type 0 where
  bad_reason details_length bad_target_kind bad_target_id : ReportError

-- `["spam", "harassment", "unsafe_content", "other"].includes(text)`.
abbrev pub is_report_reason : Text → Bool
is_report_reason t =
    same_text t (codes "spam")
    || same_text t (codes "harassment")
    || same_text t (codes "unsafe_content")
    || same_text t (codes "other")

-- `publicReportTargetKinds.includes(text)`.
abbrev pub is_target_kind : Text → Bool
is_target_kind t = same_text t (codes "message") || same_text t (codes "submission")

unfoldable pub validate_report_input : Fields → Result (List ReportError) Report
validate_report_input input =
    let reason = as_text (get (codes "reason") input) in
    let details = trimmed_text (get (codes "details") input) in
    checked
      (error_if (not (is_report_reason reason)) bad_reason
        ++ error_if (ltb (length details) 5 || ltb 1000 (length details)) details_length)
      (record { reason = reason; details = details })

abbrev pub target_errors : Text → Text → List ReportError
target_errors target_kind target_id =
    error_if (not (is_target_kind target_kind)) bad_target_kind
    ++ error_if (not (is_uuid target_id)) bad_target_id

-- The report with its target, once the target has been checked too.
abbrev pub with_target :
    Result (List ReportError) Report → Text → Text → Result (List ReportError) PublicContentReport
with_target (err errors) target_kind target_id = err (errors ++ target_errors target_kind target_id)
with_target (ok report) target_kind target_id =
    checked (target_errors target_kind target_id) (record {
      target_kind = target_kind;
      target_id = target_id;
      reason = report.reason;
      details = report.details;
    })

unfoldable pub validate_public_content_report_input :
    Fields → Result (List ReportError) PublicContentReport
unfolding validate_report_input
validate_public_content_report_input input =
    with_target (validate_report_input input) (as_text (get (codes "targetKind") input))
      (as_text (get (codes "targetId") input))

-- Spam, harassment, unsafe content or something else.
abbrev pub IsReason : Text → Type 0
IsReason t =
    (((t ≡ codes "spam") ⊎ (t ≡ codes "harassment")) ⊎ (t ≡ codes "unsafe_content"))
    ⊎ (t ≡ codes "other")

abbrev pub IsTargetKind : Text → Type 0
IsTargetKind t = (t ≡ codes "message") ⊎ (t ≡ codes "submission")

is_report_reason_iff : (t : Text) → (is_report_reason t ≡ true) ↔ IsReason t
is_report_reason_iff t =
    or_iff _ _
      (or_iff _ _
        (or_iff _ _ (same_text_iff t (codes "spam")) (same_text_iff t (codes "harassment")))
        (same_text_iff t (codes "unsafe_content")))
      (same_text_iff t (codes "other"))

is_target_kind_iff : (t : Text) → (is_target_kind t ≡ true) ↔ IsTargetKind t
is_target_kind_iff t =
    or_iff _ _ (same_text_iff t (codes "message")) (same_text_iff t (codes "submission"))

reason_text : (v : Value) → is_report_reason (as_text v) ≡ true → v ≡ str (as_text v)
unfolding same_text
reason_text (str t) h = refl
reason_text _ h = cc

kind_text : (v : Value) → is_target_kind (as_text v) ≡ true → v ≡ str (as_text v)
unfolding same_text
kind_text (str t) h = refl
kind_text _ h = cc

-- A report in the request: a reason as a text, and details of 5 to 1000 characters once trimmed.
pub record IsReport (input : Fields) (reason details : Text) : Type 0 where
  pub reason_read : get (codes "reason") input ≡ str reason
  pub reason_known : IsReason reason
  pub details_read : details ≡ trimmed_text (get (codes "details") input)
  pub details_long : (5 ≤ length details) × (length details ≤ 1000)

-- The report with its target: a message or a submission, by its identity.
pub record IsPublicReport (input : Fields) (r : PublicContentReport) : Type 0 where
  pub reported : IsReport input r.reason r.details
  pub kind_read : get (codes "targetKind") input ≡ str r.target_kind
  pub kind_known : IsTargetKind r.target_kind
  pub id_read : get (codes "targetId") input ≡ str r.target_id
  pub id_shaped : IsUuid r.target_id

report_forth :
    (input : Fields) (r : Report)
    → validate_report_input input ≡ ok r
    → IsReport input r.reason r.details
unfolding validate_report_input
report_forth input r h =
    let (passed, same) = checked-eq-ok _ _ h in
    let known : is_report_reason (as_text (get (codes "reason") input)) ≡ true = ground arith in
    subst (λ (r : Report). IsReport input r.reason r.details) same
      (record {
        reason_read = reason_text _ known;
        reason_known = (is_report_reason_iff _).0 known;
        details_read = refl;
        details_long = (ground arith, ground arith);
      })

report_back :
    (input : Fields) (r : Report)
    → IsReport input r.reason r.details
    → validate_report_input input ≡ ok r
unfolding validate_report_input
report_back input r q =
    let known = (is_report_reason_iff r.reason).1 q.reason_known in
    let short : (ltb (length r.details) 5 || ltb 1000 (length r.details)) ≡ false =
      ground (arith, q.details_long) in
    rw (q.reason_read, sym q.details_read, known, short) refl

target_forth :
    (m : Result (List ReportError) Report) (kind id : Text) (r : PublicContentReport)
    → with_target m kind id ≡ ok r
    → (m ≡ ok (record { reason = r.reason; details = r.details }))
      × (r.target_kind ≡ kind)
      × (r.target_id ≡ id)
      × (is_target_kind kind ≡ true)
      × (is_uuid id ≡ true)
target_forth (err errors) kind id r h = cc
target_forth (ok report) kind id r h =
    let (passed, same) = checked-eq-ok _ _ h in
    subst
      (λ (r : PublicContentReport).
        (◌≡◌ {A = Result (List ReportError) Report} (ok report)
          (ok (record { reason = r.reason; details = r.details })))
        × (r.target_kind ≡ kind)
        × (r.target_id ≡ id)
        × (is_target_kind kind ≡ true)
        × (is_uuid id ≡ true))
      same (refl, refl, refl, ground arith, ground arith)

public_forth :
    (input : Fields) (r : PublicContentReport)
    → validate_public_content_report_input input ≡ ok r
    → IsPublicReport input r
unfolding validate_public_content_report_input
public_forth input r h =
    let (report, kind, id, good, uuid) = target_forth (validate_report_input input) _ _ r h in
    record {
      reported = report_forth input _ report;
      kind_read = kind_text _ good ∙ ap str (sym kind);
      kind_known = subst IsTargetKind (sym kind) ((is_target_kind_iff _).0 good);
      id_read = uuid_text _ uuid ∙ ap str (sym id);
      id_shaped = subst IsUuid (sym id) ((is_uuid_iff _).0 uuid);
    }

public_back :
    (input : Fields) (r : PublicContentReport)
    → IsPublicReport input r
    → validate_public_content_report_input input ≡ ok r
unfolding validate_public_content_report_input
public_back input r q =
    let good = (is_target_kind_iff r.target_kind).1 q.kind_known in
    let uuid = (is_uuid_iff r.target_id).1 q.id_shaped in
    let report = report_back input (record { reason = r.reason; details = r.details }) q.reported in
    rw (report, q.kind_read, q.id_read, good, uuid) refl

-- A report of public content is accepted exactly when the request has its reason as a text, one
-- of the four, its details once trimmed, of 5 to 1000 characters, its kind of target as a text, a
-- message or a submission, and its target as a text, a UUID.
pub validate_public_content_report_input_iff :
    (input : Fields) (r : PublicContentReport)
    → (validate_public_content_report_input input ≡ ok r) ↔ IsPublicReport input r
validate_public_content_report_input_iff input r = (public_forth input r, public_back input r)
