-- ===== src/Contract/Types.antt =====
-- packages/domain/src/index.ts: the data of a contract. What a draft holds is what a client sent, so
-- a field that the code tests at run time is a value or the string that it is.
use pods.Base.{ℕ, Option, none, some, Text, Value, Number, codes, same_text, if◌then◌else◌}

pub data TemplateId : Type 0 where
  fitness reading study build create : TemplateId

pub data EvidenceMode : Type 0 where
  repeating_criterion per_occurrence_commitment : EvidenceMode

pub data SettlementMode : Type 0 where
  proportional full_refund_alpha : SettlementMode

pub data RoomAudience : Type 0 where
  members_only public_read_only : RoomAudience

-- The `mode` of each of `templateContracts`.
abbrev pub template_mode : TemplateId → EvidenceMode
template_mode fitness = repeating_criterion
template_mode reading = repeating_criterion
template_mode study = repeating_criterion
template_mode build = per_occurrence_commitment
template_mode create = per_occurrence_commitment

-- `templateContracts.find(item => item.id === id)`.
unfoldable pub find_template : Text → Option TemplateId
find_template id =
    if same_text id (codes "fitness")
    then some fitness
    else if same_text id (codes "reading")
    then some reading
    else if same_text id (codes "study")
    then some study
    else if same_text id (codes "build")
    then some build
    else if same_text id (codes "create")
    then some create
    else none

pub record ActivityStepInput : Type 0 where
  pub name : Value
  pub purpose : Value
  pub start_date : Text
  pub end_date : Text
  pub time_zone : Text
  pub weekdays : Value
  pub config : Value

-- `room_audience` is none where the key is absent.
pub record CommunityStepInput : Type 0 where
  pub visibility : Text
  pub min_participants : Number
  pub max_participants : Number
  pub application_questions : Value
  pub invite_expiry_hours : Value
  pub room_audience : Option Value

pub record PodDraftInput : Type 0 where
  pub template_id : Text
  pub activity : ActivityStepInput
  pub community : CommunityStepInput
  pub nim_per_occurrence : Text

pub record FrozenOccurrence : Type 0 where
  pub ordinal : ℕ
  pub local_date : Text
  pub opens_at : Text
  pub closes_at : Text
  pub commitment_deadline_at : Option Text

pub data ContractVersion : Type 0 where
  v1 : ContractVersion
  v2 : Value → ContractVersion  -- with the room audience of its community

-- The verifier is the creator, with 12 hours to review and protection after 24.
pub record PublishedPodContract : Type 0 where
  pub version : ContractVersion
  pub template_id : TemplateId
  pub evidence_mode : EvidenceMode
  pub settlement_mode : SettlementMode
  pub activity : ActivityStepInput
  pub community : CommunityStepInput
  pub luna_per_occurrence : ℕ
  pub occurrence_count : ℕ
  pub total_luna : ℕ

-- A constructor for each message.
pub data ContractError : Type 0 where
  name_too_short purpose_too_short no_weekday bad_weekdays end_before_start bad_dates :
      ContractError
  no_activity_type no_measurable_minimum no_book bad_target_amount bad_target_type : ContractError
  no_subject no_focus_minimum no_project_theme no_deliverables no_cutoff : ContractError
  no_discipline no_output_minimum no_occurrence not_materialized : ContractError
  min_too_low max_not_positive max_below_min questions_not_list bad_audience : ContractError
  bad_invite_expiry private_audience unsupported_template cutoff_format : ContractError
  invalid_amount too_many_decimals amount_not_positive amount_too_large : ContractError
  total_too_large pool_too_large already_open : ContractError
