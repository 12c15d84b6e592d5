-- ===== src/Contract/Publish.antt =====
-- packages/domain/src/index.ts: `buildPublishedContract`, and who may visit a published Pod.
use pods.Base.{
  ℕ, ◌*◌, Bool, false, not, ◌&&◌, Option, none, some, List, [], ◌∷◌, ◌++◌, Result, ok, err, codes,
  is_text, is_undefined, max_safe_integer, is_safe, length, is_empty, ltb, if◌then◌else◌, Platform,
  Text, Value, undefined, null, obj, get, nat, neg, ◌>>=◌,
}
use pods.Amount.Parse.{parse_nim_to_luna, AmountError}
use pods.Contract.Types.{
  TemplateId, SettlementMode, full_refund_alpha, template_mode, repeating_criterion,
  per_occurrence_commitment, ActivityStepInput, find_template, PodDraftInput, FrozenOccurrence,
  ContractVersion, v1, v2, PublishedPodContract, ContractError, unsupported_template,
  total_too_large, pool_too_large,
}
use pods.Contract.Calendar.{Calendar}
use pods.Contract.Community.{is_public, validate_community_step}
use pods.Contract.Occurrences.{MaterializeInput, materialize_occurrences}
use pods.Contract.Activity.{schedule_with, validate_activity_step}

-- `rejected` is `{ success: false, errors }`; `threw` is an exception that leaves the function.
pub data PublishFailure : Type 0 where
  rejected : List ContractError → PublishFailure
  threw : ContractError → PublishFailure
  threw_range_error : PublishFailure  -- `BigInt` of no whole number
  threw_type_error : PublishFailure  -- a property of `undefined` or `null`

abbrev pub amount_error : AmountError → ContractError
amount_error AmountError.invalid_amount = ContractError.invalid_amount
amount_error AmountError.too_many_decimals = ContractError.too_many_decimals
amount_error AmountError.not_positive = ContractError.amount_not_positive
amount_error AmountError.too_large = ContractError.amount_too_large

-- The errors of the amount, and the amount, which is 0 where there is none.
abbrev pub read_amount : Result AmountError ℕ → List ContractError × ℕ
read_amount (ok n) = ([], n)
read_amount (err e) = (amount_error e ∷ [], 0)

-- Version 2 is a public Pod that says who may visit its room.
abbrev pub version_of : PodDraftInput → ContractVersion
version_of draft =
    if is_public draft.community
    then (elim draft.community.room_audience [
      | none ↦ v1
      | some audience ↦ if is_undefined audience then v1 else v2 audience
    ])
    else v1

abbrev pub mode_or_default : Option SettlementMode → SettlementMode
mode_or_default none = full_refund_alpha
mode_or_default (some mode) = mode

-- `value.name`, or none where that throws.
abbrev pub property : Text → Value → Option Value
property name undefined = none
property name null = none
property name (obj fs) = some (get name fs)
property name _ = some undefined

-- The contract with its commitment.
abbrev pub contract_of :
    TemplateId → PodDraftInput → Option SettlementMode → ℕ → ℕ → PublishedPodContract
contract_of template draft mode luna occurrence_count = record {
  version = version_of draft;
  template_id = template;
  evidence_mode = template_mode template;
  settlement_mode = mode_or_default mode;
  activity = draft.activity;
  community = draft.community;
  luna_per_occurrence = luna;
  occurrence_count = occurrence_count;
  total_luna = luna * occurrence_count;
}

-- The contract, from an amount and occurrences that passed. A pool of a negative maximum is not
-- positive, so it is not too large.
unfoldable pub price_contract :
    TemplateId
    → PodDraftInput
    → Option SettlementMode
    → ℕ
    → List FrozenOccurrence
    → Result PublishFailure (PublishedPodContract × List FrozenOccurrence)
price_contract template draft mode luna occurrences =
    let total = luna * length occurrences in
    let contract = contract_of template draft mode luna (length occurrences) in
    if not (is_safe total)
    then err (rejected (total_too_large ∷ []))
    else (elim draft.community.max_participants [
      | nat maximum ↦
          if ltb max_safe_integer (total * maximum)
          then err (rejected (pool_too_large ∷ []))
          else ok (contract, occurrences)
      | neg _ ↦ ok (contract, occurrences)
      | _ ↦ err threw_range_error
    ])

module _ (p : Platform) (c : Calendar) where
  -- What `materializeOccurrences` is given at the publication: a template whose mode is
  -- `per_occurrence_commitment` has a cutoff, which is read from the settings as they came.
  unfoldable pub published_schedule :
      TemplateId → ActivityStepInput → Result PublishFailure MaterializeInput
  published_schedule template input = elim (template_mode template) [
    | repeating_criterion ↦ ok (schedule_with none input)
    | per_occurrence_commitment ↦ elim (property (codes "commitmentCutoff") input.config) [
      | none ↦ err threw_type_error
      | some cutoff ↦ ok (schedule_with (some (p.string_of cutoff)) input)
    ]
  ]

  unfoldable pub price_schedule :
      TemplateId
      → PodDraftInput
      → Option SettlementMode
      → ℕ
      → MaterializeInput
      → Result PublishFailure (PublishedPodContract × List FrozenOccurrence)
  unfolding price_contract
  price_schedule template draft mode luna schedule = elim (materialize_occurrences c schedule) [
    | err e ↦ err (threw e)
    | ok occurrences ↦ price_contract template draft mode luna occurrences
  ]

  unfoldable pub build_with_template :
      TemplateId
      → PodDraftInput
      → Option SettlementMode
      → Result PublishFailure (PublishedPodContract × List FrozenOccurrence)
  unfolding validate_activity_step validate_community_step parse_nim_to_luna published_schedule
      price_schedule
  build_with_template template draft mode =
      let (amount_errors, luna) = read_amount (parse_nim_to_luna draft.nim_per_occurrence) in
      let errors =
        validate_activity_step p c template draft.activity
        ++ (validate_community_step draft.community ++ amount_errors) in
      if not (is_empty errors)
      then err (rejected errors)
      else published_schedule template draft.activity >>= λ schedule.
          price_schedule template draft mode luna schedule

  unfoldable pub build_published_contract :
      PodDraftInput
      → Option SettlementMode
      → Result PublishFailure (PublishedPodContract × List FrozenOccurrence)
  unfolding find_template build_with_template
  build_published_contract draft mode = elim (find_template draft.template_id) [
    | none ↦ err (rejected (unsupported_template ∷ []))
    | some template ↦ build_with_template template draft mode
  ]

-- `isPublicVisitorContract`.
unfoldable pub is_public_visitor_contract : PublishedPodContract → Bool
is_public_visitor_contract contract = elim contract.version [
  | v1 ↦ false
  | v2 audience ↦ is_public contract.community && is_text audience (codes "public_read_only")
]
