-- ===== src/Contract/Pricing.antt =====
-- packages/domain/src/index.ts: what `buildPublishedContract` returns.
use mathlib.Core.Path.{subst}
use pods.Base.{
  ℕ, ◌*◌, ◌≤◌, ◌<◌, ◌≡◌, ◌≢◌, refl, true, Option, some, List, [], ◌∷◌, ◌++◌, Result, ok, err,
  ok-injective, nat, max_safe_integer, is_safe, length, is_empty, ltb, arith, Option-cases,
  Bool-cases, inl, inr, Platform, Value, codes, get, as_record, end, obj, undefined, null,
}
use pods.Amount.Parse.{AmountError, parse_nim_to_luna}
use pods.Contract.Types.{
  TemplateId, SettlementMode, fitness, reading, study, build, create, ActivityStepInput,
  find_template, PodDraftInput, FrozenOccurrence, PublishedPodContract, ContractError,
}
use pods.Contract.Calendar.{Calendar}
use pods.Contract.Community.{validate_community_step, validate_community_step_sound}
use pods.Contract.Occurrences.{MaterializeInput, materialize_occurrences}
use pods.Contract.Activity.{
  is_build_or_create, config_errors, checked_schedule, passed_config, validate_activity_step,
  validate_activity_step-materializes,
}
use pods.Contract.Publish.{
  threw, threw_range_error, threw_type_error, property, published_schedule, price_schedule,
  read_amount, price_contract, build_with_template, build_published_contract,
}

pub price_contract_sound :
    (template : TemplateId) (draft : PodDraftInput) (mode : Option SettlementMode) (luna : ℕ)
    (os : List FrozenOccurrence) {contract : PublishedPodContract} {os' : List FrozenOccurrence}
    {hi : ℕ}
    → draft.community.max_participants ≡ nat hi
    → price_contract template draft mode luna os ≡ ok (contract, os')
    → (os' ≡ os)
      × (contract.luna_per_occurrence ≡ luna)
      × (contract.occurrence_count ≡ length os)
      × (contract.total_luna ≡ luna * length os)
      × (luna * length os * hi ≤ max_safe_integer)
unfolding price_contract
price_contract_sound template draft mode luna os {hi = hi} m h =
    elim (Bool-cases (is_safe (luna * length os))) [
      | inl safe ↦ elim (Bool-cases (ltb max_safe_integer (luna * length os * hi))) [
        | inl over ↦ cc (rw (safe, m, over) at h)
        | inr within ↦
            subst
              (λ (r : PublishedPodContract × List FrozenOccurrence).
                (r.1 ≡ os)
                × (r.0.luna_per_occurrence ≡ luna)
                × (r.0.occurrence_count ≡ length os)
                × (r.0.total_luna ≡ luna * length os)
                × (luna * length os * hi ≤ max_safe_integer))
              (ok-injective (rw (safe, m, within) at h)) (refl, refl, refl, refl, ground arith)
      ]
      | inr big ↦ ground arith
    ]

price_contract-ne-threw :
    (template : TemplateId) (draft : PodDraftInput) (mode : Option SettlementMode) (luna : ℕ)
    (os : List FrozenOccurrence) {hi : ℕ}
    → draft.community.max_participants ≡ nat hi
    → (e : ContractError)
    → (price_contract template draft mode luna os ≢ err threw_range_error)
      × (price_contract template draft mode luna os ≢ err threw_type_error)
      × (price_contract template draft mode luna os ≢ err (threw e))
unfolding price_contract
price_contract-ne-threw template draft mode luna os m e =
    rw m (λ h. ground arith, λ h. ground arith, λ h. ground arith)

no_settings :
    (template : TemplateId) → is_build_or_create template ≡ true → config_errors template end ≢ []
unfolding config_errors
no_settings build b h = cc h
no_settings create b h = cc h
no_settings _ b h = cc b

-- Settings with a cutoff are a record, and not `undefined` or `null`.
settings_are_record :
    (template : TemplateId) (config : Value)
    → is_build_or_create template ≡ true
    → config_errors template (as_record config) ≡ []
    → property (codes "commitmentCutoff") config
      ≡ some (get (codes "commitmentCutoff") (as_record config))
unfolding config_errors
settings_are_record template (obj fs) b h = refl
settings_are_record template undefined b h = absurd (no_settings template b h)
settings_are_record template null b h = absurd (no_settings template b h)
settings_are_record template _ b h = refl

all_passed :
    {A : Type 0} (xs ys zs : List A)
    → is_empty (xs ++ (ys ++ zs)) ≡ true
    → (xs ≡ []) × (ys ≡ []) × (zs ≡ [])
all_passed [] [] [] h = (refl, refl, refl)
all_passed [] [] (z ∷ zs) h = cc
all_passed [] (y ∷ ys) zs h = cc
all_passed (x ∷ xs) ys zs h = cc

read_amount-ok : (r : Result AmountError ℕ) → (read_amount r).0 ≡ [] → r ≡ ok (read_amount r).1
read_amount-ok (ok n) h = refl
read_amount-ok (err e) h = cc

module _ (p : Platform) (c : Calendar) where
  abbrev draft_errors : TemplateId → PodDraftInput → List ContractError
  draft_errors template draft =
      validate_activity_step p c template draft.activity
      ++ (validate_community_step draft.community
          ++ (read_amount (parse_nim_to_luna draft.nim_per_occurrence)).0)

  -- The cutoff that the publication reads is the one that was checked.
  published_schedule-eq :
      (template : TemplateId) (input : ActivityStepInput)
      → validate_activity_step p c template input ≡ []
      → published_schedule p c template input ≡ ok (checked_schedule p c template input)
  unfolding published_schedule checked_schedule
  published_schedule-eq fitness input h = refl
  published_schedule-eq reading input h = refl
  published_schedule-eq study input h = refl
  published_schedule-eq build input h = rw (
    settings_are_record build input.config refl (passed_config p c build input h),
    published_schedule,
  )
  published_schedule-eq create input h = rw (
    settings_are_record create input.config refl (passed_config p c create input h),
    published_schedule,
  )

  -- Where an activity step has no errors, the publication reads a schedule from it without
  -- throwing, and that schedule has an occurrence.
  pub validate_activity_step-published_schedule :
      (template : TemplateId) (input : ActivityStepInput)
      → validate_activity_step p c template input ≡ []
      → (schedule : MaterializeInput) × (published_schedule p c template input ≡ ok schedule)
        × (o : FrozenOccurrence) × (os : List FrozenOccurrence) × (materialize_occurrences c
              schedule
            ≡ ok (o ∷ os))
  validate_activity_step-published_schedule template input h =
      let (o, os, e) = validate_activity_step-materializes p c template input h in
      (checked_schedule p c template input, published_schedule-eq template input h, o, os, e)

  abbrev pub IsBuilt :
      PodDraftInput → TemplateId → PublishedPodContract → List FrozenOccurrence → Type 0
  IsBuilt draft template contract os =
      (schedule : MaterializeInput) × (published_schedule p c template draft.activity ≡ ok schedule)
      × (materialize_occurrences c schedule ≡ ok os)
      × (0 < length os)
      × (parse_nim_to_luna draft.nim_per_occurrence ≡ ok contract.luna_per_occurrence)
      × (contract.occurrence_count ≡ length os)
      × (contract.total_luna ≡ contract.luna_per_occurrence * length os)
      × (maximum : ℕ) × (draft.community.max_participants ≡ nat maximum)
      × (2 ≤ maximum)
      × (contract.total_luna * maximum ≤ max_safe_integer)

  -- A draft that passed every check: where its contract comes from.
  passed :
      (template : TemplateId) (draft : PodDraftInput) (mode : Option SettlementMode)
      → is_empty (draft_errors template draft) ≡ true
      → (o : FrozenOccurrence) × (os : List FrozenOccurrence) × (hi : ℕ) × (luna : ℕ)
        × (published_schedule p c template draft.activity
            ≡ ok (checked_schedule p c template draft.activity))
        × (materialize_occurrences c (checked_schedule p c template draft.activity) ≡ ok (o ∷ os))
        × (draft.community.max_participants ≡ nat hi)
        × (2 ≤ hi)
        × (parse_nim_to_luna draft.nim_per_occurrence ≡ ok luna)
        × (build_with_template p c template draft mode
            ≡ price_contract template draft mode luna (o ∷ os))
  unfolding build_with_template
  passed template draft mode h =
      let (activity, community, amount) = all_passed _ _ _ h in
      let (o, os, e) = validate_activity_step-materializes p c template draft.activity activity in
      let agreed = published_schedule-eq template draft.activity activity in
      let (lo, hi, min, max, low, order, high, _) =
        validate_community_step_sound draft.community community in
      (
        o,
        os,
        hi,
        _,
        agreed,
        e,
        max,
        ground arith,
        read_amount-ok (parse_nim_to_luna draft.nim_per_occurrence) amount,
        rw (build_with_template, h, agreed, price_schedule, e),
      )

  with_template-IsBuilt :
      (template : TemplateId) (draft : PodDraftInput) (mode : Option SettlementMode)
      {contract : PublishedPodContract} {os : List FrozenOccurrence}
      → build_with_template p c template draft mode ≡ ok (contract, os)
      → IsBuilt draft template contract os
  unfolding build_with_template
  with_template-IsBuilt template draft mode {contract} {os} h =
      elim (Bool-cases (is_empty (draft_errors template draft))) [
        | inl good ↦
            let (o, rest, hi, luna, agreed, e, max, two, amount, same) =
              passed template draft mode good in
            let (all, price, count, total, pool) =
              price_contract_sound template draft mode luna (o ∷ rest) max (rw same at h) in
            rw (total, count, price, all)
              (
                checked_schedule p c template draft.activity,
                agreed,
                e,
                ground arith,
                amount,
                refl,
                refl,
                hi,
                max,
                two,
                pool,
              )
        | inr bad ↦ cc (rw (build_with_template, bad) at h)
      ]

  -- A Pod that is built has the occurrences of its schedule, at least one, which it counts; its
  -- price for each is the parsed amount, its total the product, and the pool of its maximum of
  -- members, 2 or more, is a number that the code holds exactly.
  pub build_published_contract_sound :
      (draft : PodDraftInput) (mode : Option SettlementMode) {contract : PublishedPodContract}
      {os : List FrozenOccurrence}
      → build_published_contract p c draft mode ≡ ok (contract, os)
      → (template : TemplateId) × (find_template draft.template_id ≡ some template)
        × IsBuilt draft template contract os
  unfolding build_published_contract
  build_published_contract_sound draft mode h =
      elim (Option-cases (find_template draft.template_id)) [
        | inl missing ↦ cc (rw (build_published_contract, missing) at h)
        | inr (template, found) ↦ (
          template,
          found,
          with_template-IsBuilt template draft mode (rw (build_published_contract, found) at h),
        )
      ]

  with_template-ne-threw :
      (template : TemplateId) (draft : PodDraftInput) (mode : Option SettlementMode)
      (e : ContractError)
      → (build_with_template p c template draft mode ≢ err threw_range_error)
        × (build_with_template p c template draft mode ≢ err threw_type_error)
        × (build_with_template p c template draft mode ≢ err (threw e))
  unfolding build_with_template
  with_template-ne-threw template draft mode e =
      elim (Bool-cases (is_empty (draft_errors template draft))) [
        | inl good ↦
            let (o, rest, hi, luna, _, _, max, two, amount, same) =
              passed template draft mode good in
            rw same (price_contract-ne-threw template draft mode luna (o ∷ rest) max e)
        | inr bad ↦ rw (build_with_template, bad) (λ h. cc, λ h. cc, λ h. cc)
      ]

  -- Building a contract never throws: once the draft has passed validation, neither the
  -- materialization, nor the conversion to BigInt, nor reading the cutoff from the settings
  -- fails.
  pub build_published_contract-ne-threw :
      (draft : PodDraftInput) (mode : Option SettlementMode) (e : ContractError)
      → (build_published_contract p c draft mode ≢ err threw_range_error)
        × (build_published_contract p c draft mode ≢ err threw_type_error)
        × (build_published_contract p c draft mode ≢ err (threw e))
  unfolding build_published_contract
  build_published_contract-ne-threw draft mode e =
      elim (Option-cases (find_template draft.template_id)) [
        | inl missing ↦ rw (build_published_contract, missing) (λ h. cc, λ h. cc, λ h. cc)
        | inr (template, found) ↦
            rw (build_published_contract, found) (with_template-ne-threw template draft mode e)
      ]
