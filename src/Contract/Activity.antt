-- ===== src/Contract/Activity.antt =====
-- packages/domain/src/index.ts: `validateSchedule` and `validateActivityStep`.
use pods.Base.{
  ℕ, ◌≡◌, refl, Bool, true, false, not, ◌&&◌, ◌||◌, Option, none, some, List, [], ◌∷◌, ◌++◌, Result,
  ok, err, codes, Value, str, num, arr, Items, nil, cons, Fields, get, as_record, items, is_text,
  trimmed_text, non_empty_string, positive_number, is_some, nat, error_if, some_of, is_empty,
  length, ltb, leb, ◌==◌, if◌then◌else◌, Platform, Text, append_nil,
}
use pods.Contract.Types.{
  TemplateId, fitness, reading, study, build, create, ActivityStepInput, FrozenOccurrence,
  ContractError, name_too_short, purpose_too_short, no_weekday, bad_weekdays, end_before_start,
  bad_dates, no_activity_type, no_measurable_minimum, no_book, bad_target_amount, bad_target_type,
  no_subject, no_focus_minimum, no_project_theme, no_deliverables, no_cutoff, no_discipline,
  no_output_minimum, no_occurrence, not_materialized,
}
use pods.Contract.Calendar.{Calendar}
use pods.Contract.Occurrences.{MaterializeInput, is_time, materialize_occurrences}

abbrev pub prepend : Option ℕ → Option (List ℕ) → Option (List ℕ)
prepend (some n) (some ns) = some (n ∷ ns)
prepend _ _ = none

-- The weekday, if it is a whole number from one to seven.
abbrev pub weekday_number : Value → Option ℕ
weekday_number (num (nat n)) = if leb 1 n && leb n 7 then some n else none
weekday_number _ = none

-- The weekdays, if each is a whole number from one to seven.
unfoldable pub weekday_numbers : Items → Option (List ℕ)
weekday_numbers nil = some []
weekday_numbers (cons v vs) = prepend (weekday_number v) (weekday_numbers vs)

abbrev pub has_repeat : List ℕ → Bool
has_repeat [] = false
has_repeat (n ∷ ns) = some_of (λ m. m == n) ns || has_repeat ns

-- The weekdays of a schedule that has been checked.
abbrev pub weekdays_of : Value → List ℕ
unfolding weekday_numbers
weekdays_of (arr vs) = elim (weekday_numbers vs) [ none ↦ [] | some ns ↦ ns ]
weekdays_of _ = []

unfoldable pub weekday_errors : Value → List ContractError
unfolding weekday_numbers
weekday_errors (arr vs) =
    if length (items vs) == 0 then no_weekday ∷ [] else (elim (weekday_numbers vs) [
      | none ↦ bad_weekdays ∷ []
      | some ns ↦ error_if (has_repeat ns) bad_weekdays
    ])
weekday_errors _ = no_weekday ∷ []

-- `!nonEmptyString(value) || value.trim().length < n`.
abbrev pub is_short : Value → ℕ → Bool
is_short v n = not (non_empty_string v) || ltb (length (trimmed_text v)) n

abbrev pub is_time_value : Value → Bool
unfolding is_time
is_time_value (str t) = is_time t
is_time_value _ = false

-- The errors of the template's own settings.
unfoldable pub config_errors : TemplateId → Fields → List ContractError
unfolding is_time
config_errors fitness config =
    error_if (not (non_empty_string (get (codes "activityType") config))) no_activity_type
    ++ error_if (not (non_empty_string (get (codes "measurableMinimum") config)))
        no_measurable_minimum
config_errors reading config =
    error_if (not (non_empty_string (get (codes "bookOrTheme") config))) no_book
    ++ (error_if (not (is_some (positive_number (get (codes "targetAmount") config))))
          bad_target_amount
        ++ error_if
            (not (is_text (get (codes "targetType") config) (codes "pages"))
              && not (is_text (get (codes "targetType") config) (codes "minutes")))
            bad_target_type)
config_errors study config =
    error_if (not (non_empty_string (get (codes "subject") config))) no_subject
    ++ error_if (not (non_empty_string (get (codes "minimumExpectation") config))) no_focus_minimum
config_errors build config =
    error_if (not (non_empty_string (get (codes "projectTheme") config))) no_project_theme
    ++ (error_if
          (elim (get (codes "allowedDeliverables") config) [
            | arr vs ↦ length (items vs) == 0
            | _ ↦ true
          ])
          no_deliverables
        ++ error_if (not (is_time_value (get (codes "commitmentCutoff") config))) no_cutoff)
config_errors create config =
    error_if (not (non_empty_string (get (codes "discipline") config))) no_discipline
    ++ (error_if (not (non_empty_string (get (codes "minimumExpectation") config)))
          no_output_minimum
        ++ error_if (not (is_time_value (get (codes "commitmentCutoff") config))) no_cutoff)

-- The object that `materializeOccurrences` is given.
abbrev pub schedule_with : Option Text → ActivityStepInput → MaterializeInput
schedule_with cutoff input = record {
  start_date = input.start_date;
  end_date = input.end_date;
  time_zone = input.time_zone;
  weekdays = weekdays_of input.weekdays;
  commitment_cutoff = cutoff;
}

-- `templateId === "build" || templateId === "create"`.
abbrev pub is_build_or_create : TemplateId → Bool
is_build_or_create build = true
is_build_or_create create = true
is_build_or_create _ = false

last_errors :
    (errors later : List ContractError)
    → (if is_empty errors then later else errors) ≡ []
    → later ≡ []
last_errors [] later h = h
last_errors (e ∷ errors) later h = cc

first_errors :
    (errors later : List ContractError)
    → (if is_empty errors then later else errors) ≡ []
    → errors ≡ []
first_errors [] later h = refl
first_errors (e ∷ errors) later h = cc

module _ (p : Platform) (c : Calendar) where
  -- The dates of a schedule and its time zone.
  unfoldable pub date_errors : ActivityStepInput → List ContractError
  date_errors input = elim (c.parse_date input.start_date) [
    | none ↦ bad_dates ∷ []
    | some start ↦ elim (c.parse_date input.end_date) [
      | none ↦ bad_dates ∷ []
      | some end ↦ elim (c.to_instant input.time_zone start (codes "00:00")) [
        | none ↦ bad_dates ∷ []
        | some _ ↦ error_if (ltb end start) end_before_start
      ]
    ]
  ]

  unfoldable pub validate_schedule : ActivityStepInput → List ContractError
  unfolding weekday_errors date_errors
  validate_schedule input =
      error_if (is_short input.name 3) name_too_short
      ++ (error_if (is_short input.purpose 20) purpose_too_short
          ++ (weekday_errors input.weekdays ++ date_errors input))

  -- What `materializeOccurrences` is given here: `build` and `create` have a cutoff, which is read
  -- from the checked settings.
  unfoldable pub checked_schedule : TemplateId → ActivityStepInput → MaterializeInput
  checked_schedule template input =
      schedule_with
        (if is_build_or_create template
          then some (p.string_of (get (codes "commitmentCutoff") (as_record input.config)))
          else none)
        input

  -- The last test, of a step without other errors: the schedule has an occurrence.
  unfoldable pub materialize_errors : TemplateId → ActivityStepInput → List ContractError
  unfolding checked_schedule
  materialize_errors template input =
      elim (materialize_occurrences c (checked_schedule template input)) [
        | err _ ↦ not_materialized ∷ []
        | ok [] ↦ no_occurrence ∷ []
        | ok (o ∷ os) ↦ []
      ]

  unfoldable pub validate_activity_step : TemplateId → ActivityStepInput → List ContractError
  unfolding validate_schedule config_errors materialize_errors
  validate_activity_step template input =
      let errors = validate_schedule input ++ config_errors template (as_record input.config) in
      if is_empty errors then materialize_errors template input else errors

  -- A step without errors passed the checks of its settings.
  pub passed_config :
      (template : TemplateId) (input : ActivityStepInput)
      → validate_activity_step template input ≡ []
      → config_errors template (as_record input.config) ≡ []
  unfolding validate_activity_step
  passed_config template input h =
      let (_, config) =
        append_nil (validate_schedule input) (config_errors template (as_record input.config))
          (first_errors _ _ h) in
      config

  -- An activity step without errors has a schedule that materializes, with an occurrence.
  pub validate_activity_step-materializes :
      (template : TemplateId) (input : ActivityStepInput)
      → validate_activity_step template input ≡ []
      → (o : FrozenOccurrence) × (os : List FrozenOccurrence) × (materialize_occurrences c
            (checked_schedule template input)
          ≡ ok (o ∷ os))
  unfolding validate_activity_step
  validate_activity_step-materializes template input h =
      materialized (materialize_occurrences c (checked_schedule template input)) refl
    where
      last : materialize_errors template input ≡ []
      last =
          last_errors (validate_schedule input ++ config_errors template (as_record input.config)) _
            h

      materialized :
          (r : Result ContractError (List FrozenOccurrence))
          → materialize_occurrences c (checked_schedule template input) ≡ r
          → (o : FrozenOccurrence) × (os : List FrozenOccurrence) × (materialize_occurrences c
                (checked_schedule template input)
              ≡ ok (o ∷ os))
      materialized (ok (o ∷ os)) e = (o, os, e)
      materialized (ok []) e = cc (rw (e, materialize_errors) at last)
      materialized (err x) e = cc (rw (e, materialize_errors) at last)
