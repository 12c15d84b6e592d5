-- ===== src/Contract/Tests.antt =====
-- A Pod of three days, two of which are selected.
use pods.Base.{
  ℕ, suc, ◌-◌, ◌*◌, ◌%◌, ◌≤◌, ◌≡◌, ◌≢◌, ◌⊎◌, refl, true, none, some, List, [], ◌∷◌, ok, err, codes,
  same_text, trim, replicate, str, num, arr, obj, cons, nil, field, end, undefined, nat,
  max_safe_integer, positive_number, is_some, length, Platform, arith,
}
use pods.Contract.Types.{
  TemplateId, fitness, template_mode, find_template, ActivityStepInput, CommunityStepInput,
  PodDraftInput, FrozenOccurrence, PublishedPodContract, repeating_criterion, full_refund_alpha,
  no_occurrence,
}
use pods.Contract.Calendar.{Calendar, CountsDays}
use pods.Contract.Community.{is_public, validate_community_step, validate_community_step_sound}
use pods.Contract.Occurrences.{MaterializeInput, materialize_occurrences, is_bad_cutoff}
use pods.Contract.Dates.{IsDated, materialize_occurrences-IsDated}
use pods.Contract.Activity.{weekday_numbers, validate_activity_step}
use pods.Contract.Publish.{
  threw, threw_range_error, threw_type_error, published_schedule, build_published_contract,
}
use pods.Contract.Pricing.{
  IsBuilt, build_published_contract_sound, build_published_contract-ne-threw,
  validate_activity_step-published_schedule,
}

-- A date is written as so many marks, and each day is 24 hours long.
abbrev tally : Calendar
tally = record {
  parse_date = λ t. some (length t);
  next_day = λ d. some (suc d);
  day_of_week = λ d. suc (d % 7);
  print_date = λ d. replicate d b'x';
  to_instant = λ zone d time. some (d * 86400000);
  print_instant = λ n. [];
}

tally-CountsDays : CountsDays tally
tally-CountsDays d e h = ground arith

abbrev no_platform : Platform
no_platform = record {
  parse_url = λ t. none;
  to_lower_case = λ t. t;
  string_of = λ v. [];
  print_number = λ n. [];
}

abbrev running : ActivityStepInput
running = record {
  name = str (codes "Morning run");
  purpose = str (codes "Run together before work");
  start_date = replicate 7 b'x';
  end_date = replicate 9 b'x';
  time_zone = codes "UTC";
  weekdays = arr (cons (num (nat 1)) (cons (num (nat 3)) nil));
  config = obj (
      field (codes "activityType") (str (codes "run"))
        (field (codes "measurableMinimum") (str (codes "3 km")) end));
}

abbrev runners : CommunityStepInput
runners = record {
  visibility = codes "private";
  min_participants = nat 2;
  max_participants = nat 5;
  application_questions = undefined;
  invite_expiry_hours = num (nat 48);
  room_audience = none;
}

abbrev run_draft : PodDraftInput
run_draft = record {
  template_id = codes "fitness";
  activity = running;
  community = runners;
  nim_per_occurrence = codes "1.5";
}

abbrev day : ℕ → ℕ → FrozenOccurrence
day n d = record {
  ordinal = n;
  local_date = replicate d b'x';
  opens_at = [];
  closes_at = [];
  commitment_deadline_at = none;
}

abbrev run_days : List FrozenOccurrence
run_days = day 1 7 ∷ day 2 9 ∷ []

abbrev run_schedule : MaterializeInput
run_schedule = record {
  start_date = replicate 7 b'x';
  end_date = replicate 9 b'x';
  time_zone = codes "UTC";
  weekdays = 1 ∷ 3 ∷ [];
  commitment_cutoff = none;
}

run_days_materialized : materialize_occurrences tally run_schedule ≡ ok run_days
unfolding materialize_occurrences is_bad_cutoff
run_days_materialized = refl

materialize_occurrences-IsDated_example :
    (start : ℕ) × (end : ℕ) × (some 7 ≡ some start)
    × (some 9 ≡ some end)
    × (start ≤ end)
    × IsDated tally tally-CountsDays run_schedule (suc (end - start)) start 0 run_days
materialize_occurrences-IsDated_example =
    materialize_occurrences-IsDated tally tally-CountsDays run_schedule run_days
      run_days_materialized

running_passes : validate_activity_step no_platform tally fitness running ≡ []
unfolding validate_activity_step materialize_occurrences trim same_text weekday_numbers
    is_bad_cutoff
running_passes = refl

validate_activity_step-published_schedule_example :
    (schedule : MaterializeInput) × (published_schedule no_platform tally fitness running
      ≡ ok schedule)
    × (o : FrozenOccurrence) × (os : List FrozenOccurrence) × (materialize_occurrences tally
          schedule
        ≡ ok (o ∷ os))
validate_activity_step-published_schedule_example =
    validate_activity_step-published_schedule no_platform tally fitness running running_passes

abbrev run_contract : PublishedPodContract
run_contract = record {
  version = pods.Contract.Types.v1;
  template_id = fitness;
  evidence_mode = repeating_criterion;
  settlement_mode = full_refund_alpha;
  activity = running;
  community = runners;
  luna_per_occurrence = 150000;
  occurrence_count = 2;
  total_luna = 300000;
}

run_built : build_published_contract no_platform tally run_draft none ≡ ok (run_contract, run_days)
unfolding build_published_contract trim same_text materialize_occurrences is_bad_cutoff
run_built = refl

build_published_contract_sound_example :
    (template : TemplateId) × (find_template (codes "fitness") ≡ some template)
    × IsBuilt no_platform tally run_draft template run_contract run_days
build_published_contract_sound_example =
    build_published_contract_sound no_platform tally run_draft none {contract = run_contract}
      {os = run_days} run_built

build_published_contract-ne-threw_example :
    (build_published_contract no_platform tally run_draft none ≢ err threw_range_error)
    × (build_published_contract no_platform tally run_draft none ≢ err threw_type_error)
    × (build_published_contract no_platform tally run_draft none ≢ err (threw no_occurrence))
build_published_contract-ne-threw_example =
    build_published_contract-ne-threw no_platform tally run_draft none no_occurrence

runners_pass : validate_community_step runners ≡ []
unfolding validate_community_step same_text
runners_pass = refl

validate_community_step_sound_example :
    (lo : ℕ) × (hi : ℕ) × (nat 2 ≡ nat lo)
    × (nat 5 ≡ nat hi)
    × (2 ≤ lo)
    × (lo ≤ hi)
    × (hi ≤ max_safe_integer)
    × ((is_public runners ≡ true)
        ⊎ ((runners.room_audience ≡ none)
            × (is_some (positive_number runners.invite_expiry_hours) ≡ true)))
validate_community_step_sound_example = validate_community_step_sound runners runners_pass
