-- ===== src/Contract/Occurrences.antt =====
-- packages/domain/src/index.ts: `validTime`, `materializeOccurrences` and
-- `validatePublicationTiming`.
use pods.Base.{
  ℕ, zero, suc, ◌-◌, Bool, true, false, not, ◌&&◌, ◌||◌, Option, none, some, List, [], ◌∷◌, Result,
  ok, err, ◌>>=◌, ◌>>◌, throw_if, Text, codes, is_digit, is_empty, some_of, leb, ltb, ◌==◌,
  if◌then◌else◌,
}
use pods.Contract.Types.{
  FrozenOccurrence, ContractError, bad_dates, end_before_start, cutoff_format, no_occurrence,
  already_open,
}
use pods.Contract.Calendar.{Calendar}

-- /^([01]\d|2[0-3]):[0-5]\d$/
unfoldable pub is_time : Text → Bool
is_time (a ∷ b ∷ c ∷ d ∷ e ∷ []) =
    (((a == b'0' || a == b'1') && is_digit b) || (a == b'2' && leb b'0' b && leb b b'3'))
    && c == b':'
    && leb b'0' d
    && leb d b'5'
    && is_digit e
is_time _ = false

pub record MaterializeInput : Type 0 where
  pub start_date : Text
  pub end_date : Text
  pub time_zone : Text
  pub weekdays : List ℕ
  pub commitment_cutoff : Option Text

-- A step of Temporal that may throw.
abbrev pub or_range_error : {A : Type 0} → Option A → Result ContractError A
or_range_error none = err bad_dates
or_range_error (some a) = ok a

-- `set.has(day)`
abbrev pub selects : List ℕ → ℕ → Bool
selects weekdays d = some_of (λ w. w == d) weekdays

-- A cutoff that is the empty string counts as absent.
abbrev pub cutoff_text : Option Text → Option Text
cutoff_text none = none
cutoff_text (some t) = if is_empty t then none else some t

unfoldable pub is_bad_cutoff : Option Text → Bool
unfolding is_time
is_bad_cutoff none = false
is_bad_cutoff (some t) = not (is_empty t) && not (is_time t)

module _ (c : Calendar) where
  -- The deadline of a day, if the Pod has a cutoff.
  unfoldable pub commitment_deadline : Text → ℕ → Option Text → Result ContractError (Option Text)
  commitment_deadline zone date none = ok none
  commitment_deadline zone date (some time) = do
    instant ← or_range_error (c.to_instant zone date time)
    ok (some (c.print_instant instant))

  unfoldable pub make_occurrence : MaterializeInput → ℕ → ℕ → Result ContractError FrozenOccurrence
  unfolding commitment_deadline
  make_occurrence input date ordinal = do
    start ← or_range_error (c.to_instant input.time_zone date (codes "00:00"))
    next ← or_range_error (c.next_day date)
    end ← or_range_error (c.to_instant input.time_zone next (codes "00:00"))
    deadline ← commitment_deadline input.time_zone date (cutoff_text input.commitment_cutoff)
    ok (record {
      ordinal = ordinal;
      local_date = c.print_date date;
      opens_at = c.print_instant start;
      closes_at = c.print_instant end;
      commitment_deadline_at = deadline;
    })

  -- The loop from `date` on, with the number of occurrences so far.
  unfoldable pub materialize_from :
      MaterializeInput → ℕ → ℕ → ℕ → ℕ → Result ContractError (List FrozenOccurrence)
  unfolding make_occurrence
  materialize_from input end zero date count = ok []
  materialize_from input end (suc rounds) date count = elim (leb date end) [
    | false ↦ ok []
    | true ↦ elim (selects input.weekdays (c.day_of_week date)) [
      | false ↦
          or_range_error (c.next_day date) >>= λ next. materialize_from input end rounds next count
      | true ↦ make_occurrence input date (suc count) >>= λ occurrence.
          or_range_error (c.next_day date) >>= λ next.
          materialize_from input end rounds next (suc count) >>= λ rest. ok (occurrence ∷ rest)
    ]
  ]

  unfoldable pub materialize_occurrences :
      MaterializeInput → Result ContractError (List FrozenOccurrence)
  unfolding materialize_from
  materialize_occurrences input = do
    date ← or_range_error (c.parse_date input.start_date)
    end ← or_range_error (c.parse_date input.end_date)
    throw_if (ltb end date) end_before_start
    throw_if (is_bad_cutoff input.commitment_cutoff) cutoff_format
    materialize_from input end (suc (end - date)) date 0

-- `opens_at` is `new Date(firstOccurrence.opensAt).getTime()`.
unfoldable pub validate_publication_timing :
    (Text → ℕ) → List FrozenOccurrence → ℕ → List ContractError
validate_publication_timing time_of [] now = no_occurrence ∷ []
validate_publication_timing time_of (first ∷ rest) now =
    if leb (time_of first.opens_at) now then already_open ∷ [] else []
