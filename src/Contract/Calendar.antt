-- ===== src/Contract/Calendar.antt =====
-- What packages/domain/src/index.ts takes from @js-temporal/polyfill. A `PlainDate` is the number of
-- its day, an instant its milliseconds; `none` is a RangeError.
use pods.Base.{ℕ, suc, ◌≡◌, Option, some, Text}

pub record Calendar : Type 0 where
  pub parse_date : Text → Option ℕ  -- `Temporal.PlainDate.from`
  pub next_day : ℕ → Option ℕ  -- `date.add({ days: 1 })`
  pub day_of_week : ℕ → ℕ  -- `date.dayOfWeek`
  pub print_date : ℕ → Text  -- `date.toString()`
  pub to_instant : Text → ℕ → Text → Option ℕ  -- zone, day and time, by `toZonedDateTime`
  pub print_instant : ℕ → Text  -- `instant.toString()`

-- The day after a date has the next number, where there is one.
abbrev pub CountsDays : Calendar → Type 0
CountsDays c = (d e : ℕ) → c.next_day d ≡ some e → e ≡ suc d
