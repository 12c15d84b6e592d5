-- ===== src/Activity/Window.antt =====
-- packages/domain/src/activity.ts: `occurrenceWindowState` and `reviewDeadline`, over times in
-- milliseconds since the epoch.
use pods.Base.{
  ℕ, ◌+◌, ◌*◌, ◌≤◌, ◌<◌, ◌≡◌, ◌↔◌, Bool, false, Option, none, some, ltb, if◌then◌else◌, arith,
}

pub data OccurrenceWindowState : Type 0 where
  scheduled commitment_open evidence_open review_open : OccurrenceWindowState

pub record OccurrenceTimes : Type 0 where
  pub opens_at : ℕ
  pub commitment_deadline_at : Option ℕ
  pub closes_at : ℕ

-- `deadline && now < deadline`; a `Date` is truthy.
abbrev pub before_deadline : ℕ → Option ℕ → Bool
before_deadline now none = false
before_deadline now (some deadline) = ltb now deadline

unfoldable pub occurrence_window_state : OccurrenceTimes → ℕ → OccurrenceWindowState
occurrence_window_state occurrence now =
    if ltb now occurrence.opens_at
    then scheduled
    else if before_deadline now occurrence.commitment_deadline_at
    then commitment_open
    else if ltb now occurrence.closes_at
    then evidence_open
    else review_open

abbrev pub phase : OccurrenceWindowState → ℕ
phase scheduled = 0
phase commitment_open = 1
phase evidence_open = 2
phase review_open = 3

-- A window never moves back as time passes.
pub occurrence_window_state_mono :
    (o : OccurrenceTimes) (now later : ℕ)
    → now ≤ later
    → phase (occurrence_window_state o now) ≤ phase (occurrence_window_state o later)
unfolding occurrence_window_state
occurrence_window_state_mono o now later h = ground arith

-- When the deadline lies between opening and closing, each state of a window holds in its own
-- interval of time and nowhere else.
pub occurrence_window_state-intervals :
    (o : OccurrenceTimes) (d now : ℕ)
    → o.commitment_deadline_at ≡ some d
    → o.opens_at ≤ d
    → d ≤ o.closes_at
    → ((occurrence_window_state o now ≡ scheduled) ↔ (now < o.opens_at))
      × ((occurrence_window_state o now ≡ commitment_open) ↔ ((o.opens_at ≤ now) × (now < d)))
      × ((occurrence_window_state o now ≡ evidence_open) ↔ ((d ≤ now) × (now < o.closes_at)))
      × ((occurrence_window_state o now ≡ review_open) ↔ (o.closes_at ≤ now))
unfolding occurrence_window_state
occurrence_window_state-intervals o d now e h k = ground arith

pub record ReviewDeadline : Type 0 where
  pub target_at : ℕ
  pub hard_deadline_at : ℕ

unfoldable pub review_deadline : ℕ → ReviewDeadline
review_deadline submitted_at = record {
  target_at = submitted_at + 12 * 60 * 60 * 1000;
  hard_deadline_at = submitted_at + 24 * 60 * 60 * 1000;
}
