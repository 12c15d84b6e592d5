-- ===== src/Transfers/States.antt =====
-- packages/db/src/transfer-repository.ts: the tests on the states of transfers and attempts, and the
-- conditions by which the statements choose their rows.
use pods.Base.{
  ℕ, ◌≡◌, refl, Bool, true, false, ◌&&◌, Option, none, some, List, [], ◌∷◌, Text, same_text, leb,
  ◌==◌, if◌then◌else◌,
}
use pods.Database.Rows.{
  TransferLeg, TransferLegType, refund, payout, TransferLegState, queued, prepared, broadcast,
  unknown, retryable_failed, mismatched, late, confirmed, manual_review, TransferAttempt,
  TransferAttemptState,
}
use pods.Database.Store.{Store}
use pods.Database.Table.{patch}

-- `===` on the states.
abbrev leg_state_code : TransferLegState → ℕ
leg_state_code queued = 0
leg_state_code prepared = 1
leg_state_code broadcast = 2
leg_state_code unknown = 3
leg_state_code retryable_failed = 4
leg_state_code mismatched = 5
leg_state_code late = 6
leg_state_code confirmed = 7
leg_state_code manual_review = 8

unfoldable pub same_leg_state : TransferLegState → TransferLegState → Bool
same_leg_state s t = leg_state_code s == leg_state_code t

pub same_leg_state-eq : (s t : TransferLegState) → same_leg_state s t ≡ true → s ≡ t
unfolding same_leg_state
same_leg_state-eq queued queued h = refl
same_leg_state-eq prepared prepared h = refl
same_leg_state-eq broadcast broadcast h = refl
same_leg_state-eq unknown unknown h = refl
same_leg_state-eq retryable_failed retryable_failed h = refl
same_leg_state-eq mismatched mismatched h = refl
same_leg_state-eq late late h = refl
same_leg_state-eq confirmed confirmed h = refl
same_leg_state-eq manual_review manual_review h = refl
same_leg_state-eq _ _ h = cc h

-- The state of an attempt, as the state of a leg: the texts are the same.
unfoldable pub as_leg_state : TransferAttemptState → TransferLegState
as_leg_state TransferAttemptState.prepared = prepared
as_leg_state TransferAttemptState.broadcast = broadcast
as_leg_state TransferAttemptState.unknown = unknown
as_leg_state TransferAttemptState.retryable_failed = retryable_failed
as_leg_state TransferAttemptState.mismatched = mismatched
as_leg_state TransferAttemptState.late = late
as_leg_state TransferAttemptState.confirmed = confirmed
as_leg_state TransferAttemptState.manual_review = manual_review

-- `openPayoutStates` and `openPayoutAttemptStates`.
unfoldable pub open_payout_state : TransferLegState → Bool
open_payout_state queued = true
open_payout_state prepared = true
open_payout_state broadcast = true
open_payout_state unknown = true
open_payout_state _ = false

unfoldable pub open_payout_attempt_state : TransferAttemptState → Bool
open_payout_attempt_state TransferAttemptState.prepared = true
open_payout_attempt_state TransferAttemptState.broadcast = true
open_payout_attempt_state TransferAttemptState.unknown = true
open_payout_attempt_state _ = false

-- `["retryable_failed", "late"].includes(state)`.
unfoldable pub replaceable : TransferLegState → Bool
replaceable retryable_failed = true
replaceable late = true
replaceable _ = false

-- `["prepared", "broadcast", "unknown"].includes(state)`.
unfoldable pub sent_or_ready : TransferLegState → Bool
sent_or_ready prepared = true
sent_or_ready broadcast = true
sent_or_ready unknown = true
sent_or_ready _ = false

abbrev pub is_payout : TransferLegType → Bool
is_payout payout = true
is_payout refund = false

abbrev pub is_refund : TransferLegType → Bool
is_refund refund = true
is_refund payout = false

-- `and(eq(transferLegs.id, id), eq(transferLegs.type, …))`.
abbrev pub payout_leg : Text → TransferLeg → Bool
payout_leg id l = same_text l.id id && is_payout l.type

abbrev pub refund_leg : Text → TransferLeg → Bool
refund_leg id l = same_text l.id id && is_refund l.type

abbrev pub attempt_of : Text → Text → TransferAttempt → Bool
attempt_of id leg_id a = same_text a.id id && same_text a.transfer_leg_id leg_id

-- `where(eq(transferAttempts.transferLegId, id)).orderBy(desc(transferAttempts.sequence)).limit(1)`.
abbrev pub later_attempt : TransferAttempt → Option TransferAttempt → TransferAttempt
later_attempt a none = a
later_attempt a (some b) = if leb b.sequence a.sequence then a else b

unfoldable pub latest_attempt : Text → List TransferAttempt → Option TransferAttempt
latest_attempt leg_id [] = none
latest_attempt leg_id (a ∷ rows) =
    let rest = latest_attempt leg_id rows in
    if same_text a.transfer_leg_id leg_id then some (later_attempt a rest) else rest

-- The tables after an update of legs or of attempts.
abbrev pub update_legs : (TransferLeg → Bool) → (TransferLeg → TransferLeg) → Store → Store
update_legs where_ set s = record s { transfer_legs = patch where_ set s.transfer_legs }

abbrev pub update_attempts :
    (TransferAttempt → Bool) → (TransferAttempt → TransferAttempt) → Store → Store
update_attempts where_ set s = record s { transfer_attempts = patch where_ set s.transfer_attempts }
