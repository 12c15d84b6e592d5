-- ===== src/Transfers/Payout.antt =====
-- packages/db/src/transfer-repository.ts: the operations on the attempts of a payout. `uuid` stands
-- for `randomUUID` and `print_number` for a number in a template literal.
use pods.Base.{
  ℕ, suc, Bool, true, false, not, ◌&&◌, Option, none, some, ◌++◌, ok, err, ◌>>=◌, Text, codes,
  same_text, find, if◌then◌else◌, Result,
}
use pods.Database.Rows.{
  TransferLeg, TransferLegState, TransferAttempt, TransferAttemptState, TransferEvent,
  TransferEventActor, worker, operations,
}
use pods.Database.Table.{returned}
use pods.Database.Flow.{if_found, require}
use pods.Database.Store.{
  Store, StoreError, Outcome, insert_attempt, insert_event, hash_taken, unique_violation,
  payout_lost_leg, not_first_attempt, prior_not_safe, reference_not_of_leg, payout_state_changed,
  not_replaceable, not_terminal_attempt, not_latest_attempt, retry_state_changed, claim_lost_leg,
  broadcast_lost_leg,
}
use pods.Transfers.States.{
  same_leg_state, as_leg_state, open_payout_state, open_payout_attempt_state, replaceable,
  payout_leg, attempt_of, latest_attempt, update_legs, update_attempts,
}

-- `const [latest] = …; latest?.id !== attempt.id`, as the test that the ids are the same.
abbrev pub is_attempt : Text → Option TransferAttempt → Bool
is_attempt id none = false
is_attempt id (some a) = same_text a.id id

abbrev pub sequence_of : Option TransferAttempt → ℕ
sequence_of none = 0
sequence_of (some a) = a.sequence

abbrev pub attempt_marked :
    TransferAttemptState → Option Text → ℕ → TransferAttempt → TransferAttempt
attempt_marked state error_code now a = record a {
  state = state;
  last_checked_at = some now;
  error_code = error_code;
  updated_at = now;
}

abbrev pub leg_marked : TransferLegState → Option Text → ℕ → TransferLeg → TransferLeg
leg_marked state error_code now l = record l {
  state = state;
  last_attempt_at = some now;
  error_code = error_code;
  updated_at = now;
}

abbrev pub attempt_prepared : Text → Text → ℕ → Text → Text → Text → ℕ → ℕ → TransferAttempt
attempt_prepared id leg_id sequence data_reference raw_transaction_hex transaction_hash
      validity_start_height now =
    record {
      id = id;
      transfer_leg_id = leg_id;
      sequence = sequence;
      state = TransferAttemptState.prepared;
      data_reference = data_reference;
      raw_transaction_hex = raw_transaction_hex;
      transaction_hash = transaction_hash;
      validity_start_height = validity_start_height;
      prepared_at = now;
      broadcast_at = none;
      confirmed_at = none;
      last_checked_at = none;
      error_code = none;
      created_at = now;
      updated_at = now;
    }

abbrev pub leg_readied : Text → Text → ℕ → ℕ → TransferLeg → TransferLeg
leg_readied raw_transaction_hex transaction_hash validity_start_height now l = record l {
  state = TransferLegState.prepared;
  raw_transaction_hex = some raw_transaction_hex;
  transaction_hash = some transaction_hash;
  validity_start_height = some validity_start_height;
  prepared_at = some now;
  last_attempt_at = some now;
  error_code = none;
  updated_at = now;
}

abbrev pub leg_requeued : ℕ → TransferLeg → TransferLeg
leg_requeued now l = record l {
  state = TransferLegState.queued;
  raw_transaction_hex = none;
  transaction_hash = none;
  validity_start_height = none;
  prepared_at = none;
  broadcast_at = none;
  confirmed_at = none;
  last_attempt_at = some now;
  error_code = none;
  updated_at = now;
}

abbrev pub attempt_submitted : ℕ → TransferAttempt → TransferAttempt
attempt_submitted now a = record a {
  state = TransferAttemptState.broadcast;
  broadcast_at = some now;
  last_checked_at = some now;
  error_code = none;
  updated_at = now;
}

abbrev pub leg_submitted : ℕ → TransferLeg → TransferLeg
leg_submitted now l = record l {
  state = TransferLegState.broadcast;
  broadcast_at = some now;
  last_attempt_at = some now;
  error_code = none;
  updated_at = now;
}

abbrev pub event_of :
    Text
    → Text
    → TransferAttempt
    → TransferEventActor
    → TransferLegState
    → TransferLegState
    → Text
    → ℕ
    → TransferEvent
event_of id leg_id attempt actor from to reason now = record {
  id = id;
  transfer_leg_id = leg_id;
  transfer_attempt_id = some attempt.id;
  actor = actor;
  from_state = from;
  to_state = to;
  reason = reason;
  created_at = now;
}

abbrev pub payout_data_reference : (ℕ → Text) → Text → ℕ → Text
payout_data_reference print_number leg_id sequence =
    codes "pods:payout:" ++ leg_id ++ codes ":" ++ print_number sequence

-- The leg and its latest attempt, where both ended in the same state that may be replaced.
unfoldable pub get_payout_retry_candidate : Text → Store → Option (TransferLeg × TransferAttempt)
get_payout_retry_candidate leg_id s =
    if_found (find (λ l. payout_leg leg_id l && replaceable l.state) s.transfer_legs) none λ leg.
      if_found (latest_attempt leg.id s.transfer_attempts) none λ attempt.
        if same_leg_state (as_leg_state attempt.state) leg.state
          && replaceable (as_leg_state attempt.state)
        then some (leg, attempt)
        else none

-- The attempt stays checked where no open leg is found.
unfoldable pub mark_payout_transfer_checked : Text → Text → ℕ → Store → Outcome (Option TransferLeg)
mark_payout_transfer_checked leg_id attempt_id now s =
    let its = λ (a : TransferAttempt).
      attempt_of attempt_id leg_id a && open_payout_attempt_state a.state in
    let seen = λ (a : TransferAttempt). record a { last_checked_at = some now; updated_at = now } in
    if_found (returned its seen s.transfer_attempts) (ok (none, s)) λ _.
      let s1 = update_attempts its seen s in
      let leg_its = λ (l : TransferLeg). payout_leg leg_id l && open_payout_state l.state in
      let leg_seen =
        λ (l : TransferLeg). record l { last_attempt_at = some now; updated_at = now } in
      ok (returned leg_its leg_seen s1.transfer_legs, update_legs leg_its leg_seen s1)

module _ (uuid : ℕ → Text) where
  -- `transaction.insert(transferEvents).values({ id: randomUUID(), … })`.
  abbrev pub record_event :
      Text
      → TransferAttempt
      → TransferEventActor
      → TransferLegState
      → TransferLegState
      → Text
      → ℕ
      → Store
      → Result StoreError Store
  record_event leg_id attempt actor from to reason now s =
      insert_event (event_of (uuid s.next_id) leg_id attempt actor from to reason now)
        (record s { next_id = suc s.next_id })

  unfoldable pub transition_payout_attempt :
      Text
      → Text
      → TransferAttemptState
      → Text
      → Option Text
      → ℕ
      → Store
      → Outcome (Option TransferLeg)
  transition_payout_attempt leg_id attempt_id state reason error_code now s =
      if_found (find (payout_leg leg_id) s.transfer_legs) (ok (none, s)) λ leg.
        if not (open_payout_state leg.state)
        then ok (none, s)
        else if_found (find (attempt_of attempt_id leg.id) s.transfer_attempts) (ok (none, s))
            λ attempt.
              if not (open_payout_attempt_state attempt.state)
              then ok (none, s)
              else let its = λ (a : TransferAttempt). same_text a.id attempt.id in
                let marked = attempt_marked state error_code now in
                if_found (returned its marked s.transfer_attempts) (ok (none, s)) λ _.
                  let s1 = update_attempts its marked s in
                  let leg_its = λ (l : TransferLeg). same_text l.id leg.id in
                  let moved = leg_marked (as_leg_state state) error_code now in
                  if_found (returned leg_its moved s1.transfer_legs) (err payout_lost_leg)
                    λ updated_leg.
                      record_event leg.id attempt worker leg.state (as_leg_state state) reason now
                        (update_legs leg_its moved s1)
                      >>= λ s2. ok (some updated_leg, s2)

  unfoldable pub mark_payout_transfer_unknown :
      Text → Text → Text → ℕ → Store → Outcome (Option TransferLeg)
  mark_payout_transfer_unknown leg_id attempt_id error_code now =
      transition_payout_attempt leg_id attempt_id TransferAttemptState.unknown error_code
        (some error_code) now

  unfoldable pub mark_payout_transfer_retryable_failed :
      Text → Text → Text → ℕ → Store → Outcome (Option TransferLeg)
  mark_payout_transfer_retryable_failed leg_id attempt_id error_code now =
      transition_payout_attempt leg_id attempt_id TransferAttemptState.retryable_failed error_code
        (some error_code) now

  unfoldable pub mark_payout_transfer_mismatched :
      Text → Text → Text → ℕ → Store → Outcome (Option TransferLeg)
  mark_payout_transfer_mismatched leg_id attempt_id error_code now =
      transition_payout_attempt leg_id attempt_id TransferAttemptState.mismatched error_code
        (some error_code) now

  unfoldable pub mark_payout_transfer_late : Text → Text → ℕ → Store → Outcome (Option TransferLeg)
  mark_payout_transfer_late leg_id attempt_id now =
      transition_payout_attempt leg_id attempt_id TransferAttemptState.late
        (codes "validity_window_expired") (some (codes "validity_window_expired")) now

  unfoldable pub persist_payout_transfer_attempt :
      (ℕ → Text)
      → Text
      → Text
      → Text
      → Text
      → ℕ
      → ℕ
      → Store
      → Outcome (Option (TransferLeg × TransferAttempt))
  persist_payout_transfer_attempt print_number leg_id data_reference raw_transaction_hex
        transaction_hash validity_start_height now s =
      if_found (find (payout_leg leg_id) s.transfer_legs) (ok (none, s)) λ leg.
        let existing = latest_attempt leg.id s.transfer_attempts in
        let is_queued = same_leg_state leg.state TransferLegState.queued in
        if_found (if is_queued then none else existing)
          (require is_queued not_first_attempt (
            require (elim existing [ none ↦ true | some a ↦ replaceable (as_leg_state a.state) ])
              prior_not_safe
              (let sequence = suc (sequence_of existing) in
                require
                  (same_text data_reference (payout_data_reference print_number leg.id sequence))
                  reference_not_of_leg
                  (let attempt =
                      attempt_prepared (uuid s.next_id) leg.id sequence data_reference
                        raw_transaction_hex transaction_hash validity_start_height now in
                    insert_attempt attempt (record s { next_id = suc s.next_id }) >>= λ s1.
                    let its = λ (l : TransferLeg).
                      same_text l.id leg.id && same_leg_state l.state TransferLegState.queued in
                    let readied =
                      leg_readied raw_transaction_hex transaction_hash validity_start_height now in
                    if_found (returned its readied s1.transfer_legs) (err payout_state_changed)
                      λ ready.
                        require (not (hash_taken leg.id transaction_hash s1)) unique_violation (
                          record_event leg.id attempt worker TransferLegState.queued
                            TransferLegState.prepared (codes "attempt_prepared") now
                            (update_legs its readied s1)
                          >>= λ s2. ok (some (ready, attempt), s2))))))
          λ attempt. ok (some (leg, attempt), s)

  unfoldable pub request_payout_retry : Text → Text → Text → Text → ℕ → Store → Outcome TransferLeg
  request_payout_retry leg_id attempt_id actor reason now s =
      if_found (find (payout_leg leg_id) s.transfer_legs) (err not_replaceable) λ leg.
        require (replaceable leg.state) not_replaceable (
          if_found (find (attempt_of attempt_id leg.id) s.transfer_attempts)
            (err not_terminal_attempt)
            λ attempt.
              require
                (same_leg_state (as_leg_state attempt.state) leg.state
                  && replaceable (as_leg_state attempt.state))
                not_terminal_attempt
                (require (is_attempt attempt.id (latest_attempt leg.id s.transfer_attempts))
                  not_latest_attempt
                  (let its = λ (l : TransferLeg).
                      same_text l.id leg.id && same_leg_state l.state leg.state in
                    let queued_again = leg_requeued now in
                    if_found (returned its queued_again s.transfer_legs) (err retry_state_changed)
                      λ again.
                        record_event leg.id attempt operations leg.state TransferLegState.queued
                          (actor ++ codes ": " ++ reason) now (update_legs its queued_again s)
                        >>= λ s1. ok (again, s1))))

  unfoldable pub claim_payout_broadcast : Text → Text → ℕ → Store → Outcome Bool
  claim_payout_broadcast leg_id attempt_id now s =
      if_found (find (payout_leg leg_id) s.transfer_legs) (ok (false, s)) λ leg.
        if not (same_leg_state leg.state TransferLegState.prepared)
        then ok (false, s)
        else if_found (find (attempt_of attempt_id leg.id) s.transfer_attempts) (ok (false, s))
            λ attempt.
              if not (same_leg_state (as_leg_state attempt.state) TransferLegState.prepared)
              then ok (false, s)
              else let its = λ (a : TransferAttempt).
                same_text a.id attempt.id
                && same_leg_state (as_leg_state a.state) TransferLegState.prepared in
                let claimed =
                  attempt_marked TransferAttemptState.unknown (some (codes "broadcast_in_progress"))
                    now in
                if_found (returned its claimed s.transfer_attempts) (ok (false, s)) λ _.
                  let s1 = update_attempts its claimed s in
                  let leg_its = λ (l : TransferLeg).
                    same_text l.id leg.id && same_leg_state l.state TransferLegState.prepared in
                  let leg_claimed =
                    leg_marked TransferLegState.unknown (some (codes "broadcast_in_progress"))
                      now in
                  if_found (returned leg_its leg_claimed s1.transfer_legs) (err claim_lost_leg) λ _.
                    record_event leg.id attempt worker TransferLegState.prepared
                      TransferLegState.unknown (codes "broadcast_claimed") now
                      (update_legs leg_its leg_claimed s1)
                    >>= λ s2. ok (true, s2)

  unfoldable pub mark_payout_transfer_broadcast :
      Text → Text → ℕ → Store → Outcome (Option TransferLeg)
  mark_payout_transfer_broadcast leg_id attempt_id now s =
      let its = λ (a : TransferAttempt).
        attempt_of attempt_id leg_id a
        && same_leg_state (as_leg_state a.state) TransferLegState.unknown in
      let attempt_sent = attempt_submitted now in
      if_found (returned its attempt_sent s.transfer_attempts) (ok (none, s)) λ attempt.
        let s1 = update_attempts its attempt_sent s in
        let leg_its = λ (l : TransferLeg).
          payout_leg leg_id l && same_leg_state l.state TransferLegState.unknown in
        let leg_sent = leg_submitted now in
        if_found (returned leg_its leg_sent s1.transfer_legs) (err broadcast_lost_leg) λ leg.
          record_event leg.id attempt worker TransferLegState.unknown TransferLegState.broadcast
            (codes "broadcast_submitted") now (update_legs leg_its leg_sent s1)
          >>= λ s2. ok (some leg, s2)
