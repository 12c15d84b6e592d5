-- ===== src/Database/Store.antt =====
-- packages/db/src/schema.ts: the tables together, the errors of the repositories, and insertions
-- under the unique indexes. `next_id` counts the identities that `randomUUID` has given.
use pods.Base.{
  ℕ, Bool, false, not, ◌&&◌, ◌||◌, Option, none, some, List, ◌∷◌, Result, ok, err, Text, same_text,
  some_of, ◌==◌, if◌then◌else◌,
}
use pods.Database.Rows.{
  TransferLeg, TransferAttempt, TransferEvent, LedgerEntry, SettlementRun, SettlementEntitlement,
  DepositIntent, Membership, Pod, Occurrence, User, Conversation, RealtimeEvent,
}

pub record Store : Type 0 where
  pub next_id : ℕ
  pub transfer_legs : List TransferLeg
  pub transfer_attempts : List TransferAttempt
  pub transfer_events : List TransferEvent
  pub ledger_entries : List LedgerEntry
  pub settlement_runs : List SettlementRun
  pub settlement_entitlements : List SettlementEntitlement
  pub deposit_intents : List DepositIntent
  pub memberships : List Membership
  pub pods : List Pod
  pub occurrences : List Occurrence
  pub users : List User
  pub conversations : List Conversation
  pub realtime_events : List RealtimeEvent

-- `unique_violation` is the error of a unique index; the others are the errors that are thrown.
pub data StoreError : Type 0 where
  unique_violation : StoreError
  payout_lost_leg not_first_attempt prior_not_safe reference_not_of_leg attempt_not_persisted :
      StoreError
  payout_state_changed not_replaceable not_terminal_attempt not_latest_attempt retry_state_changed :
      StoreError
  claim_lost_leg broadcast_lost_leg not_confirmable attempt_not_confirmable entitlement_mismatch :
      StoreError
  refund_bytes_immutable refund_not_queued refund_not_prepared refund_state_changed
        refund_not_confirmable :
      StoreError
  open_deposit_intent not_eligible_to_fund pod_not_accepting contract_not_accepted
        funding_cutoff_passed :
      StoreError
  wallet_mismatch intent_not_created membership_state_changed wallet_event_invalid
        intent_state_changed :
      StoreError
  invalid_hash hint_invalid hash_claimed other_exception review_invalid observe_invalid : StoreError
  finalize_invalid credit_invalid other_intent : StoreError
  pod_not_found not_eligible_for_cutoff cutoff_not_reached missing_order_data
        refund_leg_not_created :
      StoreError

-- What a transaction returns, with the tables that it commits; an error rolls it back.
abbrev pub Outcome : Type 0 → Type 0
Outcome A = Result StoreError (A × Store)

-- The value of an optional column equals a text.
abbrev pub holds_text : Option Text → Text → Bool
holds_text none t = false
holds_text (some s) t = same_text s t

-- A row of the table has a value that the new row may not repeat.
abbrev pub attempt_conflicts : TransferAttempt → TransferAttempt → Bool
attempt_conflicts new old =
    same_text old.id new.id
    || (same_text old.transfer_leg_id new.transfer_leg_id && old.sequence == new.sequence)
    || same_text old.transaction_hash new.transaction_hash

abbrev pub insert_attempt : TransferAttempt → Store → Result StoreError Store
insert_attempt new s =
    if some_of (attempt_conflicts new) s.transfer_attempts
    then err unique_violation
    else ok (record s { transfer_attempts = new ∷ s.transfer_attempts })

abbrev pub insert_event : TransferEvent → Store → Result StoreError Store
insert_event new s =
    if some_of (λ (e : TransferEvent). same_text e.id new.id) s.transfer_events
    then err unique_violation
    else ok (record s { transfer_events = new ∷ s.transfer_events })

-- `onConflictDoNothing({ target: idempotencyKey })`.
abbrev pub insert_entry : LedgerEntry → Store → Result StoreError Store
insert_entry new s =
    if some_of (λ (e : LedgerEntry). same_text e.idempotency_key new.idempotency_key)
      s.ledger_entries
    then ok s
    else if some_of (λ (e : LedgerEntry). same_text e.id new.id) s.ledger_entries
    then err unique_violation
    else ok (record s { ledger_entries = new ∷ s.ledger_entries })

-- Another leg has the transaction hash already.
abbrev pub hash_taken : Text → Text → Store → Bool
hash_taken leg_id hash s =
    some_of (λ (l : TransferLeg). holds_text l.transaction_hash hash && not (same_text l.id leg_id))
      s.transfer_legs
