-- ===== src/Transfers/Tests.antt =====
-- packages/db/src/transfer-repository.ts: runs at concrete tables, and the theorems applied to them.
use pods.Base.{
  ℕ, ◌+◌, ◌≡◌, refl, false, Option, none, some, List, [], ◌∷◌, Text, codes, find, count, ok,
  same_text, some_of, arith,
}
use pods.Database.Rows.{
  TransferLeg, TransferLegType, refund, payout, TransferLegState, SettlementEntitlement,
  transfer_queued, transfer_confirmed, TransferAttempt, TransferAttemptState, worker, SettlementRun,
  executing, settled, LedgerEntry, principal_allocation,
}
use pods.Database.Store.{Store}
use pods.Database.Table.{patch}
use pods.Database.Flow.{if_found, require}
use pods.Transfers.States.{
  same_leg_state, as_leg_state, open_payout_state, open_payout_attempt_state, replaceable,
  latest_attempt, payout_leg,
}
use pods.Transfers.Payout.{
  attempt_prepared, event_of, persist_payout_transfer_attempt, claim_payout_broadcast,
  mark_payout_transfer_broadcast, transition_payout_attempt, mark_payout_transfer_late,
  request_payout_retry,
}
use pods.Transfers.Confirm.{
  settle_if_resolved, confirm_payout_transfer, leg_final, attempt_final, payout_entry,
}
use pods.Transfers.Run.{
  Call, payout_persists, payout_claims, payout_submits, payout_lates, payout_retries,
  payout_confirms, after, step, run,
}
use pods.Transfers.Audit.{is_live, live_of, books, replay, is_confirmed, IsSound}
use pods.Transfers.Audit.Run.{queued-IsSound, run-payout_once, run-replay}
use pods.Transfers.Audit.Settled.{
  IsResolved, settled_run, confirm_payout_transfer_idem, confirm_payout_transfer_settled,
}

abbrev number_id : ℕ → Text
number_id n = (48 + n) ∷ []

abbrev leg_of : Text → TransferLegType → Option Text → TransferLeg
leg_of id type right = record {
  id = id;
  idempotency_key = id;
  pod_id = codes "pod";
  membership_id = codes "m";
  deposit_intent_id = codes "d";
  settlement_entitlement_id = right;
  type = type;
  recipient_wallet = codes "wallet";
  amount_luna = 500;
  network = codes "testnet";
  state = TransferLegState.queued;
  raw_transaction_hex = none;
  transaction_hash = none;
  validity_start_height = none;
  prepared_at = none;
  broadcast_at = none;
  confirmed_at = none;
  last_attempt_at = none;
  error_code = none;
  created_at = 1;
  updated_at = 1;
}

abbrev right : SettlementEntitlement
right = record {
  id = codes "e1";
  settlement_run_id = codes "run";
  pod_id = codes "pod";
  membership_id = codes "m";
  deposit_intent_id = codes "d";
  state = transfer_queued;
  deposit_luna = 500;
  principal_luna = 500;
  provisional_forfeiture_luna = 0;
  restoration_luna = 0;
  bonus_luna = 0;
  payout_luna = 500;
  created_at = 1;
  updated_at = 1;
}

abbrev open_run : SettlementRun
open_run = record {
  id = codes "run";
  pod_id = codes "pod";
  contract_hash = codes "hash";
  calculator_version = 1;
  input_digest = codes "digest";
  state = executing;
  total_deposit_luna = 500;
  total_payout_luna = 500;
  finalized_at = 1;
  settled_at = none;
  created_at = 1;
  updated_at = 1;
}

-- What the settlement allocated to the member; the payout is queued in the same transaction.
abbrev allocated : LedgerEntry
allocated = record {
  id = codes "l1";
  idempotency_key = codes "settlement:run:allocation:o1:m";
  pod_id = codes "pod";
  membership_id = some (codes "m");
  deposit_intent_id = some (codes "d");
  movement_type = principal_allocation;
  debit_account = codes "participant_liability:m";
  credit_account = codes "occurrence_liability:o1:m";
  amount_luna = 500;
  created_at = 1;
}

abbrev start : Store
start = record {
  next_id = 0;
  transfer_legs =
      leg_of (codes "p1") payout (some (codes "e1")) ∷ leg_of (codes "r1") refund none ∷ [];
  transfer_attempts = [];
  transfer_events = [];
  ledger_entries = allocated ∷ [];
  settlement_runs = open_run ∷ [];
  settlement_entitlements = right ∷ [];
  deposit_intents = [];
  memberships = [];
  pods = [];
  occurrences = [];
  users = [];
  conversations = [];
  realtime_events = [];
}

-- An attempt that is sent too late, and the one that replaces it and is confirmed.
abbrev calls : List Call
calls =
    payout_persists (codes "p1") (codes "pods:payout:p1:1") (codes "aa") (codes "h1") 10 2
    ∷ payout_claims (codes "p1") (codes "0") 3
    ∷ payout_lates (codes "p1") (codes "0") 4
    ∷ payout_retries (codes "p1") (codes "0") (codes "ops") (codes "late") 5
    ∷ payout_persists (codes "p1") (codes "pods:payout:p1:2") (codes "bb") (codes "h2") 20 6
    ∷ payout_claims (codes "p1") (codes "5") 7
    ∷ payout_submits (codes "p1") (codes "5") 8
    ∷ payout_confirms (codes "p1") (codes "5") 9
    ∷ []

abbrev paid : TransferLeg
paid = record (leg_of (codes "p1") payout (some (codes "e1"))) {
  state = TransferLegState.confirmed;
  raw_transaction_hex = some (codes "bb");
  transaction_hash = some (codes "h2");
  validity_start_height = some 20;
  prepared_at = some 6;
  broadcast_at = some 8;
  confirmed_at = some 9;
  last_attempt_at = some 9;
  updated_at = 9;
}

paid_eq :
    find (payout_leg (codes "p1")) (run number_id number_id calls start).transfer_legs ≡ some paid
unfolding run step after patch if_found require same_text same_leg_state as_leg_state
    open_payout_state open_payout_attempt_state replaceable latest_attempt
    persist_payout_transfer_attempt claim_payout_broadcast mark_payout_transfer_broadcast
    transition_payout_attempt mark_payout_transfer_late request_payout_retry settle_if_resolved
    confirm_payout_transfer
paid_eq = refl

start-IsSound : IsSound start
unfolding same_text same_leg_state
start-IsSound = queued-IsSound start (refl, (refl, tt)) refl refl refl (λ k l f. refl)

run-payout_once_example :
    (count (live_of (codes "p1")) (run number_id number_id calls start).transfer_attempts ≡ 1)
    × (count (books (codes "p1")) (run number_id number_id calls start).ledger_entries ≡ 1)
unfolding is_live is_confirmed
run-payout_once_example =
    run-payout_once number_id number_id calls start (codes "p1") paid start-IsSound paid_eq

run-replay_example :
    replay (codes "p1") (run number_id number_id calls start).transfer_events
    ≡ some TransferLegState.confirmed
run-replay_example =
    run-replay number_id number_id calls start (codes "p1") paid start-IsSound paid_eq

abbrev sent_leg : TransferLeg
sent_leg = record (leg_of (codes "p1") payout (some (codes "e1"))) {
  state = TransferLegState.broadcast;
}

abbrev sent_attempt : TransferAttempt
sent_attempt =
    record (attempt_prepared (codes "a") (codes "p1") 1 (codes "ref") (codes "aa") (codes "h1") 10
      2) { state = TransferAttemptState.broadcast }

abbrev sent : Store
sent = record start { transfer_legs = sent_leg ∷ []; transfer_attempts = sent_attempt ∷ [] }

-- The tables after the confirmation at 9.
abbrev closed : Store
closed = record start {
  next_id = 2;
  transfer_legs = leg_final 9 sent_leg ∷ [];
  transfer_attempts = attempt_final 9 sent_attempt ∷ [];
  transfer_events =
      event_of (codes "1") (codes "p1") sent_attempt worker TransferLegState.broadcast
        TransferLegState.confirmed (codes "chain_finalized") 9
      ∷ [];
  ledger_entries = payout_entry number_id sent_leg right 9 sent ∷ allocated ∷ [];
  settlement_entitlements = record right { state = transfer_confirmed; updated_at = 9 } ∷ [];
  settlement_runs = record open_run { state = settled; settled_at = some 9; updated_at = 9 } ∷ [];
}

confirmed_eq :
    confirm_payout_transfer number_id (codes "p1") (codes "a") 9 sent
    ≡ ok (some (leg_final 9 sent_leg), closed)
unfolding patch if_found require same_text same_leg_state open_payout_state
    open_payout_attempt_state settle_if_resolved confirm_payout_transfer
confirmed_eq = refl

confirm_payout_transfer_idem_example :
    confirm_payout_transfer number_id (codes "p1") (codes "b") 20 closed
    ≡ ok (some (leg_final 9 sent_leg), closed)
confirm_payout_transfer_idem_example =
    confirm_payout_transfer_idem number_id (codes "p1") (codes "a") (codes "b") 9 20 sent closed
      (leg_final 9 sent_leg) (refl, tt) confirmed_eq

unsettled : (j : Text) → some_of (settled_run j) (open_run ∷ []) ≡ false
unsettled j = ground arith

start_IsResolved : IsResolved (open_run ∷ []) (right ∷ [])
unfolding IsResolved
start_IsResolved j h = cc (h, unsettled j)

confirm_payout_transfer_settled_example :
    IsResolved closed.settlement_runs closed.settlement_entitlements
confirm_payout_transfer_settled_example =
    confirm_payout_transfer_settled number_id (codes "p1") (codes "a") 9 sent closed
      (some (leg_final 9 sent_leg)) start_IsResolved confirmed_eq
