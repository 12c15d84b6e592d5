-- ===== src/Funding/Tests.antt =====
-- packages/db/src/funding-repository.ts: a deposit that is observed, finalized and credited.
use pods.Base.{
  ℕ, ◌+◌, ◌≡◌, refl, true, false, none, some, List, [], ◌∷◌, Text, codes, find, same_text, is_space,
  nat, ◌<◌, ◌↔◌,
}
use pods.Deposit.Machine.{
  wallet_approval_pending, credited_provisional, next_deposit_state, DepositState-discrete,
  DepositActor-discrete, DepositEvent-discrete,
}
use mathlib.Core.Bool.{decide}
use pods.Database.Rows.{DepositIntent, Membership, MembershipState}
use pods.Database.Store.{Store}
use pods.Database.Table.{patch}
use pods.Database.Flow.{if_found, require}
use pods.Funding.{new_intent, intent_of, same_deposit_state, is_deposit_transaction_hash_claimed}
use pods.Funding.Steps.{
  Observation, record_observed_deposit, finalize_observed_deposit, credit_finalized_deposit,
}
use pods.Funding.Reconcile.{
  DepositIntentForValidation, DepositTransaction, DepositBlock, DepositChainContext, Pays,
  valid_finalized, classify, normalized_address, validate_observed_deposit,
  validate_observed_deposit_iff,
}
use pods.Funding.History.{Call, observes, finalizes, credits, step, run, Moves, run-Moves}

abbrev number_id : ℕ → Text
number_id n = (48 + n) ∷ []

abbrev intent : DepositIntent
intent =
    record (new_intent (codes "d1") (codes "m1") (codes "pod") (codes "u1") (codes "w") (codes "t")
      (codes "net") (codes "ref") 500 100 1) { state = wallet_approval_pending }

abbrev member : Membership
member = record {
  id = codes "m1";
  pod_id = codes "pod";
  user_id = codes "u1";
  state = MembershipState.deposit_pending;
  deposit_intent_id = some (codes "d1");
  accepted_contract_hash = none;
  updated_at = 1;
}

abbrev start : Store
start = record {
  next_id = 0;
  transfer_legs = [];
  transfer_attempts = [];
  transfer_events = [];
  ledger_entries = [];
  settlement_runs = [];
  settlement_entitlements = [];
  deposit_intents = intent ∷ [];
  memberships = member ∷ [];
  pods = [];
  occurrences = [];
  users = [];
  conversations = [];
  realtime_events = [];
}

abbrev observation : Observation
observation = record {
  transaction_hash = codes "h";
  observed_from = codes "w";
  observed_from_type = 0;
  observed_related_addresses = none;
  block_number = 7;
  transaction_index = 0;
  transaction_batch = 1;
}

abbrev calls : List Call
calls = observes (codes "d1") observation 2 ∷ finalizes (codes "d1") 3 ∷ credits (codes "d1") 4 ∷ []

abbrev credited : DepositIntent
credited = record intent {
  state = credited_provisional;
  transaction_hash = some (codes "h");
  observed_from = some (codes "w");
  observed_from_type = some 0;
  observed_related_addresses = some [];
  block_number = some 7;
  transaction_index = some 0;
  transaction_batch = some 1;
  observed_at = some 2;
  finalized_at = some 3;
  credited_at = some 4;
  updated_at = 4;
}

credited_eq :
    find (intent_of (codes "d1")) (run number_id calls start).deposit_intents ≡ some credited
unfolding run step patch if_found require same_text same_deposit_state
    is_deposit_transaction_hash_claimed record_observed_deposit finalize_observed_deposit
    credit_finalized_deposit next_deposit_state DepositState-discrete DepositActor-discrete
    DepositEvent-discrete decide
credited_eq = refl

run-Moves_example :
    (d' : DepositIntent) × (find
        (intent_of (codes "d1"))
        (run number_id calls start).deposit_intents
      ≡ some d')
    × Moves wallet_approval_pending d'.state
unfolding same_text
run-Moves_example = run-Moves number_id calls start (codes "d1") {d = intent} refl

abbrev for_validation : DepositIntentForValidation
for_validation = record {
  id = codes "d1";
  wallet_address = codes "W";
  treasury_address = codes "T";
  amount_luna = 500;
  network = codes "testnet";
  reference = codes "ref";
}

abbrev transaction : DepositTransaction
transaction = record {
  hash = codes "h";
  from = codes "W";
  from_type = 0;
  to = codes "T ";
  value = nat 500;
  recipient_data = codes "ref";
  network_id = 5;
  execution_result = true;
  block_number = 7;
  transaction_index = 0;
  related_addresses = [];
}

abbrev block_of : ℕ → DepositBlock
block_of batch = record { number = 7; batch = batch; network = codes "testalbatross" }

abbrev context : DepositChainContext
context = record {
  containing_block = block_of 1;
  latest_block = block_of 2;
  matching_reference_count = 1;
  hash_claimed_by_another_intent = false;
}

abbrev same : Text → Text
same s = s

validate_observed_deposit_iff_example :
    ((validate_observed_deposit same same for_validation transaction (some context)).0
      ≡ valid_finalized)
    ↔ (Pays same same for_validation transaction context × (1 < 2))
validate_observed_deposit_iff_example =
    validate_observed_deposit_iff same same for_validation transaction context

transaction_finalized :
    (validate_observed_deposit same same for_validation transaction (some context)).0
    ≡ valid_finalized
unfolding validate_observed_deposit classify normalized_address same_text is_space
transaction_finalized = refl
