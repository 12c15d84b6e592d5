-- ===== src/Funding.antt =====
-- packages/db/src/funding-repository.ts: the deposits of members, from the intent to the credit.
-- `uuid` stands for `randomUUID`.
pub mod Steps
pub mod Moves
pub mod History
pub mod Reconcile
mod Tests
use pods.Base.{
  ℕ, suc, ◌≡◌, refl, Bool, true, false, not, ◌&&◌, ◌||◌, Option, none, some, List, [], ◌∷◌, ◌++◌,
  Text, codes, same_text, find, all, length, is_digit, ltb, leb, ◌==◌, ok, err, ◌>>=◌, Result,
  some_of, if◌then◌else◌,
}
use pods.Contract.Types.{PublishedPodContract, SettlementMode, proportional, full_refund_alpha}
use pods.Contract.Publish.{is_public_visitor_contract}
use pods.Deposit.Machine.{
  DepositState, intent_created, wallet_approval_pending, wallet_rejected, transaction_submitted,
  observed, finalized, credited_provisional, applied_to_roster, exception_review, refund_pending,
  refunded, DepositEvent, open_wallet, wallet_reject, submit_hint, observe, finalize, credit,
  flag_exception, client, worker, next_deposit_state,
}
use pods.Database.Rows.{
  DepositIntent, DepositExceptionCode, finalized_after_cutoff, Membership, MembershipState,
  accepted_unfunded, funding_failed, deposit_pending, funded_provisional, Pod, PodState,
  enrollment_open, Occurrence, User, LedgerEntry, deposit_credit,
}
use pods.Database.Table.{patch, returned}
use pods.Database.Flow.{if_found, require}
use pods.Database.Store.{
  Store, StoreError, Outcome, holds_text, insert_entry, open_deposit_intent, not_eligible_to_fund,
  pod_not_accepting, contract_not_accepted, funding_cutoff_passed, wallet_mismatch,
  membership_state_changed, wallet_event_invalid, intent_state_changed, invalid_hash, hint_invalid,
  hash_claimed, other_exception, review_invalid, observe_invalid, finalize_invalid, credit_invalid,
  other_intent, unique_violation,
}

-- `===` on the states.
abbrev pub deposit_state_code : DepositState → ℕ
deposit_state_code intent_created = 0
deposit_state_code wallet_approval_pending = 1
deposit_state_code wallet_rejected = 2
deposit_state_code transaction_submitted = 3
deposit_state_code observed = 4
deposit_state_code finalized = 5
deposit_state_code credited_provisional = 6
deposit_state_code applied_to_roster = 7
deposit_state_code exception_review = 8
deposit_state_code refund_pending = 9
deposit_state_code refunded = 10

unfoldable pub same_deposit_state : DepositState → DepositState → Bool
same_deposit_state s t = deposit_state_code s == deposit_state_code t

abbrev pub exception_number : DepositExceptionCode → ℕ
exception_number DepositExceptionCode.wrong_network = 0
exception_number DepositExceptionCode.transaction_not_observed = 1
exception_number DepositExceptionCode.reference_missing = 2
exception_number DepositExceptionCode.reference_duplicate = 3
exception_number DepositExceptionCode.reference_expired = 4
exception_number DepositExceptionCode.reference_mismatch = 5
exception_number DepositExceptionCode.amount_mismatch = 6
exception_number DepositExceptionCode.recipient_mismatch = 7
exception_number DepositExceptionCode.execution_failed = 8
exception_number DepositExceptionCode.finalized_after_cutoff = 9
exception_number DepositExceptionCode.capacity_excluded = 10

abbrev pub holds_code : Option DepositExceptionCode → DepositExceptionCode → Bool
holds_code none code = false
holds_code (some c) code = exception_number c == exception_number code

abbrev pub membership_code : MembershipState → ℕ
membership_code MembershipState.applied = 0
membership_code MembershipState.accepted_unfunded = 1
membership_code MembershipState.application_rejected = 2
membership_code MembershipState.application_expired = 3
membership_code MembershipState.invite_expired = 4
membership_code MembershipState.deposit_pending = 5
membership_code MembershipState.funding_failed = 6
membership_code MembershipState.funded_provisional = 7
membership_code MembershipState.roster_locked = 8
membership_code MembershipState.active = 9
membership_code MembershipState.excluded_at_cutoff = 10
membership_code MembershipState.refund_pending = 11
membership_code MembershipState.refunded = 12

abbrev pub same_membership_state : MembershipState → MembershipState → Bool
same_membership_state s t = membership_code s == membership_code t

-- `["accepted_unfunded", "funding_failed"].includes(state)`.
abbrev pub can_fund : MembershipState → Bool
can_fund accepted_unfunded = true
can_fund funding_failed = true
can_fund _ = false

abbrev pub is_enrollment_open : PodState → Bool
is_enrollment_open enrollment_open = true
is_enrollment_open _ = false

abbrev pub is_proportional : SettlementMode → Bool
is_proportional proportional = true
is_proportional full_refund_alpha = false

-- `===` on a text that may be missing from the input and a nullable column: `undefined` is not `null`.
abbrev pub same_given : Option Text → Option Text → Bool
same_given none column = false
same_given (some text) column = holds_text column text

-- `===` on two nullable columns.
abbrev pub same_option : Option Text → Option Text → Bool
same_option none none = true
same_option (some s) (some t) = same_text s t
same_option _ _ = false

-- `/^[a-f0-9]{64}$/`.
abbrev pub is_lower_hex : ℕ → Bool
is_lower_hex c = is_digit c || (leb 97 c && leb c 102)

unfoldable pub is_transaction_hash : Text → Bool
is_transaction_hash hash = length hash == 64 && all is_lower_hex hash

-- `eq(depositIntents.id, id)`, with the owner where the statement has it.
abbrev pub intent_of : Text → DepositIntent → Bool
intent_of id d = same_text d.id id

abbrev pub intent_of_user : Text → Text → DepositIntent → Bool
intent_of_user id user_id d = same_text d.id id && same_text d.user_id user_id

-- `and(eq(depositIntents.id, intent.id), eq(depositIntents.state, intent.state))`.
abbrev pub still : DepositIntent → DepositIntent → Bool
still intent d = same_text d.id intent.id && same_deposit_state d.state intent.state

abbrev pub update_intents : (DepositIntent → Bool) → (DepositIntent → DepositIntent) → Store → Store
update_intents where_ set s = record s { deposit_intents = patch where_ set s.deposit_intents }

abbrev pub update_memberships : (Membership → Bool) → (Membership → Membership) → Store → Store
update_memberships where_ set s = record s { memberships = patch where_ set s.memberships }

-- Another intent has the transaction hash.
unfoldable pub is_deposit_transaction_hash_claimed : Text → Text → Store → Bool
is_deposit_transaction_hash_claimed transaction_hash intent_id s =
    some_of
      (λ (d : DepositIntent).
        holds_text d.transaction_hash transaction_hash && not (same_text d.id intent_id))
      s.deposit_intents

unfoldable pub get_deposit_intent_for_user : Text → Text → Store → Option DepositIntent
get_deposit_intent_for_user user_id intent_id s =
    find (intent_of_user intent_id user_id) s.deposit_intents

abbrev pub intent_conflicts : DepositIntent → DepositIntent → Bool
intent_conflicts new old = same_text old.id new.id || same_text old.reference new.reference

-- The columns of a new intent; the membership, the Pod, the user and the first occurrence fill it.
abbrev pub new_intent :
    Text → Text → Text → Text → Text → Text → Text → Text → ℕ → ℕ → ℕ → DepositIntent
new_intent id membership_id pod_id user_id wallet_address treasury_address network reference
      amount_luna expires_at now =
    record {
      id = id;
      membership_id = membership_id;
      pod_id = pod_id;
      user_id = user_id;
      wallet_address = wallet_address;
      treasury_address = treasury_address;
      network = network;
      reference = reference;
      amount_luna = amount_luna;
      state = intent_created;
      expires_at = expires_at;
      transaction_hash = none;
      observed_from = none;
      observed_from_type = none;
      observed_related_addresses = none;
      block_number = none;
      transaction_index = none;
      transaction_batch = none;
      observed_at = none;
      finalized_at = none;
      credited_at = none;
      exception_code = none;
      created_at = now;
      updated_at = now;
    }

-- What a client sends to open a deposit.
pub record FundingInput : Type 0 where
  pub pod_id : Text
  pub user_id : Text
  pub wallet_address : Text
  pub treasury_address : Text
  pub network : Text
  pub reference : Text
  pub accepted_contract_hash : Option Text
  pub settlement_disclosure_accepted : Option Bool

abbrev pub is_some_true : Option Bool → Bool
is_some_true (some true) = true
is_some_true _ = false

abbrev pub has_intent : Option Membership → Bool
has_intent none = false
has_intent (some m) = elim m.deposit_intent_id [ none ↦ false | some _ ↦ true ]
