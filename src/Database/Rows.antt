-- ===== src/Database/Rows.antt =====
-- packages/db/src/schema.ts: the rows of the tables, with the columns that the modelled operations
-- read or write, and the states in them (packages/domain/src). A time is in milliseconds.
use pods.Base.{ℕ, Option, List, Text}
use pods.Contract.Types.{PublishedPodContract}
use pods.Deposit.Machine.{DepositState}

pub data TransferLegType : Type 0 where
  refund payout : TransferLegType

pub data TransferLegState : Type 0 where
  queued prepared broadcast unknown retryable_failed mismatched late confirmed manual_review :
      TransferLegState

pub data TransferAttemptState : Type 0 where
  prepared broadcast unknown retryable_failed mismatched late confirmed manual_review :
      TransferAttemptState

pub data SettlementRunState : Type 0 where
  executing settled manual_review : SettlementRunState

pub data SettlementEntitlementState : Type 0 where
  transfer_queued no_transfer_required transfer_confirmed manual_review : SettlementEntitlementState

pub data MembershipState : Type 0 where
  applied accepted_unfunded application_rejected application_expired invite_expired
        deposit_pending :
      MembershipState
  funding_failed funded_provisional roster_locked active excluded_at_cutoff refund_pending
        refunded :
      MembershipState

pub data PodState : Type 0 where
  draft enrollment_open cutoff_evaluating locked_scheduled active final_review completed : PodState
  cancelled_refunding cancelled : PodState

pub data LedgerMovementType : Type 0 where
  deposit_credit refund_entitlement refund_confirmed principal_allocation principal_protection :
      LedgerMovementType
  provisional_forfeiture bonus_entitlement zero_recipient_restoration payout_confirmed :
      LedgerMovementType

pub data DepositExceptionCode : Type 0 where
  wrong_network transaction_not_observed reference_missing reference_duplicate :
      DepositExceptionCode
  reference_expired reference_mismatch amount_mismatch recipient_mismatch : DepositExceptionCode
  execution_failed finalized_after_cutoff capacity_excluded : DepositExceptionCode

pub record TransferLeg : Type 0 where
  pub id : Text
  pub idempotency_key : Text
  pub pod_id : Text
  pub membership_id : Text
  pub deposit_intent_id : Text
  pub settlement_entitlement_id : Option Text
  pub type : TransferLegType
  pub recipient_wallet : Text
  pub amount_luna : ℕ
  pub network : Text
  pub state : TransferLegState
  pub raw_transaction_hex : Option Text
  pub transaction_hash : Option Text
  pub validity_start_height : Option ℕ
  pub prepared_at : Option ℕ
  pub broadcast_at : Option ℕ
  pub confirmed_at : Option ℕ
  pub last_attempt_at : Option ℕ
  pub error_code : Option Text
  pub created_at : ℕ
  pub updated_at : ℕ

pub record TransferAttempt : Type 0 where
  pub id : Text
  pub transfer_leg_id : Text
  pub sequence : ℕ
  pub state : TransferAttemptState
  pub data_reference : Text
  pub raw_transaction_hex : Text
  pub transaction_hash : Text
  pub validity_start_height : ℕ
  pub prepared_at : ℕ
  pub broadcast_at : Option ℕ
  pub confirmed_at : Option ℕ
  pub last_checked_at : Option ℕ
  pub error_code : Option Text
  pub created_at : ℕ
  pub updated_at : ℕ

pub data TransferEventActor : Type 0 where
  worker operations : TransferEventActor

pub record TransferEvent : Type 0 where
  pub id : Text
  pub transfer_leg_id : Text
  pub transfer_attempt_id : Option Text
  pub actor : TransferEventActor
  pub from_state : TransferLegState
  pub to_state : TransferLegState
  pub reason : Text
  pub created_at : ℕ

pub record LedgerEntry : Type 0 where
  pub id : Text
  pub idempotency_key : Text
  pub pod_id : Text
  pub membership_id : Option Text
  pub deposit_intent_id : Option Text
  pub movement_type : LedgerMovementType
  pub debit_account : Text
  pub credit_account : Text
  pub amount_luna : ℕ
  pub created_at : ℕ

pub record SettlementRun : Type 0 where
  pub id : Text
  pub pod_id : Text
  pub contract_hash : Text
  pub calculator_version : ℕ
  pub input_digest : Text
  pub state : SettlementRunState
  pub total_deposit_luna : ℕ
  pub total_payout_luna : ℕ
  pub finalized_at : ℕ
  pub settled_at : Option ℕ
  pub created_at : ℕ
  pub updated_at : ℕ

pub record SettlementEntitlement : Type 0 where
  pub id : Text
  pub settlement_run_id : Text
  pub pod_id : Text
  pub membership_id : Text
  pub deposit_intent_id : Text
  pub state : SettlementEntitlementState
  pub deposit_luna : ℕ
  pub principal_luna : ℕ
  pub provisional_forfeiture_luna : ℕ
  pub restoration_luna : ℕ
  pub bonus_luna : ℕ
  pub payout_luna : ℕ
  pub created_at : ℕ
  pub updated_at : ℕ

pub record DepositIntent : Type 0 where
  pub id : Text
  pub membership_id : Text
  pub pod_id : Text
  pub user_id : Text
  pub wallet_address : Text
  pub treasury_address : Text
  pub network : Text
  pub reference : Text
  pub amount_luna : ℕ
  pub state : DepositState
  pub expires_at : ℕ
  pub transaction_hash : Option Text
  pub observed_from : Option Text
  pub observed_from_type : Option ℕ
  pub observed_related_addresses : Option (List Text)
  pub block_number : Option ℕ
  pub transaction_index : Option ℕ
  pub transaction_batch : Option ℕ
  pub observed_at : Option ℕ
  pub finalized_at : Option ℕ
  pub credited_at : Option ℕ
  pub exception_code : Option DepositExceptionCode
  pub created_at : ℕ
  pub updated_at : ℕ

pub record Membership : Type 0 where
  pub id : Text
  pub pod_id : Text
  pub user_id : Text
  pub state : MembershipState
  pub deposit_intent_id : Option Text
  pub accepted_contract_hash : Option Text
  pub updated_at : ℕ

pub record Pod : Type 0 where
  pub id : Text
  pub creator_user_id : Text
  pub state : PodState
  pub contract_data : Option PublishedPodContract
  pub contract_hash : Option Text
  pub completed_at : Option ℕ
  pub updated_at : ℕ

pub record Occurrence : Type 0 where
  pub id : Text
  pub pod_id : Text
  pub ordinal : ℕ
  pub opens_at : ℕ
  pub closes_at : ℕ

pub record User : Type 0 where
  pub id : Text
  pub wallet_address : Text

pub data ConversationKind : Type 0 where
  pod direct : ConversationKind

pub record Conversation : Type 0 where
  pub id : Text
  pub pod_id : Option Text
  pub kind : ConversationKind

-- `payload` is `{ podId }`.
pub record RealtimeEvent : Type 0 where
  pub conversation_id : Text
  pub recipient_user_id : Option Text
  pub kind : Text
  pub payload : Text
  pub created_at : ℕ
