-- ===== src/Settlement/Types.antt =====
-- The data of packages/domain/src/settlement.ts. A state of the input is the string that it is at
-- run time; an amount of the result is a natural number of Luna.
use pods.Base.{ℕ, Option, none, some, List, Text, Number, codes, same_text, if◌then◌else◌}

pub data SettlementOutcomeState : Type 0 where
  approved timeout_protected rejected missed : SettlementOutcomeState

pub data SettlementOccurrenceState : Type 0 where
  closed closed_no_bonus_recipient : SettlementOccurrenceState

pub record SettlementMemberInput : Type 0 where
  pub membership_id : Text
  pub deposit_luna : Number

pub record SettlementOutcomeInput : Type 0 where
  pub membership_id : Text
  pub state : Text

pub record SettlementOccurrenceInput : Type 0 where
  pub occurrence_id : Text
  pub outcomes : List SettlementOutcomeInput

pub record SettlementInput : Type 0 where
  pub luna_per_occurrence : Number
  pub members : List SettlementMemberInput
  pub occurrences : List SettlementOccurrenceInput

pub record CalculatedSettlementOutcome : Type 0 where
  pub membership_id : Text
  pub state : SettlementOutcomeState
  pub principal_luna : ℕ
  pub provisional_forfeiture_luna : ℕ
  pub restoration_luna : ℕ
  pub bonus_luna : ℕ
  pub payout_luna : ℕ

pub record CalculatedSettlementOccurrence : Type 0 where
  pub occurrence_id : Text
  pub state : SettlementOccurrenceState
  pub forfeiture_pool_luna : ℕ
  pub bonus_recipient_count : ℕ
  pub outcomes : List CalculatedSettlementOutcome

pub record CalculatedSettlementMember : Type 0 where
  pub membership_id : Text
  pub deposit_luna : ℕ
  pub principal_luna : ℕ
  pub provisional_forfeiture_luna : ℕ
  pub restoration_luna : ℕ
  pub bonus_luna : ℕ
  pub payout_luna : ℕ

pub record CalculatedSettlement : Type 0 where
  pub luna_per_occurrence : ℕ
  pub total_deposit_luna : ℕ
  pub total_payout_luna : ℕ
  pub occurrences : List CalculatedSettlementOccurrence
  pub members : List CalculatedSettlementMember

-- A constructor for each message that is thrown.
pub data SettlementError : Type 0 where
  invalid_slice no_members no_occurrences allocation_too_large : SettlementError
  members_not_unique invalid_deposit deposit_mismatch : SettlementError
  occurrences_not_unique outcomes_incomplete pool_too_large : SettlementError
  payout_too_large total_missing : SettlementError
  principal_too_large forfeiture_too_large restoration_too_large : SettlementError
  bonus_too_large member_payout_too_large : SettlementError
  deposit_total_too_large payout_total_too_large not_conserved : SettlementError

-- `terminalStates.has(state)`, with the state that was found.
unfoldable pub terminal_state : Text → Option SettlementOutcomeState
terminal_state s =
    if same_text s (codes "approved")
    then some approved
    else if same_text s (codes "timeout_protected")
    then some timeout_protected
    else if same_text s (codes "rejected")
    then some rejected
    else if same_text s (codes "missed")
    then some missed
    else none
