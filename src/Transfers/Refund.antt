-- ===== src/Transfers/Refund.antt =====
-- packages/db/src/transfer-repository.ts: the operations on the transfer of a refund.
use pods.Base.{
  ℕ, suc, Bool, true, false, not, ◌&&◌, Option, none, some, ◌++◌, ok, err, ◌>>=◌, Text, codes,
  same_text, find, ◌==◌, if◌then◌else◌,
}
use pods.Database.Rows.{
  TransferLeg, TransferLegState, LedgerEntry, refund_confirmed, DepositIntent, Membership,
  MembershipState, excluded_at_cutoff, PodState, Pod, cancelled_refunding, cancelled,
}
use pods.Transfers.Payout.{leg_readied, leg_submitted, leg_marked}
use pods.Transfers.Confirm.{leg_final}
use pods.Deposit.Machine.{DepositState}
use pods.Database.Table.{returned, patch}
use pods.Database.Flow.{if_found, require}
use pods.Database.Store.{
  Store, Outcome, insert_entry, holds_text, hash_taken, unique_violation, refund_bytes_immutable,
  refund_not_queued, refund_not_prepared, refund_state_changed, refund_not_confirmable,
}
use pods.Transfers.States.{same_leg_state, sent_or_ready, refund_leg, is_refund, update_legs}

abbrev pub holds_number : Option ℕ → ℕ → Bool
holds_number none n = false
holds_number (some m) n = m == n

abbrev pub same_bytes : TransferLeg → Text → Text → ℕ → Bool
same_bytes leg raw_transaction_hex transaction_hash validity_start_height =
    holds_text leg.raw_transaction_hex raw_transaction_hex
    && holds_text leg.transaction_hash transaction_hash
    && holds_number leg.validity_start_height validity_start_height

unfoldable pub mark_refund_transfer_prepared :
    Text → Text → Text → ℕ → ℕ → Store → Outcome (Option TransferLeg)
mark_refund_transfer_prepared leg_id raw_transaction_hex transaction_hash validity_start_height now
      s =
    if_found (find (refund_leg leg_id) s.transfer_legs) (ok (none, s)) λ leg.
      if same_leg_state leg.state TransferLegState.prepared
      then require (same_bytes leg raw_transaction_hex transaction_hash validity_start_height)
          refund_bytes_immutable (ok (some leg, s))
      else require (same_leg_state leg.state TransferLegState.queued) refund_not_queued (
          let its = λ (l : TransferLeg).
            same_text l.id leg.id && same_leg_state l.state TransferLegState.queued in
          let readied =
            leg_readied raw_transaction_hex transaction_hash validity_start_height now in
          if_found (returned its readied s.transfer_legs) (err refund_state_changed) λ ready.
            require (not (hash_taken leg.id transaction_hash s)) unique_violation
              (ok (some ready, update_legs its readied s)))

unfoldable pub mark_refund_transfer_broadcast : Text → ℕ → Store → Outcome (Option TransferLeg)
mark_refund_transfer_broadcast leg_id now s =
    if_found (find (refund_leg leg_id) s.transfer_legs) (ok (none, s)) λ leg.
      if same_leg_state leg.state TransferLegState.broadcast
      then ok (some leg, s)
      else require (same_leg_state leg.state TransferLegState.prepared) refund_not_prepared (
          let its = λ (l : TransferLeg).
            same_text l.id leg.id && same_leg_state l.state TransferLegState.prepared in
          let submitted = leg_submitted now in
          if_found (returned its submitted s.transfer_legs) (err refund_state_changed)
            λ updated. ok (some updated, update_legs its submitted s))

-- The statement of `markRefundTransferUnknown`, `…RetryableFailed` and `…Mismatched`.
abbrev pub mark_refund_transfer :
    TransferLegState → Text → Text → ℕ → Store → Outcome (Option TransferLeg)
mark_refund_transfer state leg_id error_code now s =
    let its = λ (l : TransferLeg). refund_leg leg_id l && sent_or_ready l.state in
    let moved = leg_marked state (some error_code) now in
    ok (returned its moved s.transfer_legs, update_legs its moved s)

unfoldable pub mark_refund_transfer_unknown : Text → Text → ℕ → Store → Outcome (Option TransferLeg)
mark_refund_transfer_unknown = mark_refund_transfer TransferLegState.unknown

unfoldable pub mark_refund_transfer_retryable_failed :
    Text → Text → ℕ → Store → Outcome (Option TransferLeg)
mark_refund_transfer_retryable_failed = mark_refund_transfer TransferLegState.retryable_failed

unfoldable pub mark_refund_transfer_mismatched :
    Text → Text → ℕ → Store → Outcome (Option TransferLeg)
mark_refund_transfer_mismatched = mark_refund_transfer TransferLegState.mismatched

abbrev pub refund_pending_intent : DepositState → Bool
refund_pending_intent DepositState.refund_pending = true
refund_pending_intent _ = false

-- `inArray(memberships.state, ["refund_pending", "excluded_at_cutoff"])`.
abbrev pub awaits_refund : MembershipState → Bool
awaits_refund MembershipState.refund_pending = true
awaits_refund excluded_at_cutoff = true
awaits_refund _ = false

abbrev pub is_cancelled_refunding : PodState → Bool
is_cancelled_refunding cancelled_refunding = true
is_cancelled_refunding _ = false

abbrev pub unconfirmed_refund_of : Text → TransferLeg → Bool
unconfirmed_refund_of pod_id l =
    same_text l.pod_id pod_id
    && is_refund l.type
    && not (same_leg_state l.state TransferLegState.confirmed)

-- The Pod is cancelled when none of its refunds is left to confirm.
unfoldable pub cancel_if_refunded : Text → ℕ → Store → Store
cancel_if_refunded pod_id now s =
    if_found (find (unconfirmed_refund_of pod_id) s.transfer_legs)
      (let its = λ (p : Pod). same_text p.id pod_id && is_cancelled_refunding p.state in
        record s {
          pods = patch its (λ (p : Pod). record p { state = cancelled; updated_at = now }) s.pods;
        })
      λ _. s

abbrev pub refund_key : Text → Text
refund_key leg_id = codes "refund-confirmed:" ++ leg_id

module _ (uuid : ℕ → Text) where
  abbrev pub refund_entry : TransferLeg → ℕ → Store → LedgerEntry
  refund_entry leg now s = record {
    id = uuid s.next_id;
    idempotency_key = refund_key leg.id;
    pod_id = leg.pod_id;
    membership_id = some leg.membership_id;
    deposit_intent_id = some leg.deposit_intent_id;
    movement_type = refund_confirmed;
    debit_account = codes "refund_liability:" ++ leg.id;
    credit_account = codes "treasury_asset:" ++ leg.network;
    amount_luna = leg.amount_luna;
    created_at = now;
  }

  unfoldable pub confirm_refund_transfer : Text → ℕ → Store → Outcome (Option TransferLeg)
  confirm_refund_transfer leg_id now s =
      if_found (find (refund_leg leg_id) s.transfer_legs) (ok (none, s)) λ leg.
        if same_leg_state leg.state TransferLegState.confirmed
        then ok (some leg, s)
        else require (sent_or_ready leg.state) refund_not_confirmable (
            insert_entry (refund_entry leg now s) (record s { next_id = suc s.next_id }) >>= λ s1.
            let intent_its = λ (d : DepositIntent).
              same_text d.id leg.deposit_intent_id && refund_pending_intent d.state in
            let repaid =
              λ (d : DepositIntent). record d { state = DepositState.refunded; updated_at = now } in
            let s2 = record s1 { deposit_intents = patch intent_its repaid s1.deposit_intents } in
            let member_its =
              λ (m : Membership). same_text m.id leg.membership_id && awaits_refund m.state in
            let left =
              λ (m : Membership). record m { state = MembershipState.refunded; updated_at = now } in
            let s3 = record s2 { memberships = patch member_its left s2.memberships } in
            let its = λ (l : TransferLeg).
              same_text l.id leg.id && not (same_leg_state l.state TransferLegState.confirmed) in
            let final_leg = leg_final now in
            if_found (returned its final_leg s3.transfer_legs) (err refund_state_changed)
              λ confirmed_leg. ok (
                some confirmed_leg,
                cancel_if_refunded leg.pod_id now (update_legs its final_leg s3),
              ))
