-- ===== src/Transfers/Confirm.antt =====
-- packages/db/src/transfer-repository.ts: `confirmPayoutTransfer`, which books a payout, settles the
-- run when it was the last one, and then completes the Pod.
use pods.Base.{
  ℕ, suc, Bool, true, false, not, ◌&&◌, Option, none, some, ◌∷◌, ◌++◌, ok, err, ◌>>=◌, Text, codes,
  same_text, find, ◌==◌, if◌then◌else◌,
}
use pods.Database.Rows.{
  TransferLeg, TransferLegState, TransferAttempt, TransferAttemptState, worker, LedgerEntry,
  payout_confirmed, SettlementRun, SettlementRunState, executing, settled, SettlementEntitlement,
  SettlementEntitlementState, transfer_confirmed, no_transfer_required, PodState, Pod, final_review,
  completed, Conversation, ConversationKind,
}
use pods.Database.Table.{returned, patch}
use pods.Database.Flow.{if_found, require}
use pods.Database.Store.{
  Store, Outcome, insert_entry, holds_text, not_confirmable, attempt_not_confirmable,
  entitlement_mismatch, payout_state_changed,
}
use pods.Transfers.States.{
  same_leg_state, open_payout_state, open_payout_attempt_state, payout_leg, attempt_of, update_legs,
  update_attempts,
}
use pods.Transfers.Payout.{record_event}

abbrev pub is_executing : SettlementRunState → Bool
is_executing executing = true
is_executing _ = false

-- `notInArray(state, ["transfer_confirmed", "no_transfer_required"])`.
abbrev pub is_resolved : SettlementEntitlementState → Bool
is_resolved transfer_confirmed = true
is_resolved no_transfer_required = true
is_resolved _ = false

abbrev pub in_final_review : PodState → Bool
in_final_review final_review = true
in_final_review _ = false

abbrev pub pod_conversation : Text → Conversation → Bool
pod_conversation pod_id c =
    holds_text c.pod_id pod_id
    && (elim c.kind [ ConversationKind.pod ↦ true | ConversationKind.direct ↦ false ])

abbrev pub unresolved_of : Text → SettlementEntitlement → Bool
unresolved_of run_id e = same_text e.settlement_run_id run_id && not (is_resolved e.state)

-- `pod.completed` to the Pod's conversation, where it has one.
abbrev pub announce_completed : Text → ℕ → Store → Store
announce_completed pod_id now s = if_found (find (pod_conversation pod_id) s.conversations) s λ c.
    record s {
      realtime_events =
          (record {
            conversation_id = c.id;
            recipient_user_id = none;
            kind = codes "pod.completed";
            payload = pod_id;
            created_at = now;
          })
          ∷ s.realtime_events;
    }

-- What follows when the run has no unresolved entitlement.
unfoldable pub settle_if_resolved : Text → ℕ → Store → Store
settle_if_resolved run_id now s =
    if_found (find (unresolved_of run_id) s.settlement_entitlements)
      (let its = λ (r : SettlementRun). same_text r.id run_id && is_executing r.state in
        let closed = λ (r : SettlementRun). record r {
          state = settled;
          settled_at = some now;
          updated_at = now;
        } in
        let s1 = record s { settlement_runs = patch its closed s.settlement_runs } in
        if_found (returned its closed s.settlement_runs) s1 λ run.
          let pod_its = λ (p : Pod). same_text p.id run.pod_id && in_final_review p.state in
          let finished = λ (p : Pod). record p {
            state = completed;
            completed_at = some now;
            updated_at = now;
          } in
          announce_completed run.pod_id now (record s1 { pods = patch pod_its finished s1.pods }))
      λ _. s

abbrev pub payout_key : Text → Text
payout_key leg_id = codes "payout-confirmed:" ++ leg_id

abbrev pub attempt_final : ℕ → TransferAttempt → TransferAttempt
attempt_final now a = record a {
  state = TransferAttemptState.confirmed;
  confirmed_at = some now;
  last_checked_at = some now;
  error_code = none;
  updated_at = now;
}

abbrev pub leg_final : ℕ → TransferLeg → TransferLeg
leg_final now l = record l {
  state = TransferLegState.confirmed;
  confirmed_at = some now;
  last_attempt_at = some now;
  error_code = none;
  updated_at = now;
}

module _ (uuid : ℕ → Text) where
  abbrev pub payout_entry : TransferLeg → SettlementEntitlement → ℕ → Store → LedgerEntry
  payout_entry leg entitlement now s = record {
    id = uuid s.next_id;
    idempotency_key = payout_key leg.id;
    pod_id = leg.pod_id;
    membership_id = some leg.membership_id;
    deposit_intent_id = some leg.deposit_intent_id;
    movement_type = payout_confirmed;
    debit_account =
        codes "payout_liability:"
        ++ entitlement.settlement_run_id
        ++ codes ":"
        ++ leg.membership_id;
    credit_account = codes "treasury_asset:" ++ leg.network;
    amount_luna = leg.amount_luna;
    created_at = now;
  }

  unfoldable pub confirm_payout_transfer : Text → Text → ℕ → Store → Outcome (Option TransferLeg)
  confirm_payout_transfer leg_id attempt_id now s =
      if_found (find (payout_leg leg_id) s.transfer_legs) (ok (none, s)) λ leg.
        if_found leg.settlement_entitlement_id (ok (none, s)) λ entitlement_id.
          if same_leg_state leg.state TransferLegState.confirmed
          then ok (some leg, s)
          else require (open_payout_state leg.state) not_confirmable (
              if_found (find (attempt_of attempt_id leg.id) s.transfer_attempts)
                (err attempt_not_confirmable)
                λ attempt.
                  require (open_payout_attempt_state attempt.state) attempt_not_confirmable (
                    if_found
                      (find (λ (e : SettlementEntitlement). same_text e.id entitlement_id)
                        s.settlement_entitlements)
                      (err entitlement_mismatch)
                      λ entitlement.
                        require (entitlement.payout_luna == leg.amount_luna) entitlement_mismatch (
                          insert_entry (payout_entry leg entitlement now s)
                            (record s { next_id = suc s.next_id })
                          >>= λ s1.
                              let its = λ (a : TransferAttempt). same_text a.id attempt.id in
                              let final_attempt = attempt_final now in
                              let s2 = update_attempts its final_attempt s1 in
                              let right =
                                λ (e : SettlementEntitlement). same_text e.id entitlement.id in
                              let paid = λ (e : SettlementEntitlement). record e {
                                state = transfer_confirmed;
                                updated_at = now;
                              } in
                              let s3 = record s2 {
                                settlement_entitlements =
                                    patch right paid s2.settlement_entitlements;
                              } in
                              let leg_its = λ (l : TransferLeg). same_text l.id leg.id in
                              let final_leg = leg_final now in
                              if_found (returned leg_its final_leg s3.transfer_legs)
                                (err payout_state_changed)
                                λ confirmed_leg.
                                  record_event uuid leg.id attempt worker leg.state
                                    TransferLegState.confirmed (codes "chain_finalized") now
                                    (update_legs leg_its final_leg s3)
                                  >>= λ s4. ok (
                                    some confirmed_leg,
                                    settle_if_resolved entitlement.settlement_run_id now s4,
                                  ))))
