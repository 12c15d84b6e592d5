-- ===== src/Transfers/Audit/Run.antt =====
-- packages/db/src/transfer-repository.ts: what holds after any sequence of calls.
use mathlib.Core.Path.{subst}
use pods.Base.{
  sym, ap, ◌∙◌, Bool-cases, inl, inr, ℕ, ◌≡◌, refl, Bool, true, false, some, List, [], ◌∷◌, Text,
  IsUnique, has, same_text_iff, find, one_if, count, all, ok, err, arith, &&-eq-true,
}
use pods.Database.Rows.{
  TransferLeg, TransferLegState, TransferAttempt, TransferAttemptState, TransferEvent, LedgerEntry,
}
use pods.Database.Table.{ids}
use pods.Database.Flow.{After}
use pods.Database.Store.{Store, Outcome}
use pods.Transfers.States.{as_leg_state, same_leg_state, same_leg_state-eq, payout_leg}
use pods.Transfers.Payout.{
  mark_payout_transfer_unknown, mark_payout_transfer_retryable_failed,
  mark_payout_transfer_mismatched, mark_payout_transfer_late,
}
use pods.Transfers.Refund.{
  mark_refund_transfer_unknown, mark_refund_transfer_retryable_failed,
  mark_refund_transfer_mismatched,
}
use pods.Transfers.Run.{
  Call, payout_persists, payout_retries, payout_claims, payout_submits, payout_lates, payout_checks,
  payout_confirms, payout_unknowns, payout_fails, payout_mismatches, refund_prepares,
  refund_submits, refund_confirms, refund_unknowns, refund_fails, refund_mismatches, after, step,
  run,
}
use pods.Transfers.Audit.{is_live, live_of, replay, is_confirmed, books, Agrees, Sound, IsSound}
use pods.Transfers.Audit.Payout.{
  Keeps, transition_payout_attempt-Sound, claim_payout_broadcast-Sound,
  mark_payout_transfer_broadcast-Sound,
}
use pods.Transfers.Audit.Replace.{
  request_payout_retry-Sound, persist_payout_transfer_attempt-Sound,
  mark_payout_transfer_checked-Sound,
}
use pods.Transfers.Audit.Confirm.{confirm_payout_transfer-Sound}
use pods.Transfers.Audit.Refund.{
  mark_refund_transfer_prepared-Sound, mark_refund_transfer_broadcast-Sound,
  mark_refund_transfer-Sound, confirm_refund_transfer-Sound,
}

module _ (uuid print_number : ℕ → Text) where
  committed :
      {A : Type 0} (o : Outcome A) (s : Store)
      → IsSound s
      → After (Keeps uuid {A = A}) o
      → IsSound (after o s)
  unfolding after
  committed (ok (a, s')) s v h = h
  committed (err e) s v h = v

  pub step-IsSound : (c : Call) (s : Store) → IsSound s → IsSound (step uuid print_number c s)
  unfolding step as_leg_state mark_payout_transfer_unknown mark_payout_transfer_retryable_failed
      mark_payout_transfer_mismatched mark_payout_transfer_late mark_refund_transfer_unknown
      mark_refund_transfer_retryable_failed mark_refund_transfer_mismatched is_confirmed
  step-IsSound (payout_persists leg reference hex hash height now) s v = committed _ s v (
      persist_payout_transfer_attempt-Sound uuid print_number leg reference hex hash height now s v)
  step-IsSound (payout_retries leg attempt actor reason now) s v =
      committed _ s v (request_payout_retry-Sound uuid leg attempt actor reason now s v)
  step-IsSound (payout_claims leg attempt now) s v =
      committed _ s v (claim_payout_broadcast-Sound uuid leg attempt now s v)
  step-IsSound (payout_submits leg attempt now) s v =
      committed _ s v (mark_payout_transfer_broadcast-Sound uuid leg attempt now s v)
  step-IsSound (payout_lates leg attempt now) s v = committed _ s v (
      transition_payout_attempt-Sound uuid leg attempt TransferAttemptState.late _ _ now s refl refl
        v)
  step-IsSound (payout_checks leg attempt now) s v =
      committed _ s v (mark_payout_transfer_checked-Sound uuid leg attempt now s v)
  step-IsSound (payout_confirms leg attempt now) s v =
      committed _ s v (confirm_payout_transfer-Sound uuid leg attempt now s v)
  step-IsSound (payout_unknowns leg attempt code now) s v = committed _ s v (
      transition_payout_attempt-Sound uuid leg attempt TransferAttemptState.unknown _ _ now s refl
        refl v)
  step-IsSound (payout_fails leg attempt code now) s v = committed _ s v (
      transition_payout_attempt-Sound uuid leg attempt TransferAttemptState.retryable_failed _ _ now
        s refl refl v)
  step-IsSound (payout_mismatches leg attempt code now) s v = committed _ s v (
      transition_payout_attempt-Sound uuid leg attempt TransferAttemptState.mismatched _ _ now s
        refl refl v)
  step-IsSound (refund_prepares leg hex hash height now) s v =
      committed _ s v (mark_refund_transfer_prepared-Sound uuid leg hex hash height now s v)
  step-IsSound (refund_submits leg now) s v =
      committed _ s v (mark_refund_transfer_broadcast-Sound uuid leg now s v)
  step-IsSound (refund_confirms leg now) s v =
      committed _ s v (confirm_refund_transfer-Sound uuid leg now s v)
  step-IsSound (refund_unknowns leg code now) s v =
      committed _ s v (mark_refund_transfer-Sound uuid TransferLegState.unknown leg code now s v)
  step-IsSound (refund_fails leg code now) s v =
      committed _ s v
        (mark_refund_transfer-Sound uuid TransferLegState.retryable_failed leg code now s v)
  step-IsSound (refund_mismatches leg code now) s v =
      committed _ s v (mark_refund_transfer-Sound uuid TransferLegState.mismatched leg code now s v)

  pub run-IsSound :
      (calls : List Call) (s : Store) → IsSound s → IsSound (run uuid print_number calls s)
  unfolding run
  run-IsSound [] s v = v
  run-IsSound (c ∷ calls) s v = run-IsSound calls (step uuid print_number c s) (step-IsSound c s v)

queued_found :
    (q : TransferLeg → Bool) (legs : List TransferLeg) {l : TransferLeg}
    → all (λ (x : TransferLeg). same_leg_state x.state TransferLegState.queued) legs ≡ true
    → find q legs ≡ some l
    → l.state ≡ TransferLegState.queued
queued_found q [] h f = cc
queued_found q (x ∷ legs) {l} h f =
    let (here, later) = &&-eq-true (same_leg_state x.state TransferLegState.queued) _ h in
    elim (Bool-cases (q x)) [
      | inl e ↦
          let same : x ≡ l = ground arith in
          ap (λ (y : TransferLeg). y.state) (sym same)
          ∙ same_leg_state-eq x.state TransferLegState.queued here
      | inr e ↦ queued_found q legs {l = l} later (rw e at f)
    ]

-- Tables whose payouts wait in the queue, with nothing tried and none of them booked, are sound,
-- whatever else the ledger holds.
pub queued-IsSound :
    (s : Store)
    → IsUnique (ids (λ (l : TransferLeg). l.id) s.transfer_legs)
    → all (λ (l : TransferLeg). same_leg_state l.state TransferLegState.queued) s.transfer_legs
      ≡ true
    → s.transfer_attempts ≡ []
    → s.transfer_events ≡ []
    → ((k : Text) (l : TransferLeg)
        → find (payout_leg k) s.transfer_legs ≡ some l
        → count (books k) s.ledger_entries ≡ 0)
    → IsSound s
unfolding replay is_live is_confirmed
queued-IsSound s unique waiting attempts events unbooked = record {
  leg_ids = unique;
  attempt_ids =
      subst (λ rows. IsUnique (ids (λ (a : TransferAttempt). a.id) rows)) (sym attempts) tt;
  agrees = λ k l f.
      let q = queued_found (payout_leg k) s.transfer_legs waiting f in
      record {
        live = ap (count (live_of k)) attempts ∙ sym (ap (λ x. one_if (is_live x)) q);
        trail = ap (replay k) events ∙ ap some (sym q);
        booked = unbooked k l f ∙ sym (ap (λ x. one_if (is_confirmed x)) q);
      };
}

-- A settlement queues a payout under a new identity, which no attempt, event or entry names.
pub queue_payout-Sound :
    (new : TransferLeg) (legs : List TransferLeg) (attempts : List TransferAttempt)
    (events : List TransferEvent) (ledger : List LedgerEntry)
    → new.state ≡ TransferLegState.queued
    → has new.id (ids (λ (l : TransferLeg). l.id) legs) ≡ false
    → count (live_of new.id) attempts ≡ 0
    → replay new.id events ≡ some TransferLegState.queued
    → count (books new.id) ledger ≡ 0
    → Sound legs attempts events ledger
    → Sound (new ∷ legs) attempts events ledger
unfolding is_live is_confirmed
queue_payout-Sound new legs attempts events ledger queued fresh untried unmoved unbooked v =
    record {
      leg_ids = (fresh, v.leg_ids);
      attempt_ids = v.attempt_ids;
      agrees = λ k l f. elim (Bool-cases (payout_leg k new)) [
        | inl e ↦
            let same : new ≡ l = ground arith in
            let q = ap (λ (x : TransferLeg). x.state) (sym same) ∙ queued in
            let p : new.id ≡ k = ground (arith, same_text_iff new.id k) in
            subst (λ j. Agrees attempts events ledger j l.state) p
              (record {
                live = untried ∙ sym (ap (λ x. one_if (is_live x)) q);
                trail = unmoved ∙ ap some (sym q);
                booked = unbooked ∙ sym (ap (λ x. one_if (is_confirmed x)) q);
              })
        | inr e ↦ v.agrees k l (rw e at f)
      ];
    }

module _ (uuid print_number : ℕ → Text) where
  -- Make any calls in any order, from tables in which identities of transfers and of attempts are
  -- different and the attempts, events and ledger entries of each payout agree with its state.
  -- Then they agree at the end too: a payout that is found has one live attempt (prepared,
  -- broadcast, unknown or confirmed) if its own state is live and none otherwise, and the ledger
  -- has one entry of its confirmation if it is confirmed and none otherwise.
  pub run-payout_once :
      (calls : List Call) (s : Store) (k : Text) (l : TransferLeg)
      → IsSound s
      → find (payout_leg k) (run uuid print_number calls s).transfer_legs ≡ some l
      → (count (live_of k) (run uuid print_number calls s).transfer_attempts
          ≡ one_if (is_live l.state))
        × (count (books k) (run uuid print_number calls s).ledger_entries
            ≡ one_if (is_confirmed l.state))
  run-payout_once calls s k l v f =
      let agrees = (run-IsSound uuid print_number calls s v).agrees k l f in
      (agrees.live, agrees.booked)

  -- Make any calls in any order, from tables in which identities of transfers and of attempts are
  -- different and the attempts, events and ledger entries of each payout agree with its state.
  -- Then the recorded events of a payout that is found, replayed from the queue, are each a move
  -- of the abstract machine of payouts, start where the one before ended, and lead to its state.
  pub run-replay :
      (calls : List Call) (s : Store) (k : Text) (l : TransferLeg)
      → IsSound s
      → find (payout_leg k) (run uuid print_number calls s).transfer_legs ≡ some l
      → replay k (run uuid print_number calls s).transfer_events ≡ some l.state
  run-replay calls s k l v f = ((run-IsSound uuid print_number calls s v).agrees k l f).trail
