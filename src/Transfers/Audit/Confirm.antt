-- ===== src/Transfers/Audit/Confirm.antt =====
-- packages/db/src/transfer-repository.ts: the confirmation of a payout keeps the tables sound, and so
-- do the operations on refunds.
use pods.Base.{
  ℕ, suc, ◌≡◌, ◌≢◌, refl, ap, ◌∙◌, Bool, true, false, Option, some, List, [], ◌∷◌, Text, same_text,
  same_text_refl, one_if, count, arith, ok, some_of, codes,
}
use pods.Database.Rows.{TransferLeg, TransferLegState, worker, LedgerEntry}
use pods.Database.Flow.{After, After-if_found, After-require, After-if, if_found-elim}
use pods.Database.Store.{Store}
use pods.Database.Insert.{After-insert_entry}
use pods.Transfers.States.{same_leg_state, as_leg_state, attempt_of}
use pods.Transfers.Payout.{event_of}
use pods.Transfers.Confirm.{
  attempt_final, leg_final, payout_key, payout_entry, settle_if_resolved, confirm_payout_transfer,
}
use pods.Transfers.Audit.{is_live, can_move, books, is_confirmed, IsSound, payout_by_id}
use pods.Transfers.Audit.Advance.{advance-Sound}
use pods.Transfers.Audit.Payout.{
  by_id, Keeps, After-record_event, attempt-own, open_move, open_attempt_live, open_not_confirmed,
}

true_apart : {b : Bool} → b ≡ true → b ≢ false
true_apart h k = cc (h, k)

absent-count :
    (q : LedgerEntry → Bool) (rows : List LedgerEntry) → count q rows ≡ 0 → some_of q rows ≡ false
absent-count q [] h = refl
absent-count q (x ∷ rows) h = ground (arith, absent-count q rows)

payout_key-same : (a b : Text) → same_text (payout_key a) (payout_key b) ≡ same_text a b
unfolding same_text
payout_key-same a b = refl

settle_if_resolved-Sound :
    (run_id : Text) (now : ℕ) (s : Store) → IsSound s → IsSound (settle_if_resolved run_id now s)
unfolding settle_if_resolved
settle_if_resolved-Sound run_id now s v =
    if_found-elim IsSound _ _ _
      (if_found-elim IsSound _ _ _ v λ run. if_found-elim IsSound _ _ _ v λ _. v) λ _. v

module _ (uuid : ℕ → Text) where
  pub confirm_payout_transfer-Sound :
      (leg_id attempt_id : Text) (now : ℕ) (s : Store)
      → IsSound s
      → After
          (Keeps uuid {A = Option TransferLeg})
          (confirm_payout_transfer uuid leg_id attempt_id now s)
  unfolding confirm_payout_transfer is_confirmed as_leg_state is_live can_move
  confirm_payout_transfer-Sound leg_id attempt_id now s v =
      let P = Keeps uuid {A = Option TransferLeg} in
      After-if_found P _ _ _ (λ _. v)
        λ leg f.
          After-if_found P _ _ _ (λ _. v)
            λ entitlement_id _.
              After-if P (same_leg_state leg.state TransferLegState.confirmed) (ok (some leg, s)) _
                (λ _. v)
                λ _. After-require P _ _ _ λ opened.
                  After-if_found P _ _ _ (λ _. tt)
                    λ attempt g. After-require P _ _ _ λ open_attempt.
                      After-if_found P _ _ _ (λ _. tt)
                        λ entitlement _. After-require P _ _ _ λ _.
                          let by = payout_by_id leg_id s.transfer_legs f in
                          let unpaid = open_not_confirmed leg.state opened in
                          let absent =
                            absent-count (books leg.id) s.ledger_entries
                              ((v.agrees leg.id leg by).booked ∙ ap one_if unpaid) in
                          After-insert_entry P (payout_entry uuid leg entitlement now s)
                            (record s { next_id = suc s.next_id }) _
                            (λ present. absurd (true_apart present absent))
                            λ _.
                              After-if_found P _ _ _ (λ _. tt)
                                λ final _.
                                  After-record_event uuid P leg.id attempt worker leg.state
                                    TransferLegState.confirmed (codes "chain_finalized") now _
                                    (λ s4. ok (
                                      some final,
                                      settle_if_resolved entitlement.settlement_run_id now s4,
                                    ))
                                    (settle_if_resolved-Sound entitlement.settlement_run_id now _ (
                                      advance-Sound s.transfer_legs s.transfer_attempts
                                        s.transfer_events s.ledger_entries
                                        (payout_entry uuid leg entitlement now s ∷ s.ledger_entries)
                                        leg (λ l. same_text l.id leg.id) (leg_final now) attempt
                                        (attempt_of attempt_id leg.id)
                                        (λ a. same_text a.id attempt.id) (attempt_final now)
                                        (event_of (uuid (suc s.next_id)) leg.id attempt worker
                                          leg.state TransferLegState.confirmed
                                          (codes "chain_finalized") now)
                                        v by (same_text_refl leg.id) (λ l. by_id l.id leg.id)
                                        (λ l. (refl, refl)) g (same_text_refl attempt.id)
                                        (λ a. by_id a.id attempt.id) (λ a. (refl, refl))
                                        (attempt-own attempt_id leg.id s.transfer_attempts g)
                                        (open_attempt_live attempt.state open_attempt) refl refl
                                        refl refl
                                        (open_move leg.state TransferLegState.confirmed opened refl)
                                        (λ book.
                                          ground (
                                            arith,
                                            book,
                                            unpaid,
                                            same_text_refl (payout_key leg.id),
                                          ))
                                        λ j ne. ground (arith, payout_key-same leg.id j, ne)))
