-- ===== src/Transfers/Run.antt =====
-- packages/db/src/transfer-repository.ts: the operations as calls, and runs of them. A call that
-- throws is rolled back, so it leaves the tables as they are.
use pods.Base.{ℕ, List, [], ◌∷◌, Text, ok, err}
use pods.Database.Store.{Store, Outcome}
use pods.Transfers.Payout.{
  persist_payout_transfer_attempt, request_payout_retry, claim_payout_broadcast,
  mark_payout_transfer_broadcast, mark_payout_transfer_unknown,
  mark_payout_transfer_retryable_failed, mark_payout_transfer_mismatched, mark_payout_transfer_late,
  mark_payout_transfer_checked,
}
use pods.Transfers.Confirm.{confirm_payout_transfer}
use pods.Transfers.Refund.{
  mark_refund_transfer_prepared, mark_refund_transfer_broadcast, mark_refund_transfer_unknown,
  mark_refund_transfer_retryable_failed, mark_refund_transfer_mismatched, confirm_refund_transfer,
}

-- The methods that change the tables, with their input.
pub data Call : Type 0 where
  payout_persists : Text → Text → Text → Text → ℕ → ℕ → Call
  payout_retries : Text → Text → Text → Text → ℕ → Call
  payout_claims payout_submits payout_lates payout_checks payout_confirms : Text → Text → ℕ → Call
  payout_unknowns payout_fails payout_mismatches : Text → Text → Text → ℕ → Call
  refund_prepares : Text → Text → Text → ℕ → ℕ → Call
  refund_submits refund_confirms : Text → ℕ → Call
  refund_unknowns refund_fails refund_mismatches : Text → Text → ℕ → Call

unfoldable pub after : {A : Type 0} → Outcome A → Store → Store
after (ok (a, s')) s = s'
after (err e) s = s

module _ (uuid print_number : ℕ → Text) where
  unfoldable pub step : Call → Store → Store
  step (payout_persists leg reference hex hash height now) s =
      after (persist_payout_transfer_attempt uuid print_number leg reference hex hash height now s)
        s
  step (payout_retries leg attempt actor reason now) s =
      after (request_payout_retry uuid leg attempt actor reason now s) s
  step (payout_claims leg attempt now) s = after (claim_payout_broadcast uuid leg attempt now s) s
  step (payout_submits leg attempt now) s =
      after (mark_payout_transfer_broadcast uuid leg attempt now s) s
  step (payout_lates leg attempt now) s = after (mark_payout_transfer_late uuid leg attempt now s) s
  step (payout_checks leg attempt now) s = after (mark_payout_transfer_checked leg attempt now s) s
  step (payout_confirms leg attempt now) s =
      after (confirm_payout_transfer uuid leg attempt now s) s
  step (payout_unknowns leg attempt code now) s =
      after (mark_payout_transfer_unknown uuid leg attempt code now s) s
  step (payout_fails leg attempt code now) s =
      after (mark_payout_transfer_retryable_failed uuid leg attempt code now s) s
  step (payout_mismatches leg attempt code now) s =
      after (mark_payout_transfer_mismatched uuid leg attempt code now s) s
  step (refund_prepares leg hex hash height now) s =
      after (mark_refund_transfer_prepared leg hex hash height now s) s
  step (refund_submits leg now) s = after (mark_refund_transfer_broadcast leg now s) s
  step (refund_confirms leg now) s = after (confirm_refund_transfer uuid leg now s) s
  step (refund_unknowns leg code now) s = after (mark_refund_transfer_unknown leg code now s) s
  step (refund_fails leg code now) s =
      after (mark_refund_transfer_retryable_failed leg code now s) s
  step (refund_mismatches leg code now) s = after (mark_refund_transfer_mismatched leg code now s) s

  unfoldable pub run : List Call → Store → Store
  run [] s = s
  run (c ∷ calls) s = run calls (step c s)
