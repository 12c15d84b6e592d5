-- ===== src/Transfers/Audit/Refund.antt =====
-- packages/db/src/transfer-repository.ts: no operation on a refund touches a payout.
use mathlib.Core.Path.{subst}
use mathlib.Core.Option.{some-injective}
use pods.Base.{
  ℕ, suc, ◌≡◌, refl, sym, ap, ◌∙◌, Bool, true, false, not, ◌&&◌, Option, some, List, ◌∷◌, Text,
  same_text, same_text_refl, IsUnique, find, count, Bool-cases, inl, inr, arith, &&-eq-true,
}
use pods.Database.Rows.{TransferLeg, TransferLegState, TransferAttempt, TransferEvent, LedgerEntry}
use pods.Database.Table.{patch, ids, ids-patch, find_unique, find-some}
use pods.Database.Flow.{After, After-if_found, After-require, After-if, if_found-elim}
use pods.Database.Store.{Store}
use pods.Database.Insert.{After-insert_entry}
use pods.Transfers.States.{
  same_leg_state, sent_or_ready, payout_leg, refund_leg, is_payout, is_refund,
}
use pods.Transfers.Payout.{leg_readied, leg_submitted, leg_marked}
use pods.Transfers.Confirm.{leg_final, payout_key}
use pods.Transfers.Refund.{
  refund_key, refund_entry, cancel_if_refunded, mark_refund_transfer, mark_refund_transfer_prepared,
  mark_refund_transfer_broadcast, confirm_refund_transfer,
}
use pods.Transfers.Audit.{books, Agrees, Sound, IsSound, KeepsLeg, stays}
use pods.Transfers.Audit.Payout.{by_id, Keeps}

-- An update that misses every payout.
abbrev MissesPayouts : List TransferLeg → (TransferLeg → Bool) → Type 0
MissesPayouts legs where_ =
    (j : Text) (l : TransferLeg) → find (payout_leg j) legs ≡ some l → where_ l ≡ false

missed-Sound :
    (legs : List TransferLeg) (attempts : List TransferAttempt) (events : List TransferEvent)
    (ledger ledger' : List LedgerEntry) (where_ : TransferLeg → Bool)
    (set : TransferLeg → TransferLeg)
    → Sound legs attempts events ledger
    → KeepsLeg set
    → MissesPayouts legs where_
    → ((j : Text) → count (books j) ledger' ≡ count (books j) ledger)
    → Sound (patch where_ set legs) attempts events ledger'
missed-Sound legs attempts events ledger ledger' where_ set v keeps misses same = record {
  leg_ids =
      subst IsUnique (sym (ids-patch (λ (l : TransferLeg). l.id) where_ set legs λ l. (keeps l).0))
        v.leg_ids;
  attempt_ids = v.attempt_ids;
  agrees =
      stays (Agrees attempts events ledger') where_ set legs
        (λ j l f. record {
          live = (v.agrees j l f).live;
          trail = (v.agrees j l f).trail;
          booked = same j ∙ (v.agrees j l f).booked;
        })
        keeps λ j l f. ground (arith, misses j l f);
}

not_both : (l : TransferLeg) → is_payout l.type ≡ true → is_refund l.type ≡ false
not_both l h = ground arith

-- A refund that is found is not a payout, and no payout has its identity.
refund_misses :
    (k : Text) (legs : List TransferLeg) (leg : TransferLeg) (test : TransferLeg → Bool)
    → IsUnique (ids (λ (l : TransferLeg). l.id) legs)
    → find (refund_leg k) legs ≡ some leg
    → MissesPayouts legs (λ l. same_text l.id leg.id && test l)
refund_misses k legs leg test unique f j l g = elim (Bool-cases (same_text l.id leg.id && test l)) [
  | inr e ↦ e
  | inl e ↦
      let same : l.id ≡ leg.id = by_id _ _ (&&-eq-true _ _ e).0 in
      let here =
        find_unique (λ (l : TransferLeg). l.id) (refund_leg k) (λ x. same_text x.id leg.id) legs
          unique f (same_text_refl leg.id) λ x h. by_id _ _ h in
      let there =
        find_unique (λ (l : TransferLeg). l.id) (payout_leg j) (λ x. same_text x.id leg.id) legs
          unique g (&&-eq-true _ _ e).0 λ x h. by_id _ _ h ∙ sym same in
      let p : leg ≡ l = some-injective _ _ (sym here ∙ there) in
      let refunds : is_refund leg.type ≡ true =
        (&&-eq-true _ _ (find-some (refund_leg k) legs f)).1 in
      let pays : is_payout l.type ≡ true = (&&-eq-true _ _ (find-some (payout_leg j) legs g)).1 in
      cc (not_both l pays, refunds, ap (λ (x : TransferLeg). is_refund x.type) p)
]

kind_misses :
    (k : Text) (legs : List TransferLeg) (test : TransferLeg → Bool)
    → MissesPayouts legs (λ l. refund_leg k l && test l)
kind_misses k legs test j l g =
    let pays : is_payout l.type ≡ true = (&&-eq-true _ _ (find-some (payout_leg j) legs g)).1 in
    ground (arith, not_both l pays)

other_key : (a b : Text) → same_text (refund_key a) (payout_key b) ≡ false
unfolding same_text
other_key a b = refl

cancel_if_refunded-Sound :
    (pod_id : Text) (now : ℕ) (s : Store) → IsSound s → IsSound (cancel_if_refunded pod_id now s)
unfolding cancel_if_refunded
cancel_if_refunded-Sound pod_id now s v = if_found-elim IsSound _ _ _ v λ _. v

module _ (uuid : ℕ → Text) where
  pub mark_refund_transfer_prepared-Sound :
      (leg_id hex hash : Text) (height now : ℕ) (s : Store)
      → IsSound s
      → After
          (Keeps uuid {A = Option TransferLeg})
          (mark_refund_transfer_prepared leg_id hex hash height now s)
  unfolding mark_refund_transfer_prepared
  mark_refund_transfer_prepared-Sound leg_id hex hash height now s v =
      let P = Keeps uuid {A = Option TransferLeg} in
      After-if_found P _ _ _ (λ _. v)
        λ leg f.
          After-if P (same_leg_state leg.state TransferLegState.prepared) _ _
            (λ _. After-require P _ _ _ λ _. v)
            λ _. After-require P _ _ _ λ _.
              After-if_found P _ _ _ (λ _. tt)
                λ ready _. After-require P _ _ _ λ _.
                  missed-Sound s.transfer_legs s.transfer_attempts s.transfer_events
                    s.ledger_entries s.ledger_entries
                    (λ l. same_text l.id leg.id && same_leg_state l.state TransferLegState.queued)
                    (leg_readied hex hash height now) v (λ l. (refl, refl))
                    (refund_misses leg_id s.transfer_legs leg
                      (λ l. same_leg_state l.state TransferLegState.queued) v.leg_ids f)
                    λ j. refl

  pub mark_refund_transfer_broadcast-Sound :
      (leg_id : Text) (now : ℕ) (s : Store)
      → IsSound s
      → After (Keeps uuid {A = Option TransferLeg}) (mark_refund_transfer_broadcast leg_id now s)
  unfolding mark_refund_transfer_broadcast
  mark_refund_transfer_broadcast-Sound leg_id now s v =
      let P = Keeps uuid {A = Option TransferLeg} in
      After-if_found P _ _ _ (λ _. v)
        λ leg f.
          After-if P (same_leg_state leg.state TransferLegState.broadcast) _ _ (λ _. v)
            λ _. After-require P _ _ _ λ _.
              After-if_found P _ _ _ (λ _. tt)
                λ sent _.
                  missed-Sound s.transfer_legs s.transfer_attempts s.transfer_events
                    s.ledger_entries s.ledger_entries
                    (λ l. same_text l.id leg.id && same_leg_state l.state TransferLegState.prepared)
                    (leg_submitted now) v (λ l. (refl, refl))
                    (refund_misses leg_id s.transfer_legs leg
                      (λ l. same_leg_state l.state TransferLegState.prepared) v.leg_ids f)
                    λ j. refl

  pub mark_refund_transfer-Sound :
      (state : TransferLegState) (leg_id code : Text) (now : ℕ) (s : Store)
      → IsSound s
      → After (Keeps uuid {A = Option TransferLeg}) (mark_refund_transfer state leg_id code now s)
  mark_refund_transfer-Sound state leg_id code now s v =
      missed-Sound s.transfer_legs s.transfer_attempts s.transfer_events s.ledger_entries
        s.ledger_entries (λ l. refund_leg leg_id l && sent_or_ready l.state)
        (leg_marked state (some code) now) v (λ l. (refl, refl))
        (kind_misses leg_id s.transfer_legs λ l. sent_or_ready l.state) λ j. refl

  pub confirm_refund_transfer-Sound :
      (leg_id : Text) (now : ℕ) (s : Store)
      → IsSound s
      → After (Keeps uuid {A = Option TransferLeg}) (confirm_refund_transfer uuid leg_id now s)
  unfolding confirm_refund_transfer
  confirm_refund_transfer-Sound leg_id now s v =
      let P = Keeps uuid {A = Option TransferLeg} in
      After-if_found P _ _ _ (λ _. v)
        λ leg f.
          After-if P (same_leg_state leg.state TransferLegState.confirmed) _ _ (λ _. v)
            λ _. After-require P _ _ _ λ _.
              let its = λ (l : TransferLeg).
                same_text l.id leg.id && not (same_leg_state l.state TransferLegState.confirmed) in
              let missed =
                refund_misses leg_id s.transfer_legs leg
                  (λ l. not (same_leg_state l.state TransferLegState.confirmed)) v.leg_ids f in
              let booked = refund_entry uuid leg now s in
              After-insert_entry P booked (record s { next_id = suc s.next_id }) _
                (λ _.
                  After-if_found P _ _ _ (λ _. tt)
                    λ final _. cancel_if_refunded-Sound leg.pod_id now _ (
                      missed-Sound s.transfer_legs s.transfer_attempts s.transfer_events
                        s.ledger_entries s.ledger_entries its (leg_final now) v (λ l. (refl, refl))
                        missed λ j. refl))
                λ _.
                  After-if_found P _ _ _ (λ _. tt)
                    λ final _. cancel_if_refunded-Sound leg.pod_id now _ (
                      missed-Sound s.transfer_legs s.transfer_attempts s.transfer_events
                        s.ledger_entries (booked ∷ s.ledger_entries) its (leg_final now) v
                        (λ l. (refl, refl)) missed λ j. ground (arith, other_key leg.id j))
