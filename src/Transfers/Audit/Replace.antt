-- ===== src/Transfers/Audit/Replace.antt =====
-- packages/db/src/transfer-repository.ts: a new attempt of a payout, and the return to the queue
-- before it, keep the tables sound; so does a check that changes no state.
use mathlib.Core.Path.{subst}
use pods.Base.{
  ℕ, suc, ◌≡◌, refl, sym, ap, ◌∙◌, Bool, true, false, ◌&&◌, Option, some, List, [], ◌∷◌, ◌++◌, Text,
  same_text, same_text_iff, same_text_refl, IsUnique, find, one_if, count, arith, ok, ◌>>=◌, Result,
  some_of, has, codes, &&-eq-true, or_false,
}
use pods.Database.Rows.{
  TransferLeg, TransferLegState, TransferAttempt, TransferEvent, worker, operations, LedgerEntry,
}
use pods.Database.Table.{patch, ids, ids-patch, count-patch_same}
use pods.Database.Flow.{After, After-if_found, After-require}
use pods.Database.Store.{Store, StoreError, insert_attempt, attempt_conflicts}
use pods.Transfers.States.{
  same_leg_state, same_leg_state-eq, as_leg_state, payout_leg, attempt_of, open_payout_state,
  open_payout_attempt_state, replaceable, latest_attempt, update_legs,
}
use pods.Transfers.Payout.{
  record_event, event_of, leg_readied, leg_requeued, attempt_prepared, sequence_of,
  request_payout_retry, persist_payout_transfer_attempt, mark_payout_transfer_checked,
}
use pods.Transfers.Audit.{
  is_live, live_of, can_move, replay, is_confirmed, Agrees, Sound, IsSound, KeepsLeg, moves, stays,
  payout_by_id,
}
use pods.Transfers.Audit.Advance.{replay_here, replay_other, same_leg_state_refl}
use pods.Transfers.Audit.Payout.{both_true, by_id, Keeps, After-inserted, After-record_event}

-- A payout that moves to a state which the new attempts agree with, and an event that tells of it.
leg-Sound :
    (legs : List TransferLeg) (attempts attempts' : List TransferAttempt)
    (events : List TransferEvent) (ledger : List LedgerEntry) (leg : TransferLeg)
    (where_leg : TransferLeg → Bool) (set_leg : TransferLeg → TransferLeg) (e : TransferEvent)
    → Sound legs attempts events ledger
    → find (payout_leg leg.id) legs ≡ some leg
    → where_leg leg ≡ true
    → ((l : TransferLeg) → where_leg l ≡ true → l.id ≡ leg.id)
    → KeepsLeg set_leg
    → IsUnique (ids (λ (a : TransferAttempt). a.id) attempts')
    → (count (live_of leg.id) attempts ≡ one_if (is_live leg.state)
        → count (live_of leg.id) attempts' ≡ one_if (is_live e.to_state))
    → ((j : Text)
        → same_text leg.id j ≡ false
        → count (live_of j) attempts' ≡ count (live_of j) attempts)
    → leg.id ≡ e.transfer_leg_id
    → e.from_state ≡ leg.state
    → e.to_state ≡ (set_leg leg).state
    → can_move leg.state e.to_state ≡ true
    → is_confirmed leg.state ≡ false
    → is_confirmed e.to_state ≡ false
    → Sound (patch where_leg set_leg legs) attempts' (e ∷ events) ledger
leg-Sound legs attempts attempts' events ledger leg where_leg set_leg e v f w only keeps unique
      live_here live_else of_leg from to_leg mv unpaid unpaid' =
    record {
      leg_ids =
          subst IsUnique
            (sym (ids-patch (λ (l : TransferLeg). l.id) where_leg set_leg legs λ l. (keeps l).0))
            v.leg_ids;
      attempt_ids = unique;
      agrees =
          moves (Agrees attempts events ledger) (Agrees attempts' (e ∷ events) ledger) where_leg
            set_leg legs leg v.agrees keeps f w only
            (λ here. subst (Agrees attempts' (e ∷ events) ledger leg.id) to_leg (record {
              live = live_here here.live;
              trail =
                  subst (λ k. replay k (e ∷ events) ≡ some e.to_state) (sym of_leg)
                    (replay_here e events
                      (subst (λ k. replay k events ≡ some leg.state) of_leg here.trail) from mv);
              booked = here.booked ∙ ap one_if (unpaid ∙ sym unpaid');
            }))
            λ j state ne there. record {
              live = live_else j ne ∙ there.live;
              trail =
                  replay_other j e events (ap (λ k. same_text k j) (sym of_leg) ∙ ne) ∙ there.trail;
              booked = there.booked;
            };
    }

replaceable_move :
    (s : TransferLegState) → replaceable s ≡ true → can_move s TransferLegState.queued ≡ true
unfolding replaceable can_move
replaceable_move s h = ground arith

replaceable_idle :
    (s : TransferLegState) → replaceable s ≡ true → (is_live s ≡ false) × (is_confirmed s ≡ false)
unfolding replaceable is_live is_confirmed
replaceable_idle s h = ground arith

no_conflict :
    (new : TransferAttempt) (rows : List TransferAttempt)
    → some_of (attempt_conflicts new) rows ≡ false
    → has new.id (ids (λ (a : TransferAttempt). a.id) rows) ≡ false
no_conflict new [] h = refl
no_conflict new (x ∷ rows) h =
    let (here, later) =
      or_false (attempt_conflicts new x) (some_of (attempt_conflicts new) rows) h in
    ground (arith, here, no_conflict new rows later)

module _ (uuid : ℕ → Text) where
  pub request_payout_retry-Sound :
      (leg_id attempt_id actor reason : Text) (now : ℕ) (s : Store)
      → IsSound s
      → After
          (Keeps uuid {A = TransferLeg})
          (request_payout_retry uuid leg_id attempt_id actor reason now s)
  unfolding request_payout_retry is_live is_confirmed
  request_payout_retry-Sound leg_id attempt_id actor reason now s v =
      let P = Keeps uuid {A = TransferLeg} in
      After-if_found P _ _ _ (λ _. tt)
        λ leg f. After-require P _ _ _ λ ended.
          After-if_found P _ _ _ (λ _. tt)
            λ attempt g. After-require P _ _ _ λ _. After-require P _ _ _ λ _.
              After-if_found P _ _ _ (λ _. tt)
                λ again found.
                  let its = λ (l : TransferLeg).
                    same_text l.id leg.id && same_leg_state l.state leg.state in
                  After-record_event uuid P leg.id attempt operations leg.state
                    TransferLegState.queued (actor ++ codes ": " ++ reason) now
                    (update_legs its (leg_requeued now) s) _
                    (leg-Sound s.transfer_legs s.transfer_attempts s.transfer_attempts
                      s.transfer_events s.ledger_entries leg its (leg_requeued now)
                      (event_of (uuid s.next_id) leg.id attempt operations leg.state
                        TransferLegState.queued (actor ++ codes ": " ++ reason) now)
                      v (payout_by_id leg_id s.transfer_legs f)
                      (both_true (same_text_refl leg.id) (same_leg_state_refl leg.state))
                      (λ l h. by_id _ _ (&&-eq-true _ _ h).0) (λ l. (refl, refl)) v.attempt_ids
                      (λ live. live ∙ ap one_if (replaceable_idle leg.state ended).0) (λ j _. refl)
                      refl refl refl (replaceable_move leg.state ended)
                      (replaceable_idle leg.state ended).1 refl)

  After-insert_attempt :
      {A : Type 0} (P : A → Type 0) (new : TransferAttempt) (s : Store)
      (next : Store → Result StoreError A)
      → (some_of (attempt_conflicts new) s.transfer_attempts ≡ false
          → After P (next (record s { transfer_attempts = new ∷ s.transfer_attempts })))
      → After P (insert_attempt new s >>= next)
  After-insert_attempt P new s next h =
      After-inserted P (some_of (attempt_conflicts new) s.transfer_attempts)
        (record s { transfer_attempts = new ∷ s.transfer_attempts }) next h

  -- A new attempt of a queued payout.
  prepared-Sound :
      {A : Type 0} (s : Store) (k : Text) (leg : TransferLeg) (new : TransferAttempt)
      (hex hash : Text) (height now : ℕ) (a : A)
      → IsSound s
      → find (payout_leg k) s.transfer_legs ≡ some leg
      → same_leg_state leg.state TransferLegState.queued ≡ true
      → some_of (attempt_conflicts new) s.transfer_attempts ≡ false
      → new.transfer_leg_id ≡ leg.id
      → is_live (as_leg_state new.state) ≡ true
      → After (Keeps uuid {A = A}) (
          record_event uuid leg.id new worker TransferLegState.queued TransferLegState.prepared
            (codes "attempt_prepared")
            now
            (update_legs
              (λ l. same_text l.id leg.id && same_leg_state l.state TransferLegState.queued)
              (leg_readied hex hash height now)
              (record s { next_id = suc s.next_id; transfer_attempts = new ∷ s.transfer_attempts }))
          >>= λ s'. ok (a, s'))
  unfolding is_live is_confirmed can_move
  prepared-Sound {A} s k leg new hex hash height now a v f ready fresh own live =
      let its = λ (l : TransferLeg).
        same_text l.id leg.id && same_leg_state l.state TransferLegState.queued in
      let p : leg.state ≡ TransferLegState.queued = same_leg_state-eq _ _ ready in
      After-record_event uuid (Keeps uuid {A = A}) leg.id new worker TransferLegState.queued
        TransferLegState.prepared (codes "attempt_prepared") now _ (λ s'. ok (a, s'))
        (leg-Sound s.transfer_legs s.transfer_attempts (new ∷ s.transfer_attempts) s.transfer_events
          s.ledger_entries leg its (leg_readied hex hash height now)
          (event_of (uuid (suc s.next_id)) leg.id new worker TransferLegState.queued
            TransferLegState.prepared (codes "attempt_prepared") now)
          v (payout_by_id k s.transfer_legs f) (both_true (same_text_refl leg.id) ready)
          (λ l h. by_id _ _ (&&-eq-true _ _ h).0) (λ l. (refl, refl))
          (no_conflict new s.transfer_attempts fresh, v.attempt_ids)
          (λ h.
            ground (arith, h, ap is_live p, live, (same_text_iff new.transfer_leg_id leg.id).1 own))
          (λ j ne. ground (arith, ap (λ t. same_text t j) own, ne)) refl (sym p) refl
          (ap (λ x. can_move x TransferLegState.prepared) p) (ap is_confirmed p) refl)

  pub persist_payout_transfer_attempt-Sound :
      (print_number : ℕ → Text) (leg_id reference hex hash : Text) (height now : ℕ) (s : Store)
      → IsSound s
      → After
          (Keeps uuid {A = Option (TransferLeg × TransferAttempt)})
          (persist_payout_transfer_attempt uuid print_number leg_id reference hex hash height now s)
  unfolding persist_payout_transfer_attempt is_live as_leg_state
  persist_payout_transfer_attempt-Sound print_number leg_id reference hex hash height now s v =
      let P = Keeps uuid {A = Option (TransferLeg × TransferAttempt)} in
      After-if_found P _ _ _ (λ _. v)
        λ leg f.
          After-if_found P _ _ _
            (λ _. After-require P _ _ _ λ ready. After-require P _ _ _ λ _.
              After-require P _ _ _ λ _.
                let new =
                  attempt_prepared (uuid s.next_id) leg.id
                    (suc (sequence_of (latest_attempt leg.id s.transfer_attempts))) reference hex
                    hash height now in
                After-insert_attempt P new _ _ λ fresh.
                  After-if_found P _ _ _ (λ _. tt)
                    λ done _. After-require P _ _ _ λ _.
                      prepared-Sound s leg_id leg new hex hash height now (some (done, new)) v f
                        ready fresh refl refl)
            λ _ _. v

  pub mark_payout_transfer_checked-Sound :
      (leg_id attempt_id : Text) (now : ℕ) (s : Store)
      → IsSound s
      → After
          (Keeps uuid {A = Option TransferLeg})
          (mark_payout_transfer_checked leg_id attempt_id now s)
  unfolding mark_payout_transfer_checked
  mark_payout_transfer_checked-Sound leg_id attempt_id now s v =
      let its = λ (a : TransferAttempt).
        attempt_of attempt_id leg_id a && open_payout_attempt_state a.state in
      let seen =
        λ (a : TransferAttempt). record a { last_checked_at = some now; updated_at = now } in
      let leg_its = λ (l : TransferLeg). payout_leg leg_id l && open_payout_state l.state in
      let leg_seen =
        λ (l : TransferLeg). record l { last_attempt_at = some now; updated_at = now } in
      After-if_found (Keeps uuid) _ _ _ (λ _. v)
        λ _ _. record {
          leg_ids =
              subst IsUnique
                (sym (
                  ids-patch (λ (l : TransferLeg). l.id) leg_its leg_seen s.transfer_legs λ l. refl))
                v.leg_ids;
          attempt_ids =
              subst IsUnique
                (sym (
                  ids-patch (λ (a : TransferAttempt). a.id) its seen s.transfer_attempts λ a. refl))
                v.attempt_ids;
          agrees =
              stays (Agrees (patch its seen s.transfer_attempts) s.transfer_events s.ledger_entries)
                leg_its leg_seen s.transfer_legs
                (λ j l f. record {
                  live =
                      count-patch_same (live_of j) its seen s.transfer_attempts (λ a. refl)
                      ∙ (v.agrees j l f).live;
                  trail = (v.agrees j l f).trail;
                  booked = (v.agrees j l f).booked;
                })
                (λ l. (refl, refl)) λ j l f. ground arith;
        }
