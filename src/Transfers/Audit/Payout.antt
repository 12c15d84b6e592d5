-- ===== src/Transfers/Audit/Payout.antt =====
-- packages/db/src/transfer-repository.ts: each operation on a payout keeps the tables sound.
use pods.Base.{
  ℕ, suc, ◌≡◌, refl, sym, ap, ◌∙◌, Bool, true, false, not, ◌&&◌, Option, some, List, ◌∷◌, Text,
  same_text, same_text_iff, same_text_refl, find, one_if, if◌then◌else◌, arith, Result, ok, err,
  ◌>>=◌, some_of, codes, &&-eq-true,
}
use pods.Database.Rows.{
  TransferLeg, TransferLegState, TransferAttempt, TransferAttemptState, TransferEvent,
  TransferEventActor, worker,
}
use pods.Database.Table.{find-some, find_unique, returned-some}
use pods.Database.Flow.{After, After-if_found, After-if}
use pods.Database.Store.{Store, StoreError, unique_violation}
use pods.Transfers.States.{
  same_leg_state, same_leg_state-eq, as_leg_state, update_legs, update_attempts, payout_leg,
  attempt_of, open_payout_state, open_payout_attempt_state,
}
use pods.Transfers.Payout.{
  record_event, event_of, attempt_marked, leg_marked, attempt_submitted, leg_submitted,
  transition_payout_attempt, claim_payout_broadcast, mark_payout_transfer_broadcast,
}
use pods.Transfers.Audit.{
  is_live, can_move, is_outcome, is_confirmed, IsSound, KeepsLeg, payout_by_id,
}
use pods.Transfers.Audit.Advance.{advance-Sound, KeepsAttempt}

pub After-inserted :
    {A : Type 0} (P : A → Type 0) (taken : Bool) (s : Store) (next : Store → Result StoreError A)
    → (taken ≡ false → After P (next s))
    → After P ((if taken then err unique_violation else ok s) >>= next)
After-inserted P true s next h = tt
After-inserted P false s next h = h refl

pub open_move :
    (s t : TransferLegState)
    → open_payout_state s ≡ true
    → is_outcome t ≡ true
    → is_live s ≡ true
    → can_move s t ≡ true
unfolding open_payout_state is_live can_move
open_move s t h k l = ground arith

pub open_attempt_live :
    (s : TransferAttemptState)
    → open_payout_attempt_state s ≡ true
    → is_live (as_leg_state s) ≡ true
unfolding open_payout_attempt_state is_live as_leg_state
open_attempt_live s h = ground arith

pub open_not_confirmed :
    (s : TransferLegState) → open_payout_state s ≡ true → is_confirmed s ≡ false
unfolding open_payout_state is_confirmed
open_not_confirmed s h = ground arith

pub true_of_not : {b : Bool} → not b ≡ false → b ≡ true
true_of_not {b} h = ground arith

pub both_true : {a b : Bool} → a ≡ true → b ≡ true → a && b ≡ true
both_true {a} {b} h k = ground arith

pub by_id : (a b : Text) → same_text a b ≡ true → a ≡ b
by_id a b h = (same_text_iff a b).0 h

pub attempt-own :
    (id leg_id : Text) (rows : List TransferAttempt) {a : TransferAttempt}
    → find (attempt_of id leg_id) rows ≡ some a
    → a.transfer_leg_id ≡ leg_id
attempt-own id leg_id rows {a} h =
    by_id _ _ (&&-eq-true _ _ (find-some (attempt_of id leg_id) rows h)).1

module _ (uuid : ℕ → Text) where
  abbrev pub Keeps : {A : Type 0} → A × Store → Type 0
  Keeps o = IsSound o.1

  pub After-record_event :
      {A : Type 0} (P : A → Type 0) (leg_id : Text) (attempt : TransferAttempt)
      (actor : TransferEventActor) (from to : TransferLegState) (reason : Text) (now : ℕ)
      (s : Store) (next : Store → Result StoreError A)
      → After P (
          next (record s {
            next_id = suc s.next_id;
            transfer_events =
                event_of (uuid s.next_id) leg_id attempt actor from to reason now
                ∷ s.transfer_events;
          }))
      → After P (record_event uuid leg_id attempt actor from to reason now s >>= next)
  After-record_event P leg_id attempt actor from to reason now s next h =
      After-inserted P
        (some_of (λ (e : TransferEvent). same_text e.id (uuid s.next_id)) s.transfer_events)
        (record s {
          next_id = suc s.next_id;
          transfer_events =
              event_of (uuid s.next_id) leg_id attempt actor from to reason now ∷ s.transfer_events;
        })
        next λ _. h

  -- A statement that moves a payout along with a live attempt of it, and records the move.
  recorded-Sound :
      {A : Type 0} (s : Store) (k : Text) (leg : TransferLeg) (where_leg : TransferLeg → Bool)
      (set_leg : TransferLeg → TransferLeg) (attempt row : TransferAttempt)
      (found where_ : TransferAttempt → Bool) (set : TransferAttempt → TransferAttempt)
      (leg_id : Text) (from to : TransferLegState) (reason : Text) (now : ℕ) (a : A)
      → IsSound s
      → find (payout_leg k) s.transfer_legs ≡ some leg
      → where_leg leg ≡ true
      → ((l : TransferLeg) → where_leg l ≡ true → l.id ≡ leg.id)
      → KeepsLeg set_leg
      → find found s.transfer_attempts ≡ some row
      → where_ row ≡ true
      → ((x : TransferAttempt) → where_ x ≡ true → x.id ≡ row.id)
      → KeepsAttempt set
      → row.transfer_leg_id ≡ leg.id
      → is_live (as_leg_state row.state) ≡ true
      → as_leg_state (set row).state ≡ to
      → leg_id ≡ leg.id
      → from ≡ leg.state
      → to ≡ (set_leg leg).state
      → (is_live leg.state ≡ true → can_move leg.state to ≡ true)
      → is_confirmed leg.state ≡ false
      → is_confirmed to ≡ false
      → After (Keeps {A = A}) (
          record_event uuid leg_id attempt worker from to reason now
            (update_legs where_leg set_leg (update_attempts where_ set s))
          >>= λ s'. ok (a, s'))
  recorded-Sound {A} s k leg where_leg set_leg attempt row found where_ set leg_id from to reason
        now a v f w only keeps g wa only_a keeps_a own was is of_leg from_leg to_leg mv unpaid
        unpaid' =
      After-record_event (Keeps {A = A}) leg_id attempt worker from to reason now
        (update_legs where_leg set_leg (update_attempts where_ set s)) (λ s'. ok (a, s'))
        (advance-Sound s.transfer_legs s.transfer_attempts s.transfer_events s.ledger_entries
          s.ledger_entries leg where_leg set_leg row found where_ set
          (event_of (uuid s.next_id) leg_id attempt worker from to reason now) v
          (payout_by_id k s.transfer_legs f) w only keeps g wa only_a keeps_a own was is of_leg
          from_leg to_leg mv (λ book. book ∙ ap one_if (unpaid ∙ sym unpaid')) λ j _. refl)

  pub transition_payout_attempt-Sound :
      (leg_id attempt_id : Text) (state : TransferAttemptState) (reason : Text) (code : Option Text)
      (now : ℕ) (s : Store)
      → is_outcome (as_leg_state state) ≡ true
      → is_confirmed (as_leg_state state) ≡ false
      → IsSound s
      → After
          (Keeps {A = Option TransferLeg})
          (transition_payout_attempt uuid leg_id attempt_id state reason code now s)
  unfolding transition_payout_attempt
  transition_payout_attempt-Sound leg_id attempt_id state reason code now s outcome unpaid v =
      After-if_found Keeps _ _ _ (λ _. v)
        λ leg f.
          After-if Keeps _ _ _ (λ _. v)
            λ opened.
              After-if_found Keeps _ _ _ (λ _. v)
                λ attempt g.
                  After-if Keeps _ _ _ (λ _. v)
                    λ open_attempt.
                      After-if_found Keeps _ _ _ (λ _. v)
                        λ _ _.
                          After-if_found Keeps _ _ _ (λ _. tt)
                            λ updated _.
                              recorded-Sound s leg_id leg (λ l. same_text l.id leg.id)
                                (leg_marked (as_leg_state state) code now) attempt attempt
                                (attempt_of attempt_id leg.id) (λ a. same_text a.id attempt.id)
                                (attempt_marked state code now) leg.id leg.state
                                (as_leg_state state) reason now (some updated) v f
                                (same_text_refl leg.id) (λ l. by_id l.id leg.id) (λ l. (refl, refl))
                                g (same_text_refl attempt.id) (λ a. by_id a.id attempt.id)
                                (λ a. (refl, refl))
                                (attempt-own attempt_id leg.id s.transfer_attempts g)
                                (open_attempt_live attempt.state (true_of_not open_attempt)) refl
                                refl refl refl
                                (open_move leg.state (as_leg_state state) (true_of_not opened)
                                  outcome)
                                (open_not_confirmed leg.state (true_of_not opened)) unpaid

  pub claim_payout_broadcast-Sound :
      (leg_id attempt_id : Text) (now : ℕ) (s : Store)
      → IsSound s
      → After (Keeps {A = Bool}) (claim_payout_broadcast uuid leg_id attempt_id now s)
  unfolding claim_payout_broadcast is_live can_move is_confirmed as_leg_state
  claim_payout_broadcast-Sound leg_id attempt_id now s v =
      After-if_found Keeps _ _ _ (λ _. v)
        λ leg f.
          After-if Keeps _ _ _ (λ _. v)
            λ ready.
              After-if_found Keeps _ _ _ (λ _. v)
                λ attempt g.
                  After-if Keeps _ _ _ (λ _. v)
                    λ ready_attempt.
                      After-if_found Keeps _ _ _ (λ _. v)
                        λ _ _.
                          After-if_found Keeps _ _ _ (λ _. tt)
                            λ _ _.
                              let p : leg.state ≡ TransferLegState.prepared =
                                same_leg_state-eq _ _ (true_of_not ready) in
                              let q = same_leg_state-eq _ _ (true_of_not ready_attempt) in
                              recorded-Sound s leg_id leg
                                (λ l.
                                  same_text l.id leg.id
                                  && same_leg_state l.state TransferLegState.prepared)
                                (leg_marked TransferLegState.unknown
                                  (some (codes "broadcast_in_progress")) now)
                                attempt attempt (attempt_of attempt_id leg.id)
                                (λ a.
                                  same_text a.id attempt.id
                                  && same_leg_state (as_leg_state a.state)
                                      TransferLegState.prepared)
                                (attempt_marked TransferAttemptState.unknown
                                  (some (codes "broadcast_in_progress")) now)
                                leg.id TransferLegState.prepared TransferLegState.unknown
                                (codes "broadcast_claimed") now true v f
                                (both_true (same_text_refl leg.id) (true_of_not ready))
                                (λ l h. by_id l.id leg.id (&&-eq-true _ _ h).0) (λ l. (refl, refl))
                                g
                                (both_true (same_text_refl attempt.id) (true_of_not ready_attempt))
                                (λ a h. by_id a.id attempt.id (&&-eq-true _ _ h).0)
                                (λ a. (refl, refl))
                                (attempt-own attempt_id leg.id s.transfer_attempts g) (ap is_live q)
                                refl refl (sym p) refl
                                (λ _. ap (λ x. can_move x TransferLegState.unknown) p)
                                (ap is_confirmed p) refl

  pub mark_payout_transfer_broadcast-Sound :
      (leg_id attempt_id : Text) (now : ℕ) (s : Store)
      → IsSound s
      → After
          (Keeps {A = Option TransferLeg})
          (mark_payout_transfer_broadcast uuid leg_id attempt_id now s)
  unfolding mark_payout_transfer_broadcast is_live can_move is_confirmed as_leg_state
  mark_payout_transfer_broadcast-Sound leg_id attempt_id now s v =
      let its = λ (a : TransferAttempt).
        attempt_of attempt_id leg_id a
        && same_leg_state (as_leg_state a.state) TransferLegState.unknown in
      let leg_its = λ (l : TransferLeg).
        payout_leg leg_id l && same_leg_state l.state TransferLegState.unknown in
      After-if_found Keeps _ _ _ (λ _. v)
        λ attempt found.
          After-if_found Keeps _ _ _ (λ _. tt)
            λ sent found_leg.
              let (row, g, row-eq) =
                returned-some its (attempt_submitted now) s.transfer_attempts found in
              let (leg, f, leg-eq) =
                returned-some leg_its (leg_submitted now) s.transfer_legs found_leg in
              let hit : its row ≡ true = find-some its s.transfer_attempts g in
              let hit_leg : leg_its leg ≡ true = find-some leg_its s.transfer_legs f in
              let p : leg.state ≡ TransferLegState.unknown =
                same_leg_state-eq _ _ (&&-eq-true _ _ hit_leg).1 in
              let q = same_leg_state-eq _ _ (&&-eq-true _ _ hit).1 in
              let named : leg.id ≡ leg_id =
                by_id _ _ (&&-eq-true _ _ (&&-eq-true _ _ hit_leg).0).0 in
              let named_row : row.id ≡ attempt_id =
                by_id _ _ (&&-eq-true _ _ (&&-eq-true _ _ hit).0).0 in
              recorded-Sound s leg_id leg leg_its (leg_submitted now) attempt row its its
                (attempt_submitted now) sent.id TransferLegState.unknown TransferLegState.broadcast
                (codes "broadcast_submitted") now (some sent) v
                (find_unique (λ (l : TransferLeg). l.id) leg_its (payout_leg leg_id) s.transfer_legs
                  v.leg_ids f (&&-eq-true _ _ hit_leg).0
                  λ l h. by_id _ _ (&&-eq-true _ _ h).0 ∙ sym named)
                hit_leg (λ l h. by_id _ _ (&&-eq-true _ _ (&&-eq-true _ _ h).0).0 ∙ sym named)
                (λ l. (refl, refl)) g hit
                (λ a h. by_id _ _ (&&-eq-true _ _ (&&-eq-true _ _ h).0).0 ∙ sym named_row)
                (λ a. (refl, refl))
                (by_id _ _ (&&-eq-true _ _ (&&-eq-true _ _ hit).0).1 ∙ sym named) (ap is_live q)
                refl (sym (ap (λ (l : TransferLeg). l.id) leg-eq)) (sym p) refl
                (λ _. ap (λ x. can_move x TransferLegState.broadcast) p) (ap is_confirmed p) refl
