-- ===== src/Transfers/Audit/Advance.antt =====
-- packages/db/src/transfer-repository.ts: a payout and its live attempt that move together.
use mathlib.Core.Path.{subst}
use pods.Base.{
  ◌+◌, ◌≡◌, ◌≤◌, sym, ap, ◌∙◌, Bool, true, false, some, List, [], ◌∷◌, Text, same_text,
  same_text_iff, same_text_refl, IsUnique, find, one_if, count, Bool-cases, inl, inr, arith,
}
use pods.Database.Rows.{TransferLeg, TransferLegState, TransferAttempt, TransferEvent, LedgerEntry}
use pods.Database.Table.{patch, count-patch, ids, ids-patch}
use pods.Transfers.States.{same_leg_state, as_leg_state, payout_leg}
use pods.Transfers.Audit.{
  is_live, live_of, can_move, replay, books, is_confirmed, Agrees, Sound, KeepsLeg, moves,
}

pub count-find :
    {R : Type 0} (found q : R → Bool) (rows : List R) {r : R}
    → find found rows ≡ some r
    → q r ≡ true
    → 1 ≤ count q rows
count-find found q [] h e = cc
count-find found q (x ∷ rows) {r} h e = elim (Bool-cases (found x)) [
  | inl here ↦ let same : x ≡ r = ground arith in ground (arith, ap q same)
  | inr other ↦ ground (arith, count-find found q rows {r = r} (rw other at h) e)
]

pub same_leg_state_refl : (s : TransferLegState) → same_leg_state s s ≡ true
unfolding same_leg_state
same_leg_state_refl s = ground arith

abbrev pub KeepsAttempt : (TransferAttempt → TransferAttempt) → Type 0
KeepsAttempt set =
    (a : TransferAttempt) → ((set a).id ≡ a.id) × ((set a).transfer_leg_id ≡ a.transfer_leg_id)

-- An event of another leg says nothing of this one.
pub replay_other :
    (j : Text) (e : TransferEvent) (events : List TransferEvent)
    → same_text e.transfer_leg_id j ≡ false
    → replay j (e ∷ events) ≡ replay j events
unfolding replay
replay_other j e events h = ground (arith, h)

pub replay_here :
    (e : TransferEvent) (events : List TransferEvent) {state : TransferLegState}
    → replay e.transfer_leg_id events ≡ some state
    → e.from_state ≡ state
    → can_move state e.to_state ≡ true
    → replay e.transfer_leg_id (e ∷ events) ≡ some e.to_state
unfolding replay
replay_here e events {state} h from mv =
    ground (arith, same_text_refl e.transfer_leg_id, h, same_leg_state_refl state, from, mv)

module _ (attempts : List TransferAttempt) (events : List TransferEvent)
    (ledger ledger' : List LedgerEntry) (leg : TransferLeg) (attempt : TransferAttempt)
    (found where_ : TransferAttempt → Bool) (set : TransferAttempt → TransferAttempt)
    (e : TransferEvent) (unique : IsUnique (ids (λ (a : TransferAttempt). a.id) attempts))
    (picked : find found attempts ≡ some attempt) (hit : where_ attempt ≡ true)
    (only : (a : TransferAttempt) → where_ a ≡ true → a.id ≡ attempt.id) (keeps : KeepsAttempt set)
    (own : attempt.transfer_leg_id ≡ leg.id) (of_leg : e.transfer_leg_id ≡ leg.id) where
  live_count :
      (j : Text)
      → count (live_of j) (patch where_ set attempts) + one_if (live_of j attempt)
        ≡ count (live_of j) attempts + one_if (live_of j (set attempt))
  live_count j =
      count-patch (λ (a : TransferAttempt). a.id) (live_of j) where_ found set attempts unique
        picked hit only

  pub Agrees-here :
      {state : TransferLegState}
      → Agrees attempts events ledger leg.id state
      → is_live (as_leg_state attempt.state) ≡ true
      → as_leg_state (set attempt).state ≡ e.to_state
      → e.from_state ≡ state
      → (is_live state ≡ true → can_move state e.to_state ≡ true)
      → count (books leg.id) ledger' ≡ one_if (is_confirmed e.to_state)
      → Agrees (patch where_ set attempts) (e ∷ events) ledger' leg.id e.to_state
  Agrees-here {state} v was to from mv book =
      let here : same_text attempt.transfer_leg_id leg.id ≡ true = (same_text_iff _ _).1 own in
      let here' : same_text (set attempt).transfer_leg_id leg.id ≡ true =
        (same_text_iff _ _).1 ((keeps attempt).1 ∙ own) in
      let some_live =
        count-find found (live_of leg.id) attempts picked (ground (arith, here, was)) in
      let alive : is_live state ≡ true = ground (arith, some_live, v.live) in
      record {
        live = ground (arith, here, here', was, live_count leg.id, v.live, alive, ap is_live to);
        trail =
            subst (λ k. replay k (e ∷ events) ≡ some e.to_state) of_leg
              (replay_here e events (subst (λ k. replay k events ≡ some state) (sym of_leg) v.trail)
                from (mv alive));
        booked = book;
      }

  pub Agrees-apart :
      (j : Text) {state : TransferLegState}
      → same_text leg.id j ≡ false
      → count (books j) ledger' ≡ count (books j) ledger
      → Agrees attempts events ledger j state
      → Agrees (patch where_ set attempts) (e ∷ events) ledger' j state
  Agrees-apart j {state} ne book v = record {
    live = ground (
      arith,
      live_count j,
      v.live,
      (keeps attempt).1,
      own,
      ne,
      ap (λ k. same_text k j) own,
      ap (λ k. same_text k j) ((keeps attempt).1),
    );
    trail = replay_other j e events (ap (λ k. same_text k j) of_leg ∙ ne) ∙ v.trail;
    booked = book ∙ v.booked;
  }

-- A payout that is found moves along with one of its attempts that is live, and an event tells of it.
pub advance-Sound :
    (legs : List TransferLeg) (attempts : List TransferAttempt) (events : List TransferEvent)
    (ledger ledger' : List LedgerEntry) (leg : TransferLeg) (where_leg : TransferLeg → Bool)
    (set_leg : TransferLeg → TransferLeg) (attempt : TransferAttempt)
    (found where_ : TransferAttempt → Bool) (set : TransferAttempt → TransferAttempt)
    (e : TransferEvent)
    → Sound legs attempts events ledger
    → find (payout_leg leg.id) legs ≡ some leg
    → where_leg leg ≡ true
    → ((l : TransferLeg) → where_leg l ≡ true → l.id ≡ leg.id)
    → KeepsLeg set_leg
    → find found attempts ≡ some attempt
    → where_ attempt ≡ true
    → ((a : TransferAttempt) → where_ a ≡ true → a.id ≡ attempt.id)
    → KeepsAttempt set
    → attempt.transfer_leg_id ≡ leg.id
    → is_live (as_leg_state attempt.state) ≡ true
    → as_leg_state (set attempt).state ≡ e.to_state
    → e.transfer_leg_id ≡ leg.id
    → e.from_state ≡ leg.state
    → e.to_state ≡ (set_leg leg).state
    → (is_live leg.state ≡ true → can_move leg.state e.to_state ≡ true)
    → (count (books leg.id) ledger ≡ one_if (is_confirmed leg.state)
        → count (books leg.id) ledger' ≡ one_if (is_confirmed e.to_state))
    → ((j : Text) → same_text leg.id j ≡ false → count (books j) ledger' ≡ count (books j) ledger)
    → Sound (patch where_leg set_leg legs) (patch where_ set attempts) (e ∷ events) ledger'
advance-Sound legs attempts events ledger ledger' leg where_leg set_leg attempt found where_ set e v
      f w only keeps g wa only_a keeps_a own was to of_leg from to_leg mv book else_ =
    record {
      leg_ids =
          subst IsUnique
            (sym (ids-patch (λ (l : TransferLeg). l.id) where_leg set_leg legs λ l. (keeps l).0))
            v.leg_ids;
      attempt_ids =
          subst IsUnique
            (sym (ids-patch (λ (a : TransferAttempt). a.id) where_ set attempts λ a. (keeps_a a).0))
            v.attempt_ids;
      agrees =
          moves (Agrees attempts events ledger)
            (Agrees (patch where_ set attempts) (e ∷ events) ledger') where_leg set_leg legs leg
            v.agrees keeps f w only
            (λ here. subst (Agrees (patch where_ set attempts) (e ∷ events) ledger' leg.id) to_leg (
              Agrees-here attempts events ledger ledger' leg attempt found where_ set e
                v.attempt_ids g wa only_a keeps_a own of_leg here was to from mv
                (book here.booked)))
            λ j state ne there.
              Agrees-apart attempts events ledger ledger' leg attempt found where_ set e
                v.attempt_ids g wa only_a keeps_a own of_leg j ne (else_ j ne) there;
    }
