-- ===== src/Transfers/Audit.antt =====
-- packages/db/src/transfer-repository.ts: what the attempts, the events and the ledger say of the
-- state of a payout, and lemmas on updates of the legs.
pub mod Advance
pub mod Payout
pub mod Replace
pub mod Confirm
pub mod Refund
pub mod Run
pub mod Settled
use mathlib.Core.Path.{subst}
use pods.Base.{
  ℕ, ◌+◌, ◌≡◌, refl, sym, ap, ◌∙◌, Bool, true, false, not, ◌&&◌, Option, none, some, List, [], ◌∷◌,
  Text, same_text, same_text_iff, same_text_refl, IsUnique, find, one_if, count, has, some_of,
  if◌then◌else◌, Bool-cases, Option-cases, inl, inr, arith,
}
use mathlib.Core.Option.{some-injective}
use pods.Database.Rows.{
  TransferLeg, TransferLegType, TransferLegState, queued, prepared, broadcast, unknown,
  retryable_failed, mismatched, late, confirmed, TransferAttempt, TransferEvent, LedgerEntry,
}
use pods.Database.Table.{patch, changed, find-patch, find-some, ids}
use pods.Database.Store.{Store}
use pods.Transfers.States.{same_leg_state, as_leg_state, payout_leg, is_payout}
use pods.Transfers.Confirm.{payout_key}

-- Money may be, or is, under way.
unfoldable pub is_live : TransferLegState → Bool
is_live prepared = true
is_live broadcast = true
is_live unknown = true
is_live confirmed = true
is_live _ = false

abbrev pub live_of : Text → TransferAttempt → Bool
live_of leg_id a = same_text a.transfer_leg_id leg_id && is_live (as_leg_state a.state)

abbrev pub is_sent : TransferLegState → Bool
is_sent prepared = true
is_sent broadcast = true
is_sent unknown = true
is_sent _ = false

abbrev pub is_outcome : TransferLegState → Bool
is_outcome unknown = true
is_outcome retryable_failed = true
is_outcome mismatched = true
is_outcome late = true
is_outcome confirmed = true
is_outcome _ = false

-- The moves of a payout.
unfoldable pub can_move : TransferLegState → TransferLegState → Bool
can_move queued prepared = true
can_move unknown broadcast = true
can_move retryable_failed queued = true
can_move late queued = true
can_move s t = is_sent s && is_outcome t

abbrev pub follow : Option TransferLegState → TransferEvent → Option TransferLegState
follow none e = none
follow (some state) e =
    if same_leg_state state e.from_state && can_move e.from_state e.to_state
    then some e.to_state
    else none

-- The state that the events of a leg lead to from `queued`, when each of them starts where the one
-- before it ended and is a move; the newest event is the first of the list.
unfoldable pub replay : Text → List TransferEvent → Option TransferLegState
replay leg_id [] = some queued
replay leg_id (e ∷ older) =
    let before = replay leg_id older in
    if same_text e.transfer_leg_id leg_id then follow before e else before

abbrev pub books : Text → LedgerEntry → Bool
books leg_id e = same_text e.idempotency_key (payout_key leg_id)

unfoldable pub is_confirmed : TransferLegState → Bool
is_confirmed confirmed = true
is_confirmed _ = false

-- A payout in a state has as many live attempts, events and ledger entries as the state says.
pub record Agrees (attempts : List TransferAttempt) (events : List TransferEvent)
    (ledger : List LedgerEntry) (leg_id : Text) (state : TransferLegState) : Type 0 where
  pub live : count (live_of leg_id) attempts ≡ one_if (is_live state)
  pub trail : replay leg_id events ≡ some state
  pub booked : count (books leg_id) ledger ≡ one_if (is_confirmed state)

pub record Sound (legs : List TransferLeg) (attempts : List TransferAttempt)
    (events : List TransferEvent) (ledger : List LedgerEntry) : Type 0 where
  pub leg_ids : IsUnique (ids (λ (l : TransferLeg). l.id) legs)
  pub attempt_ids : IsUnique (ids (λ (a : TransferAttempt). a.id) attempts)
  pub agrees :
      (k : Text) (l : TransferLeg)
      → find (payout_leg k) legs ≡ some l
      → Agrees attempts events ledger k l.state

abbrev pub IsSound : Store → Type 0
IsSound s = Sound s.transfer_legs s.transfer_attempts s.transfer_events s.ledger_entries

-- An update that keeps what identifies a leg.
abbrev pub KeepsLeg : (TransferLeg → TransferLeg) → Type 0
KeepsLeg set = (l : TransferLeg) → ((set l).id ≡ l.id) × ((set l).type ≡ l.type)

pub payout-patch :
    (k : Text) (where_ : TransferLeg → Bool) (set : TransferLeg → TransferLeg)
    (legs : List TransferLeg) {l' : TransferLeg}
    → KeepsLeg set
    → find (payout_leg k) (patch where_ set legs) ≡ some l'
    → (l : TransferLeg) × (find (payout_leg k) legs ≡ some l) × (changed where_ set l ≡ l')
payout-patch k where_ set legs {l'} keeps h =
    let seen = find-patch (payout_leg k) where_ set legs λ l. ground (arith, keeps l) in
    elim (Option-cases (find (payout_leg k) legs)) [
      | inl n ↦ cc (rw n at seen, h)
      | inr (l, e) ↦ (l, e, some-injective _ _ (sym (rw e at seen) ∙ h))
    ]

pub payout-id :
    (k : Text) (legs : List TransferLeg) {leg : TransferLeg}
    → find (payout_leg k) legs ≡ some leg
    → leg.id ≡ k
payout-id k legs {leg} h =
    ground (arith, find-some (payout_leg k) legs {r = leg} h, same_text_iff leg.id k)

pub payout_by_id :
    (k : Text) (legs : List TransferLeg) {leg : TransferLeg}
    → find (payout_leg k) legs ≡ some leg
    → find (payout_leg leg.id) legs ≡ some leg
payout_by_id k legs {leg} h =
    subst (λ j. find (payout_leg j) legs ≡ some leg) (sym (payout-id k legs h)) h

-- What is known of the states of payouts is known after an update of one of them.
pub moves :
    (Q R : Text → TransferLegState → Type 0) (where_ : TransferLeg → Bool)
    (set : TransferLeg → TransferLeg) (legs : List TransferLeg) (leg : TransferLeg)
    → ((j : Text) (l : TransferLeg) → find (payout_leg j) legs ≡ some l → Q j l.state)
    → KeepsLeg set
    → find (payout_leg leg.id) legs ≡ some leg
    → where_ leg ≡ true
    → ((l : TransferLeg) → where_ l ≡ true → l.id ≡ leg.id)
    → (Q leg.id leg.state → R leg.id (set leg).state)
    → ((j : Text) (state : TransferLegState) → same_text leg.id j ≡ false → Q j state → R j state)
    → (j : Text) (l' : TransferLeg) → find (payout_leg j) (patch where_ set legs) ≡ some l'
    → R j l'.state
moves Q R where_ set legs leg h keeps found w only here apart j l' f =
    let (l, e, same) = payout-patch j where_ set legs keeps f in
    elim (Bool-cases (same_text leg.id j)) [
      | inl eq ↦
          let p : leg.id ≡ j = (same_text_iff leg.id j).0 eq in
          let q : leg ≡ l =
            some-injective _ _
              (sym found ∙ subst (λ i. find (payout_leg i) legs ≡ some l) (sym p) e) in
          let r : set leg ≡ l' = cc (w, same, q, ap (changed where_ set) q) in
          subst (λ i. R i l'.state) p
            (subst (λ (x : TransferLeg). R leg.id x.state) r (here (h leg.id leg found)))
      | inr ne ↦
          let q : l ≡ l' =
            ground (arith, same, only l, payout-id j legs {leg = l} e, same_text_iff leg.id j) in
          subst (λ (x : TransferLeg). R j x.state) q (apart j l.state ne (h j l e))
    ]

-- What is known of the states of payouts is known after an update that changes none of them.
pub stays :
    (Q : Text → TransferLegState → Type 0) (where_ : TransferLeg → Bool)
    (set : TransferLeg → TransferLeg) (legs : List TransferLeg)
    → ((j : Text) (l : TransferLeg) → find (payout_leg j) legs ≡ some l → Q j l.state)
    → KeepsLeg set
    → ((j : Text) (l : TransferLeg)
        → find (payout_leg j) legs ≡ some l
        → (changed where_ set l).state ≡ l.state)
    → (j : Text) (l' : TransferLeg) → find (payout_leg j) (patch where_ set legs) ≡ some l'
    → Q j l'.state
stays Q where_ set legs h keeps same_state j l' f =
    let (l, e, same) = payout-patch j where_ set legs keeps f in
    subst (Q j) (sym (same_state j l e) ∙ ap (λ (x : TransferLeg). x.state) same) (h j l e)
