-- ===== src/Deposit/Machine.antt =====
-- packages/domain/src/funding.ts: the table of transitions and `nextDepositState`.
use mathlib.Core.Bool.{decide}
use pods.Base.{Bool, true, false, ◌&&◌, Option, none, some, List, [], ◌∷◌, find}

pub data DepositState : Type 0 where
  intent_created wallet_approval_pending wallet_rejected transaction_submitted : DepositState
  observed finalized credited_provisional applied_to_roster : DepositState
  exception_review refund_pending refunded : DepositState

pub data DepositActor : Type 0 where
  client worker : DepositActor

pub data DepositEvent : Type 0 where
  open_wallet wallet_reject submit_hint observe finalize credit : DepositEvent
  apply_roster queue_refund confirm_refund flag_exception : DepositEvent

-- `===` on the three enumerations.
unfoldable pub DepositState-discrete : Discrete DepositState
DepositState-discrete = hlevel

unfoldable pub DepositActor-discrete : Discrete DepositActor
DepositActor-discrete = hlevel

unfoldable pub DepositEvent-discrete : Discrete DepositEvent
DepositEvent-discrete = hlevel

pub record Transition : Type 0 where
  pub from : DepositState
  pub event : DepositEvent
  pub actor : DepositActor
  pub to : DepositState

abbrev edge : DepositState → DepositEvent → DepositActor → DepositState → Transition
edge from event actor to = record { from = from; event = event; actor = actor; to = to }

-- The array `transitions`, in its order.
abbrev pub transitions : List Transition
transitions =
    edge intent_created open_wallet client wallet_approval_pending
    ∷ edge wallet_approval_pending wallet_reject client wallet_rejected
    ∷ edge wallet_approval_pending submit_hint client transaction_submitted
    ∷ edge wallet_approval_pending flag_exception worker exception_review
    ∷ edge transaction_submitted observe worker observed
    ∷ edge wallet_approval_pending observe worker observed
    ∷ edge observed finalize worker finalized
    ∷ edge finalized credit worker credited_provisional
    ∷ edge credited_provisional apply_roster worker applied_to_roster
    ∷ edge credited_provisional queue_refund worker refund_pending
    ∷ edge refund_pending confirm_refund worker refunded
    ∷ edge transaction_submitted flag_exception worker exception_review
    ∷ edge observed flag_exception worker exception_review
    ∷ []

abbrev pub fires : DepositState → DepositEvent → DepositActor → Transition → Bool
fires state event actor t =
    decide (DepositState-discrete t.from state)
    && decide (DepositEvent-discrete t.event event)
    && decide (DepositActor-discrete t.actor actor)

unfoldable pub next_deposit_state : DepositState → DepositEvent → DepositActor → Option DepositState
unfolding DepositState-discrete DepositEvent-discrete DepositActor-discrete decide
next_deposit_state state event actor = elim (find (fires state event actor) transitions) [
  | none ↦ none
  | some t ↦ some t.to
]

unfoldable pub can_apply_deposit_event : DepositState → DepositEvent → DepositActor → Bool
unfolding next_deposit_state
can_apply_deposit_event state event actor = elim (next_deposit_state state event actor) [
  | none ↦ false
  | some _ ↦ true
]
