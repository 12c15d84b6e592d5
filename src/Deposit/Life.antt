-- ===== src/Deposit/Life.antt =====
-- packages/domain/src/funding.ts: what every history of a deposit satisfies.
use pods.Base.{
  one_if, ℕ, ◌+◌, ◌≤◌, ◌<◌, ◌≡◌, ap, ◌||◌, refl, some, none, arith, inl, inr, List, [], ◌∷◌, Option,
  length, count, Bool, true, false, ◌&&◌, Option-cases, if◌then◌else◌,
}
use mathlib.Core.Bool.{decide}
use mathlib.Core.Path.{subst}
use mathlib.Core.Option.{some-injective}
use pods.Deposit.Machine.{
  DepositEvent-discrete, DepositActor-discrete, next_deposit_state, DepositState, DepositEvent,
  intent_created, open_wallet, client, wallet_approval_pending, DepositActor, worker, wallet_reject,
  wallet_rejected, submit_hint, transaction_submitted, observe, observed, finalize, finalized,
  credit, credited_provisional, apply_roster, applied_to_roster, queue_refund, refund_pending,
  confirm_refund, refunded, flag_exception, exception_review,
}

-- How far a deposit has come.
abbrev pub stage : DepositState → ℕ
stage intent_created = 0
stage wallet_approval_pending = 1
stage wallet_rejected = 2
stage transaction_submitted = 2
stage observed = 3
stage finalized = 4
stage exception_review = 4
stage credited_provisional = 5
stage applied_to_roster = 6
stage refund_pending = 6
stage refunded = 7

-- The moves of a deposit, one by one.
pub data Edge : DepositState → DepositEvent → DepositActor → DepositState → Type 0 where
  opens : Edge intent_created open_wallet client wallet_approval_pending
  rejects : Edge wallet_approval_pending wallet_reject client wallet_rejected
  submits : Edge wallet_approval_pending submit_hint client transaction_submitted
  flags_pending : Edge wallet_approval_pending flag_exception worker exception_review
  observes_submitted : Edge transaction_submitted observe worker observed
  observes_pending : Edge wallet_approval_pending observe worker observed
  finalizes : Edge observed finalize worker finalized
  credits : Edge finalized credit worker credited_provisional
  applies : Edge credited_provisional apply_roster worker applied_to_roster
  queues : Edge credited_provisional queue_refund worker refund_pending
  confirms : Edge refund_pending confirm_refund worker refunded
  flags_submitted : Edge transaction_submitted flag_exception worker exception_review
  flags_observed : Edge observed flag_exception worker exception_review

arrive :
    {s t u : DepositState} {e : DepositEvent} {a : DepositActor}
    → some u ≡ some t
    → Edge s e a u
    → Edge s e a t
arrive {s} {e = e} {a = a} h x = subst (Edge s e a) (some-injective _ _ h) x

-- The search of the table finds these moves and no others.
pub next-Edge :
    (s : DepositState) (e : DepositEvent) (a : DepositActor) {t : DepositState}
    → next_deposit_state s e a ≡ some t
    → Edge s e a t
unfolding next_deposit_state
next-Edge intent_created open_wallet client h = arrive h opens
next-Edge wallet_approval_pending wallet_reject client h = arrive h rejects
next-Edge wallet_approval_pending submit_hint client h = arrive h submits
next-Edge wallet_approval_pending flag_exception worker h = arrive h flags_pending
next-Edge transaction_submitted observe worker h = arrive h observes_submitted
next-Edge wallet_approval_pending observe worker h = arrive h observes_pending
next-Edge observed finalize worker h = arrive h finalizes
next-Edge finalized credit worker h = arrive h credits
next-Edge credited_provisional apply_roster worker h = arrive h applies
next-Edge credited_provisional queue_refund worker h = arrive h queues
next-Edge refund_pending confirm_refund worker h = arrive h confirms
next-Edge transaction_submitted flag_exception worker h = arrive h flags_submitted
next-Edge observed flag_exception worker h = arrive h flags_observed
next-Edge _ _ _ h = cc

pub stage-next :
    {s t : DepositState} {e : DepositEvent} {a : DepositActor} → Edge s e a t → stage s < stage t
stage-next opens = omega arith
stage-next rejects = omega arith
stage-next submits = omega arith
stage-next flags_pending = omega arith
stage-next observes_submitted = omega arith
stage-next observes_pending = omega arith
stage-next finalizes = omega arith
stage-next credits = omega arith
stage-next applies = omega arith
stage-next queues = omega arith
stage-next confirms = omega arith
stage-next flags_submitted = omega arith
stage-next flags_observed = omega arith

-- An event, by whom.
abbrev pub Call : Type 0
Call = DepositEvent × DepositActor

-- The state after a list of calls, each of which the table accepts; `none` at the first refusal.
unfoldable pub run : DepositState → List Call → Option DepositState
run s [] = some s
run s ((e, a) ∷ calls) = elim (next_deposit_state s e a) [ none ↦ none | some t ↦ run t calls ]

run-cons :
    (s : DepositState) (c : Call) (calls : List Call) {u : DepositState}
    → run s (c ∷ calls) ≡ some u
    → (t : DepositState) × (Edge s c.0 c.1 t) × (run t calls ≡ some u)
unfolding run
run-cons s (e, a) calls {u} h = elim (Option-cases (next_deposit_state s e a)) [
  | inl n ↦ cc (rw (n, run) at h)
  | inr (t, p) ↦ (t, next-Edge s e a p, rw (p, run) at h)
]

-- Every accepted call brings a deposit further in its life by one stage at least, so a history is
-- no longer than the stages that it has passed.
pub length-run :
    (calls : List Call) (s : DepositState) {u : DepositState}
    → run s calls ≡ some u
    → stage s + length calls ≤ stage u
length-run [] s h = unfold run in ground arith
length-run (c ∷ calls) s {u} h =
    let (t, e, h') = run-cons s c calls h in
    omega (arith, stage-next e, length-run calls t {u = u} h')

pub stage_le : (s : DepositState) → stage s ≤ 7
stage_le s = ground arith

abbrev pub is_call : DepositEvent → DepositActor → Call → Bool
unfolding DepositEvent-discrete DepositActor-discrete decide
is_call e a c = decide (DepositEvent-discrete c.0 e) && decide (DepositActor-discrete c.1 a)

-- A mark that each move carries along with the number of its calls that pass the test.
run-mark :
    (mark : DepositState → ℕ) (p : Call → Bool)
    → ((s t : DepositState) (e : DepositEvent) (a : DepositActor)
        → Edge s e a t
        → mark t ≡ mark s + (if p (e, a) then 1 else 0))
    → (calls : List Call) (s : DepositState) {u : DepositState} → run s calls ≡ some u
    → mark u ≡ mark s + count p calls
run-mark mark p step [] s h = unfold run in ground arith
run-mark mark p step (c ∷ calls) s {u} h =
    let (t, e, h') = run-cons s c calls h in
    ground (arith, step s t c.0 c.1 e, run-mark mark p step calls t {u = u} h')

-- The states at and after the finalization, and those at and after the credit.
abbrev pub is_finalized : DepositState → Bool
is_finalized finalized = true
is_finalized credited_provisional = true
is_finalized applied_to_roster = true
is_finalized refund_pending = true
is_finalized refunded = true
is_finalized _ = false

abbrev pub is_credited : DepositState → Bool
is_credited finalized = false
is_credited s = is_finalized s

-- The credit is spent: on a place in the roster, or on a refund.
abbrev pub is_spent : DepositState → Bool
is_spent credited_provisional = false
is_spent s = is_credited s

abbrev pub is_refunded : DepositState → Bool
is_refunded refunded = true
is_refunded _ = false

abbrev pub in_roster : DepositState → Bool
in_roster applied_to_roster = true
in_roster _ = false

-- A refund is queued, or was confirmed.
abbrev pub in_refund : DepositState → Bool
in_refund refund_pending = true
in_refund s = is_refunded s

-- A move carries the mark of its states along.
abbrev Carries : (DepositState → Bool) → (Call → Bool) → Type 0
Carries holds p =
    (s t : DepositState) (e : DepositEvent) (a : DepositActor)
    → Edge s e a t
    → one_if (holds t) ≡ one_if (holds s) + (if p (e, a) then 1 else 0)

abbrev pub spends : Call → Bool
spends c = is_call apply_roster worker c || is_call queue_refund worker c

finalize-Carries : Carries is_finalized (is_call finalize worker)
unfolding is_call
finalize-Carries _ _ _ _ opens = refl
finalize-Carries _ _ _ _ _ = refl

credit-Carries : Carries is_credited (is_call credit worker)
unfolding is_call
credit-Carries _ _ _ _ opens = refl
credit-Carries _ _ _ _ _ = refl

spend-Carries : Carries is_spent spends
unfolding is_call
spend-Carries _ _ _ _ opens = refl
spend-Carries _ _ _ _ _ = refl

refund-Carries : Carries is_refunded (is_call confirm_refund worker)
unfolding is_call
refund-Carries _ _ _ _ opens = refl
refund-Carries _ _ _ _ _ = refl

apply-Carries : Carries in_roster (is_call apply_roster worker)
unfolding is_call
apply-Carries _ _ _ _ opens = refl
apply-Carries _ _ _ _ _ = refl

queue-Carries : Carries in_refund (is_call queue_refund worker)
unfolding is_call
queue-Carries _ _ _ _ opens = refl
queue-Carries _ _ _ _ _ = refl

roster_or_refund : (s : DepositState) → one_if (in_roster s) + one_if (is_refunded s) ≤ 1
roster_or_refund s = ground arith

from_start :
    (holds : DepositState → Bool) (p : Call → Bool)
    → Carries holds p
    → holds intent_created ≡ false
    → (calls : List Call) {u : DepositState} → run intent_created calls ≡ some u
    → count p calls ≡ one_if (holds u)
from_start holds p step start calls {u} h =
    omega (
      arith,
      run-mark (λ s. one_if (holds s)) p step calls intent_created {u = u} h,
      ap one_if start,
    )

-- After any accepted history, the worker has finalized, credited and spent a deposit, applied it
-- to the roster, queued its refund and confirmed its refund exactly as often as its state says,
-- which is once or never; and it was applied to the roster or its refund was confirmed, but never
-- both.
pub run-accounts :
    (calls : List Call) {u : DepositState}
    → run intent_created calls ≡ some u
    → (count (is_call finalize worker) calls ≡ one_if (is_finalized u))
      × (count (is_call credit worker) calls ≡ one_if (is_credited u))
      × (count spends calls ≡ one_if (is_spent u))
      × (count (is_call apply_roster worker) calls ≡ one_if (in_roster u))
      × (count (is_call queue_refund worker) calls ≡ one_if (in_refund u))
      × (count (is_call confirm_refund worker) calls ≡ one_if (is_refunded u))
      × (count (is_call apply_roster worker) calls + count (is_call confirm_refund worker) calls
          ≤ 1)
run-accounts calls {u} h =
    let applied = from_start in_roster (is_call apply_roster worker) apply-Carries refl calls h in
    let confirmed =
      from_start is_refunded (is_call confirm_refund worker) refund-Carries refl calls h in
    (
      from_start is_finalized (is_call finalize worker) finalize-Carries refl calls h,
      from_start is_credited (is_call credit worker) credit-Carries refl calls h,
      from_start is_spent spends spend-Carries refl calls h,
      applied,
      from_start in_refund (is_call queue_refund worker) queue-Carries refl calls h,
      confirmed,
      omega (arith, applied, confirmed, roster_or_refund u),
    )
