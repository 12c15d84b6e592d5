-- ===== src/Funding/History.antt =====
-- packages/db/src/funding-repository.ts: sequences of calls, and the states that a deposit takes in
-- them. A call that throws is rolled back.
use mathlib.Core.Path.{subst}
use mathlib.Core.Option.{some-injective}
use pods.Base.{ℕ, ◌≡◌, ◌≤◌, sym, ◌∙◌, true, false, some, List, [], ◌∷◌, Text, find, ok, err, arith}
use pods.Deposit.Machine.{DepositState}
use pods.Deposit.Life.{stage, stage-next, next-Edge}
use pods.Database.Rows.{DepositIntent, DepositExceptionCode}
use pods.Database.Flow.{After}
use pods.Database.Store.{Store, Outcome}
use pods.Funding.{FundingInput, intent_of}
use pods.Funding.Steps.{
  record_deposit_wallet_attempt, record_deposit_transaction_hint, record_deposit_exception,
  Observation, record_observed_deposit, finalize_observed_deposit, credit_finalized_deposit,
  create_deposit_intent,
}
use pods.Funding.Moves.{
  Move, keeps, fires, late, Follows, Follows-refl, Kept, record_deposit_wallet_attempt-Follows,
  record_deposit_transaction_hint-Follows, record_deposit_exception-Follows,
  record_observed_deposit-Follows, finalize_observed_deposit-Follows,
  credit_finalized_deposit-Follows, create_deposit_intent-Follows,
}

-- The methods that change the tables, with their input.
pub data Call : Type 0 where
  creates : FundingInput → ℕ → Call
  opens rejects : Text → Text → ℕ → Call
  hints : Text → Text → Text → ℕ → Call
  flags : Text → DepositExceptionCode → ℕ → Call
  observes : Text → Observation → ℕ → Call
  finalizes credits : Text → ℕ → Call

abbrev pub after : {A : Type 0} → Outcome A → Store → Store
after (ok (a, s')) s = s'
after (err e) s = s

module _ (uuid : ℕ → Text) where
  unfoldable pub step : Call → Store → Store
  step (creates input now) s = after (create_deposit_intent uuid input now s) s
  step (opens intent user now) s = after (record_deposit_wallet_attempt intent user true now s) s
  step (rejects intent user now) s = after (record_deposit_wallet_attempt intent user false now s) s
  step (hints intent user hash now) s =
      after (record_deposit_transaction_hint intent user hash now s) s
  step (flags intent code now) s = after (record_deposit_exception intent code now s) s
  step (observes intent o now) s = after (record_observed_deposit intent o now s) s
  step (finalizes intent now) s = after (finalize_observed_deposit intent now s) s
  step (credits intent now) s = after (credit_finalized_deposit uuid intent now s) s

  unfoldable pub run : List Call → Store → Store
  run [] s = s
  run (c ∷ calls) s = run calls (step c s)

-- Moves one after another.
pub data Moves : DepositState → DepositState → Type 0 where
  done : {s : DepositState} → Moves s s
  then : {s t u : DepositState} → Move s t → Moves t u → Moves s u

committed :
    {A : Type 0} (o : Outcome A) (s : Store) → After (Kept {A = A} s) o → Follows s (after o s)
committed (ok (a, s')) s h = h
committed (err e) s h = Follows-refl s

module _ (uuid : ℕ → Text) where
  pub step-Follows : (c : Call) (s : Store) → Follows s (step uuid c s)
  unfolding step
  step-Follows (creates input now) s =
      committed _ s (create_deposit_intent-Follows uuid input now s)
  step-Follows (opens intent user now) s =
      committed _ s (record_deposit_wallet_attempt-Follows intent user true now s)
  step-Follows (rejects intent user now) s =
      committed _ s (record_deposit_wallet_attempt-Follows intent user false now s)
  step-Follows (hints intent user hash now) s =
      committed _ s (record_deposit_transaction_hint-Follows intent user hash now s)
  step-Follows (flags intent code now) s =
      committed _ s (record_deposit_exception-Follows intent code now s)
  step-Follows (observes intent o now) s =
      committed _ s (record_observed_deposit-Follows intent o now s)
  step-Follows (finalizes intent now) s =
      committed _ s (finalize_observed_deposit-Follows intent now s)
  step-Follows (credits intent now) s =
      committed _ s (credit_finalized_deposit-Follows uuid intent now s)

  -- Whatever is called in whatever order, a deposit intent that is there stays there, and its
  -- state follows moves one after another: those of the table of transitions, and from finalized
  -- to review.
  pub run-Moves :
      (calls : List Call) (s : Store) (k : Text) {d : DepositIntent}
      → find (intent_of k) s.deposit_intents ≡ some d
      → (d' : DepositIntent) × (find (intent_of k) (run uuid calls s).deposit_intents ≡ some d')
        × Moves d.state d'.state
  unfolding run
  run-Moves [] s k {d} f = (d, f, done)
  run-Moves (c ∷ calls) s k {d} f =
      let (d1, f1, m) = step-Follows c s k d f in
      let (d2, f2, ms) = run-Moves calls (step uuid c s) k {d = d1} f1 in (d2, f2, then m ms)

stage-Move : {s t : DepositState} → Move s t → stage s ≤ stage t
stage-Move keeps = omega arith
stage-Move (fires e a h) = omega (arith, stage-next (next-Edge _ e a h))
stage-Move late = omega arith

stage-Moves : {s t : DepositState} → Moves s t → stage s ≤ stage t
stage-Moves done = omega arith
stage-Moves (then m ms) = omega (arith, stage-Move m, stage-Moves ms)

module _ (uuid : ℕ → Text) where
  pub stage-run :
      (calls : List Call) (s : Store) (k : Text) {d d' : DepositIntent}
      → find (intent_of k) s.deposit_intents ≡ some d
      → find (intent_of k) (run uuid calls s).deposit_intents ≡ some d'
      → stage d.state ≤ stage d'.state
  stage-run calls s k {d} {d'} f f' =
      let (d1, f1, ms) = run-Moves uuid calls s k f in
      subst (λ (x : DepositIntent). stage d.state ≤ stage x.state)
        (some-injective _ _ (sym f1 ∙ f')) (stage-Moves ms)
