-- ===== src/Funding/Moves.antt =====
-- packages/db/src/funding-repository.ts: the operations against the table of transitions in
-- packages/domain/src/funding.ts.
use mathlib.Core.Path.{subst}
use pods.Base.{
  ℕ, suc, ◌≡◌, refl, sym, ap, Bool, true, false, not, ◌&&◌, Option, none, some, ◌∷◌, Text,
  same_text, same_text_iff, find, ok, err, ◌>>=◌, Result, some_of, if◌then◌else◌, arith, &&-eq-true,
}
use pods.Deposit.Machine.{
  DepositState, finalized, exception_review, wallet_rejected, observed, DepositEvent, submit_hint,
  observe, finalize, credit, flag_exception, client, worker, DepositActor, next_deposit_state,
}
use pods.Database.Rows.{DepositIntent, DepositExceptionCode}
use pods.Database.Table.{changed, returned, find-patch, find-some, find-none_of}
use pods.Database.Flow.{if_found, After, After-if_found, After-require, After-if}
use pods.Database.Store.{Store, StoreError, holds_text, intent_state_changed}
use pods.Database.Insert.{After-insert_entry}
use pods.Funding.{
  same_deposit_state, intent_of, still, update_intents, FundingInput, intent_conflicts,
}
use pods.Funding.Steps.{
  advance_intent, moved_to, hinted, record_deposit_wallet_attempt, record_deposit_transaction_hint,
  record_deposit_exception, Observation, seen, record_observed_deposit, was_finalized, was_credited,
  finalized_late, finalize_observed_deposit, credit_entry, credit_finalized_deposit,
  create_deposit_intent,
}

-- What an operation may do to the state of a deposit.
pub data Move : DepositState → DepositState → Type 0 where
  keeps : {s : DepositState} → Move s s
  fires :
      {s t : DepositState} (e : DepositEvent) (a : DepositActor)
      → next_deposit_state s e a ≡ some t
      → Move s t
  late : Move finalized exception_review

-- Each deposit is still there, and moved as it may.
abbrev pub Follows : Store → Store → Type 0
Follows s s' =
    (k : Text) (d : DepositIntent)
    → find (intent_of k) s.deposit_intents ≡ some d
    → (d' : DepositIntent) × (find (intent_of k) s'.deposit_intents ≡ some d')
      × Move d.state d'.state

false_of_not : {b : Bool} → not b ≡ true → b ≡ false
false_of_not {b} h = ground arith

same_deposit_state-eq : (s t : DepositState) → same_deposit_state s t ≡ true → s ≡ t
unfolding same_deposit_state
same_deposit_state-eq s t h = ground arith

pub Follows-refl : (s : Store) → Follows s s
Follows-refl s k d f = (d, f, keeps)

changed-Move :
    (d : DepositIntent) (set : DepositIntent → DepositIntent) (hit : Bool)
    → (hit ≡ true → Move d.state (set d).state)
    → Move d.state (if hit then set d else d).state
changed-Move d set true moves = moves refl
changed-Move d set false moves = keeps

patched-Follows :
    (s : Store) (where_ : DepositIntent → Bool) (set : DepositIntent → DepositIntent)
    → ((d : DepositIntent) → (set d).id ≡ d.id)
    → ((d : DepositIntent) → where_ d ≡ true → Move d.state (set d).state)
    → Follows s (update_intents where_ set s)
patched-Follows s where_ set same moves k d f =
    let seen =
      find-patch (intent_of k) where_ set s.deposit_intents λ r. ap (λ i. same_text i k) (same r) in
    (changed where_ set d, rw f at seen, changed-Move d set (where_ d) (moves d))

-- The update of an intent that has not changed since it was read.
advanced-Follows :
    (s : Store) (intent : DepositIntent) (to : DepositState) (set : DepositIntent → DepositIntent)
    → ((d : DepositIntent) → (set d).id ≡ d.id)
    → ((d : DepositIntent) → (set d).state ≡ to)
    → Move intent.state to
    → Follows s (update_intents (still intent) set s)
advanced-Follows s intent to set same is move = patched-Follows s (still intent) set same λ d h.
    subst (λ t. Move d.state t) (sym (is d))
      (subst (λ t. Move t to)
        (sym (same_deposit_state-eq _ _ (&&-eq-true (same_text d.id intent.id) _ h).1)) move)

After-found :
    {A : Type 0} (P : A → Type 0) (o : Option DepositIntent) (s : Store)
    (next : DepositIntent × Store → Result StoreError A)
    → ((updated : DepositIntent) → After P (next (updated, s)))
    → After P (if_found o (err intent_state_changed) (λ updated. ok (updated, s)) >>= next)
unfolding if_found
After-found P none s next h = tt
After-found P (some updated) s next h = h updated

After-advance :
    {A : Type 0} (P : A → Type 0) (s : Store) (intent : DepositIntent)
    (set : DepositIntent → DepositIntent) (next : DepositIntent × Store → Result StoreError A)
    → ((updated : DepositIntent) → After P (next (updated, update_intents (still intent) set s)))
    → After P (advance_intent intent set s >>= next)
After-advance P s intent set next h =
    After-found P (returned (still intent) set s.deposit_intents)
      (update_intents (still intent) set s) next h

either_Follows :
    (s x y : Store) (test : Bool) → Follows s x → Follows s y → Follows s (if test then x else y)
either_Follows s x y true h k = h
either_Follows s x y false h k = k

abbrev pub Kept : {A : Type 0} → Store → A × Store → Type 0
Kept s o = Follows s o.1

pub record_deposit_wallet_attempt-Follows :
    (intent_id user_id : Text) (opens : Bool) (now : ℕ) (s : Store)
    → After
        (Kept {A = Option DepositIntent} s)
        (record_deposit_wallet_attempt intent_id user_id opens now s)
unfolding record_deposit_wallet_attempt
record_deposit_wallet_attempt-Follows intent_id user_id opens now s =
    let P = Kept {A = Option DepositIntent} s in
    After-if_found P _ _ _ (λ _. Follows-refl s)
      λ intent _.
        After-if_found P _ _ _ (λ _. tt)
          λ next e. After-advance P s intent (moved_to next now) _ λ updated.
            let moved =
              advanced-Follows s intent next (moved_to next now) (λ d. refl) (λ d. refl)
                (fires _ client e) in
            either_Follows s _ _ (same_deposit_state next wallet_rejected) moved moved

pub record_deposit_transaction_hint-Follows :
    (intent_id user_id hash : Text) (now : ℕ) (s : Store)
    → After
        (Kept {A = Option DepositIntent} s)
        (record_deposit_transaction_hint intent_id user_id hash now s)
unfolding record_deposit_transaction_hint
record_deposit_transaction_hint-Follows intent_id user_id hash now s =
    let P = Kept {A = Option DepositIntent} s in
    After-require P _ _ _ λ _.
      After-if_found P _ _ _ (λ _. Follows-refl s)
        λ intent _.
          After-if_found P _ _ _ (λ _. tt)
            λ next e. After-advance P s intent (hinted next hash now) _ λ updated.
              After-require P _ _ _ λ _.
                advanced-Follows s intent next (hinted next hash now) (λ d. refl) (λ d. refl)
                  (fires submit_hint client e)

pub record_deposit_exception-Follows :
    (intent_id : Text) (code : DepositExceptionCode) (now : ℕ) (s : Store)
    → After (Kept {A = Option DepositIntent} s) (record_deposit_exception intent_id code now s)
unfolding record_deposit_exception
record_deposit_exception-Follows intent_id code now s =
    let P = Kept {A = Option DepositIntent} s in
    After-if_found P _ _ _ (λ _. Follows-refl s)
      λ intent _.
        After-if P (same_deposit_state intent.state exception_review) _ _
          (λ _. After-require P _ _ _ λ _. Follows-refl s)
          λ _.
            After-if_found P _ _ _ (λ _. tt)
              λ next e.
                let set = λ (d : DepositIntent). record d {
                  state = next;
                  exception_code = some code;
                  updated_at = now;
                } in
                After-advance P s intent set _ λ updated.
                  advanced-Follows s intent next set (λ d. refl) (λ d. refl)
                    (fires flag_exception worker e)

pub record_observed_deposit-Follows :
    (intent_id : Text) (o : Observation) (now : ℕ) (s : Store)
    → After (Kept {A = Option DepositIntent} s) (record_observed_deposit intent_id o now s)
unfolding record_observed_deposit
record_observed_deposit-Follows intent_id o now s =
    let P = Kept {A = Option DepositIntent} s in
    After-if_found P _ _ _ (λ _. Follows-refl s)
      λ intent _.
        After-if P
          (same_deposit_state intent.state observed
            && holds_text intent.transaction_hash o.transaction_hash)
          _ _ (λ _. Follows-refl s)
          λ _. After-require P _ _ _ λ _.
            After-if_found P _ _ _ (λ _. tt)
              λ next e. After-advance P s intent (seen o next now) _ λ updated.
                advanced-Follows s intent next (seen o next now) (λ d. refl) (λ d. refl)
                  (fires observe worker e)

pub finalize_observed_deposit-Follows :
    (intent_id : Text) (now : ℕ) (s : Store)
    → After (Kept {A = Option DepositIntent} s) (finalize_observed_deposit intent_id now s)
unfolding finalize_observed_deposit
finalize_observed_deposit-Follows intent_id now s =
    let P = Kept {A = Option DepositIntent} s in
    After-if_found P _ _ _ (λ _. Follows-refl s)
      λ intent _.
        After-if P (was_finalized intent.state) _ _ (λ _. Follows-refl s)
          λ _.
            After-if_found P _ _ _ (λ _. tt)
              λ next e.
                let set = λ (d : DepositIntent). record d {
                  state = next;
                  finalized_at = some now;
                  updated_at = now;
                } in
                After-advance P s intent set _ λ updated.
                  advanced-Follows s intent next set (λ d. refl) (λ d. refl)
                    (fires finalize worker e)

late-Follows :
    (s : Store) (intent : DepositIntent) (set : DepositIntent → DepositIntent)
    → ((d : DepositIntent) → (set d).id ≡ d.id)
    → ((d : DepositIntent) → (set d).state ≡ exception_review)
    → Follows s (
        update_intents
          (λ d. same_text d.id intent.id && same_deposit_state d.state finalized)
          set
          s)
late-Follows s intent set same is =
    patched-Follows s (λ d. same_text d.id intent.id && same_deposit_state d.state finalized) set
      same
      λ d h.
        subst (λ t. Move d.state t) (sym (is d))
          (subst (λ t. Move t exception_review)
            (sym (same_deposit_state-eq _ _ (&&-eq-true (same_text d.id intent.id) _ h).1)) late)

module _ (uuid : ℕ → Text) where
  pub credit_finalized_deposit-Follows :
      (intent_id : Text) (now : ℕ) (s : Store)
      → After (Kept {A = Option DepositIntent} s) (credit_finalized_deposit uuid intent_id now s)
  unfolding credit_finalized_deposit
  credit_finalized_deposit-Follows intent_id now s =
      let P = Kept {A = Option DepositIntent} s in
      After-if_found P _ _ _ (λ _. Follows-refl s)
        λ intent _.
          After-if P (was_credited intent.state) _ _ (λ _. Follows-refl s)
            λ _.
              After-if P (same_deposit_state intent.state finalized && finalized_late intent) _ _
                (λ _.
                  After-if_found P _ _ _ (λ _. tt)
                    λ _ _. late-Follows s intent _ (λ d. refl) λ d. refl)
                λ _.
                  After-if_found P _ _ _ (λ _. tt)
                    λ next e.
                      After-if_found P _ _ _ (λ _. tt)
                        λ membership _. After-require P _ _ _ λ _.
                          let set = λ (d : DepositIntent). record d {
                            state = next;
                            credited_at = some now;
                            updated_at = now;
                          } in
                          let s0 = record s { next_id = suc s.next_id } in
                          let booked = credit_entry uuid intent now s in
                          let moved =
                            advanced-Follows s intent next set (λ d. refl) (λ d. refl)
                              (fires credit worker e) in
                          After-insert_entry P booked s0 _
                            (λ _.
                              After-advance P s0 intent set _
                                λ updated. After-if_found P _ _ _ (λ _. tt) λ _ _. moved)
                            λ _.
                              After-advance P
                                (record s0 { ledger_entries = booked ∷ s.ledger_entries }) intent
                                set _ λ updated. After-if_found P _ _ _ (λ _. tt) λ _ _. moved

  inserted-Follows :
      (s : Store) (new : DepositIntent)
      → some_of (intent_conflicts new) s.deposit_intents ≡ false
      → Follows s (record s { deposit_intents = new ∷ s.deposit_intents })
  inserted-Follows s new fresh k d f =
      let apart = find-none_of (intent_conflicts new) (intent_of k) s.deposit_intents fresh f in
      let here : same_text d.id k ≡ true = find-some (intent_of k) s.deposit_intents f in
      (
        d,
        ground (
          arith,
          apart,
          here,
          f,
          same_text_iff d.id k,
          same_text_iff d.id new.id,
          same_text_iff new.id k,
        ),
        keeps,
      )

  pub create_deposit_intent-Follows :
      (input : FundingInput) (now : ℕ) (s : Store)
      → After (Kept {A = DepositIntent} s) (create_deposit_intent uuid input now s)
  unfolding create_deposit_intent
  create_deposit_intent-Follows input now s =
      let P = Kept {A = DepositIntent} s in
      After-require P _ _ _ λ _.
        After-if_found P _ _ _ (λ _. tt)
          λ membership _. After-require P _ _ _ λ _.
            After-if_found P _ _ _ (λ _. tt)
              λ pod _.
                After-if_found P _ _ _ (λ _. tt)
                  λ contract _. After-require P _ _ _ λ _. After-require P _ _ _ λ _.
                    After-require P _ _ _ λ _.
                      After-if_found P _ _ _ (λ _. tt)
                        λ first _. After-require P _ _ _ λ _.
                          After-if_found P _ _ _ (λ _. tt)
                            λ user _. After-require P _ _ _ λ _. After-require P _ _ _ λ fresh.
                              After-if_found P _ _ _ (λ _. tt)
                                λ _ _. inserted-Follows s _ (false_of_not fresh)
