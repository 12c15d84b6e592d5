-- ===== src/Funding/Steps.antt =====
-- packages/db/src/funding-repository.ts: each operation that changes the tables.
use pods.Base.{
  ℕ, suc, Bool, true, false, not, ◌&&◌, ◌||◌, Option, none, some, List, [], ◌∷◌, ◌++◌, Text, codes,
  same_text, find, ltb, ◌==◌, ok, err, ◌>>=◌, some_of, if◌then◌else◌,
}
use pods.Contract.Publish.{is_public_visitor_contract}
use pods.Deposit.Machine.{
  DepositState, wallet_rejected, observed, finalized, credited_provisional, applied_to_roster,
  exception_review, open_wallet, wallet_reject, submit_hint, observe, finalize, credit,
  flag_exception, client, worker, next_deposit_state,
}
use pods.Database.Rows.{
  DepositIntent, DepositExceptionCode, finalized_after_cutoff, Membership, funding_failed,
  deposit_pending, funded_provisional, Pod, Occurrence, User, LedgerEntry, deposit_credit,
}
use pods.Database.Table.{returned}
use pods.Database.Flow.{if_found, require}
use pods.Database.Store.{
  Store, Outcome, holds_text, insert_entry, open_deposit_intent, not_eligible_to_fund,
  pod_not_accepting, contract_not_accepted, funding_cutoff_passed, wallet_mismatch,
  membership_state_changed, wallet_event_invalid, intent_state_changed, invalid_hash, hint_invalid,
  hash_claimed, other_exception, review_invalid, observe_invalid, finalize_invalid, credit_invalid,
  other_intent, unique_violation,
}
use pods.Funding.{
  same_deposit_state, holds_code, same_membership_state, can_fund, is_enrollment_open,
  is_proportional, same_option, same_given, is_transaction_hash, intent_of, intent_of_user, still,
  update_intents, update_memberships, is_deposit_transaction_hash_claimed, intent_conflicts,
  new_intent, FundingInput, is_some_true, has_intent,
}

-- The update of an intent that is locked and whose state has not changed.
abbrev pub advance_intent :
    DepositIntent → (DepositIntent → DepositIntent) → Store → Outcome DepositIntent
advance_intent intent set s =
    if_found (returned (still intent) set s.deposit_intents) (err intent_state_changed)
      λ updated. ok (updated, update_intents (still intent) set s)

abbrev pub moved_to : DepositState → ℕ → DepositIntent → DepositIntent
moved_to state now d = record d { state = state; updated_at = now }

unfoldable pub record_deposit_wallet_attempt :
    Text → Text → Bool → ℕ → Store → Outcome (Option DepositIntent)
record_deposit_wallet_attempt intent_id user_id opens now s =
    if_found (find (intent_of_user intent_id user_id) s.deposit_intents) (ok (none, s)) λ intent.
      if_found
        (next_deposit_state intent.state (if opens then open_wallet else wallet_reject) client)
        (err wallet_event_invalid)
        λ next. advance_intent intent (moved_to next now) s >>= λ r.
          let its = λ (m : Membership).
            same_text m.id intent.membership_id && holds_text m.deposit_intent_id intent.id in
          let released = λ (m : Membership). record m {
            deposit_intent_id = none;
            state = funding_failed;
            updated_at = now;
          } in
          ok (
            some r.0,
            if same_deposit_state next wallet_rejected
                then update_memberships its released r.1
                else r.1,
          )

abbrev pub hinted : DepositState → Text → ℕ → DepositIntent → DepositIntent
hinted state transaction_hash now d = record d {
  state = state;
  transaction_hash = some transaction_hash;
  updated_at = now;
}

unfoldable pub record_deposit_transaction_hint :
    Text → Text → Text → ℕ → Store → Outcome (Option DepositIntent)
record_deposit_transaction_hint intent_id user_id transaction_hash now s =
    require (is_transaction_hash transaction_hash) invalid_hash (
      if_found (find (intent_of_user intent_id user_id) s.deposit_intents) (ok (none, s)) λ intent.
        if_found (next_deposit_state intent.state submit_hint client) (err hint_invalid) λ next.
          advance_intent intent (hinted next transaction_hash now) s >>= λ r.
          require (not (is_deposit_transaction_hash_claimed transaction_hash intent.id s))
            hash_claimed (ok (some r.0, r.1)))

unfoldable pub record_deposit_exception :
    Text → DepositExceptionCode → ℕ → Store → Outcome (Option DepositIntent)
record_deposit_exception intent_id code now s =
    if_found (find (intent_of intent_id) s.deposit_intents) (ok (none, s)) λ intent.
      if same_deposit_state intent.state exception_review
      then require (holds_code intent.exception_code code) other_exception (ok (some intent, s))
      else if_found (next_deposit_state intent.state flag_exception worker) (err review_invalid)
          λ next.
            advance_intent intent
              (λ d. record d { state = next; exception_code = some code; updated_at = now }) s
            >>= λ r. ok (some r.0, r.1)

-- A transaction as the worker observed it.
pub record Observation : Type 0 where
  pub transaction_hash : Text
  pub observed_from : Text
  pub observed_from_type : ℕ
  pub observed_related_addresses : Option (List Text)
  pub block_number : ℕ
  pub transaction_index : ℕ
  pub transaction_batch : ℕ

abbrev pub or_empty : Option (List Text) → List Text
or_empty none = []
or_empty (some texts) = texts

abbrev pub seen : Observation → DepositState → ℕ → DepositIntent → DepositIntent
seen o state now d = record d {
  state = state;
  transaction_hash = some o.transaction_hash;
  observed_from = some o.observed_from;
  observed_from_type = some o.observed_from_type;
  observed_related_addresses = some (or_empty o.observed_related_addresses);
  block_number = some o.block_number;
  transaction_index = some o.transaction_index;
  transaction_batch = some o.transaction_batch;
  observed_at = some now;
  updated_at = now;
}

unfoldable pub record_observed_deposit :
    Text → Observation → ℕ → Store → Outcome (Option DepositIntent)
record_observed_deposit intent_id o now s =
    if_found (find (intent_of intent_id) s.deposit_intents) (ok (none, s)) λ intent.
      if same_deposit_state intent.state observed
        && holds_text intent.transaction_hash o.transaction_hash
      then ok (some intent, s)
      else require (not (is_deposit_transaction_hash_claimed o.transaction_hash intent.id s))
          hash_claimed
          (if_found (next_deposit_state intent.state observe worker) (err observe_invalid)
            λ next. advance_intent intent (seen o next now) s >>= λ r. ok (some r.0, r.1))

-- `["finalized", "credited_provisional", "applied_to_roster"].includes(state)`.
abbrev pub was_finalized : DepositState → Bool
was_finalized finalized = true
was_finalized credited_provisional = true
was_finalized applied_to_roster = true
was_finalized _ = false

abbrev pub was_credited : DepositState → Bool
was_credited credited_provisional = true
was_credited applied_to_roster = true
was_credited _ = false

unfoldable pub finalize_observed_deposit : Text → ℕ → Store → Outcome (Option DepositIntent)
finalize_observed_deposit intent_id now s =
    if_found (find (intent_of intent_id) s.deposit_intents) (ok (none, s)) λ intent.
      if was_finalized intent.state
      then ok (some intent, s)
      else if_found (next_deposit_state intent.state finalize worker) (err finalize_invalid) λ next.
        advance_intent intent
          (λ d. record d { state = next; finalized_at = some now; updated_at = now }) s
        >>= λ r. ok (some r.0, r.1)

-- `intent.finalizedAt && intent.finalizedAt > intent.expiresAt`.
abbrev pub finalized_late : DepositIntent → Bool
finalized_late intent = elim intent.finalized_at [ none ↦ false | some t ↦ ltb intent.expires_at t ]

abbrev pub credit_key : Text → Text
credit_key intent_id = codes "deposit-credit:" ++ intent_id

module _ (uuid : ℕ → Text) where
  abbrev pub credit_entry : DepositIntent → ℕ → Store → LedgerEntry
  credit_entry intent now s = record {
    id = uuid s.next_id;
    idempotency_key = credit_key intent.id;
    pod_id = intent.pod_id;
    membership_id = some intent.membership_id;
    deposit_intent_id = some intent.id;
    movement_type = deposit_credit;
    debit_account = codes "treasury_asset:" ++ intent.network;
    credit_account = codes "participant_liability:" ++ intent.membership_id;
    amount_luna = intent.amount_luna;
    created_at = now;
  }

  unfoldable pub credit_finalized_deposit : Text → ℕ → Store → Outcome (Option DepositIntent)
  credit_finalized_deposit intent_id now s =
      if_found (find (intent_of intent_id) s.deposit_intents) (ok (none, s)) λ intent.
        if was_credited intent.state
        then ok (some intent, s)
        else if same_deposit_state intent.state finalized && finalized_late intent
        then (let its = λ (d : DepositIntent).
              same_text d.id intent.id && same_deposit_state d.state finalized in
            let reviewed = λ (d : DepositIntent). record d {
              state = exception_review;
              exception_code = some finalized_after_cutoff;
              updated_at = now;
            } in
            if_found (returned its reviewed s.deposit_intents) (err intent_state_changed)
              λ late. ok (some late, update_intents its reviewed s))
        else if_found (next_deposit_state intent.state credit worker) (err credit_invalid) λ next.
          if_found (find (λ (m : Membership). same_text m.id intent.membership_id) s.memberships)
            (err other_intent)
            λ membership. require (holds_text membership.deposit_intent_id intent.id) other_intent (
              insert_entry (credit_entry intent now s) (record s { next_id = suc s.next_id })
              >>= λ s1.
                  advance_intent intent
                    (λ d. record d { state = next; credited_at = some now; updated_at = now }) s1
                  >>= λ r.
                      let its = λ (m : Membership).
                        same_text m.id membership.id
                        && holds_text m.deposit_intent_id intent.id
                        && same_membership_state m.state deposit_pending in
                      let funded = λ (m : Membership). record m {
                        state = funded_provisional;
                        updated_at = now;
                      } in
                      if_found (returned its funded r.1.memberships) (err membership_state_changed)
                        λ _. ok (some r.0, update_memberships its funded r.1))

  unfoldable pub create_deposit_intent : FundingInput → ℕ → Store → Outcome DepositIntent
  create_deposit_intent input now s =
      let own =
        find
          (λ (m : Membership). same_text m.pod_id input.pod_id && same_text m.user_id input.user_id)
          s.memberships in
      require (not (has_intent own)) open_deposit_intent (
        if_found own (err not_eligible_to_fund) λ membership.
          require (can_fund membership.state) not_eligible_to_fund (
            if_found (find (λ (p : Pod). same_text p.id input.pod_id) s.pods)
              (err pod_not_accepting)
              λ pod. if_found pod.contract_data (err pod_not_accepting) λ contract.
                require (is_enrollment_open pod.state) pod_not_accepting (
                  let proportional = is_proportional contract.settlement_mode in
                  require
                    (not (
                      proportional
                      && (not (same_given input.accepted_contract_hash pod.contract_hash)
                          || not (is_some_true input.settlement_disclosure_accepted))))
                    contract_not_accepted
                    (require
                      (not (
                        is_public_visitor_contract contract
                        && not (same_option membership.accepted_contract_hash pod.contract_hash)))
                      contract_not_accepted
                      (if_found
                        (find (λ (o : Occurrence). same_text o.pod_id pod.id && o.ordinal == 1)
                          s.occurrences)
                        (err funding_cutoff_passed)
                        λ first. require (ltb now first.opens_at) funding_cutoff_passed (
                          if_found (find (λ (u : User). same_text u.id input.user_id) s.users)
                            (err wallet_mismatch)
                            λ user.
                              require (same_text user.wallet_address input.wallet_address)
                                wallet_mismatch
                                (let intent =
                                    new_intent (uuid s.next_id) membership.id pod.id input.user_id
                                      user.wallet_address input.treasury_address input.network
                                      input.reference contract.total_luna first.opens_at now in
                                  require
                                    (not (some_of (intent_conflicts intent) s.deposit_intents))
                                    unique_violation
                                    (let s1 = record s {
                                      next_id = suc s.next_id;
                                      deposit_intents = intent ∷ s.deposit_intents;
                                    } in
                                      let its = λ (m : Membership).
                                        same_text m.id membership.id
                                        && same_membership_state m.state membership.state in
                                      let pending = λ (m : Membership). record m {
                                        deposit_intent_id = some intent.id;
                                        state = deposit_pending;
                                        accepted_contract_hash =
                                            if proportional
                                            then pod.contract_hash
                                            else membership.accepted_contract_hash;
                                        updated_at = now;
                                      } in
                                      if_found (returned its pending s1.memberships)
                                        (err membership_state_changed)
                                        λ _. ok (intent, update_memberships its pending s1)))))))))
