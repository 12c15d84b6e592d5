-- ===== src/Transfers/Audit/Settled.antt =====
-- packages/db/src/transfer-repository.ts: when a run is settled, and the second confirmation of a payout.
use mathlib.Core.Path.{subst}
use mathlib.Core.Option.{some-injective}
use pods.Base.{
  ℕ, suc, ◌≡◌, refl, sym, ap, ◌∙◌, Bool, true, false, ◌&&◌, Option, none, some, List, [], ◌∷◌, Text,
  codes, same_text, same_text_iff, same_text_refl, find, some_of, ok, Bool-cases, inl, inr, arith,
  or_false, IsUnique,
}
use pods.Database.Rows.{
  TransferLeg, TransferLegState, worker, SettlementRun, SettlementRunState, settled,
  SettlementEntitlement, transfer_confirmed,
}
use pods.Database.Table.{patch, returned, find-patch, find_unique, returned-some, ids}
use pods.Database.Insert.{After-insert_entry}
use pods.Database.Flow.{
  if_found, After, After-if_found, After-require, After-if, if_found-elim, if_found-by, After-eq-ok,
}
use pods.Database.Store.{Store}
use pods.Transfers.States.{same_leg_state, payout_leg}
use pods.Transfers.Confirm.{
  is_executing, is_resolved, unresolved_of, settle_if_resolved, payout_entry, leg_final,
  confirm_payout_transfer,
}
use pods.Transfers.Audit.Payout.{After-record_event, by_id}

abbrev pub is_settled : SettlementRunState → Bool
is_settled settled = true
is_settled _ = false

abbrev pub settled_run : Text → SettlementRun → Bool
settled_run run_id r = same_text r.id run_id && is_settled r.state

-- A settled run has no unresolved entitlement.
unfoldable pub IsResolved : List SettlementRun → List SettlementEntitlement → Type 0
IsResolved runs rights =
    (j : Text) → some_of (settled_run j) runs ≡ true → some_of (unresolved_of j) rights ≡ false

abbrev pub IsSettledRight : Store → Type 0
IsSettledRight s = IsResolved s.settlement_runs s.settlement_entitlements

none_found :
    (q : SettlementEntitlement → Bool) (rows : List SettlementEntitlement)
    → find q rows ≡ none
    → some_of q rows ≡ false
none_found q [] h = refl
none_found q (x ∷ rows) h = ground (arith, none_found q rows)

-- The payment of an entitlement leaves no more unresolved than before.
paid_resolves :
    (j : Text) (where_ : SettlementEntitlement → Bool)
    (set : SettlementEntitlement → SettlementEntitlement) (rows : List SettlementEntitlement)
    → ((e : SettlementEntitlement) → (set e).state ≡ transfer_confirmed)
    → some_of (unresolved_of j) rows ≡ false
    → some_of (unresolved_of j) (patch where_ set rows) ≡ false
unfolding patch
paid_resolves j where_ set [] paid h = refl
paid_resolves j where_ set (x ∷ rows) paid h =
    let (here, later) = or_false (unresolved_of j x) (some_of (unresolved_of j) rows) h in
    ground (arith, here, ap is_resolved (paid x), paid_resolves j where_ set rows paid later)

other_runs :
    (j run_id : Text) (set : SettlementRun → SettlementRun) (runs : List SettlementRun)
    → ((r : SettlementRun) → (set r).id ≡ r.id)
    → same_text run_id j ≡ false
    → some_of (settled_run j) (patch (λ r. same_text r.id run_id && is_executing r.state) set runs)
      ≡ some_of (settled_run j) runs
unfolding patch
other_runs j run_id set [] same ne = refl
other_runs j run_id set (r ∷ runs) same ne = ground (
  arith,
  other_runs j run_id set runs same ne,
  same r,
  ap (λ t. same_text t j) (same r),
  same_text_iff r.id run_id,
  same_text_iff r.id j,
  same_text_iff run_id j,
)

closed_Resolved :
    (run_id : Text) (set : SettlementRun → SettlementRun) (runs : List SettlementRun)
    (rights : List SettlementEntitlement)
    → ((r : SettlementRun) → (set r).id ≡ r.id)
    → find (unresolved_of run_id) rights ≡ none
    → IsResolved runs rights
    → IsResolved (patch (λ r. same_text r.id run_id && is_executing r.state) set runs) rights
unfolding IsResolved
closed_Resolved run_id set runs rights same none_left v j h =
    elim (Bool-cases (same_text run_id j)) [
      | inl e ↦
          subst (λ i. some_of (unresolved_of i) rights ≡ false) (by_id run_id j e)
            (none_found (unresolved_of run_id) rights none_left)
      | inr ne ↦ v j (sym (other_runs j run_id set runs same ne) ∙ h)
    ]

settle_if_resolved-IsSettledRight :
    (run_id : Text) (now : ℕ) (s : Store)
    → IsSettledRight s
    → IsSettledRight (settle_if_resolved run_id now s)
unfolding settle_if_resolved
settle_if_resolved-IsSettledRight run_id now s v =
    if_found-by IsSettledRight _ _ _
      (λ none_left.
        let closed =
          closed_Resolved run_id
            (λ r. record r { state = settled; settled_at = some now; updated_at = now })
            s.settlement_runs s.settlement_entitlements (λ r. refl) none_left v in
        if_found-elim IsSettledRight _ _ _ closed
          λ run. if_found-elim IsSettledRight _ _ _ closed λ _. closed)
      λ _ _. v

settled_legs :
    (run_id : Text) (now : ℕ) (s : Store)
    → (settle_if_resolved run_id now s).transfer_legs ≡ s.transfer_legs
unfolding settle_if_resolved
settled_legs run_id now s =
    if_found-elim (λ (x : Store). x.transfer_legs ≡ s.transfer_legs) _ _ _
      (if_found-elim (λ (x : Store). x.transfer_legs ≡ s.transfer_legs) _ _ _ refl
        λ run.
          if_found-elim (λ (x : Store). x.transfer_legs ≡ s.transfer_legs) _ _ _ refl λ _. refl)
      λ _. refl

module _ (uuid : ℕ → Text) where
  pub confirm_payout_transfer-IsSettledRight :
      (leg_id attempt_id : Text) (now : ℕ) (s : Store)
      → IsSettledRight s
      → After
          (λ (o : Option TransferLeg × Store). IsSettledRight o.1)
          (confirm_payout_transfer uuid leg_id attempt_id now s)
  unfolding confirm_payout_transfer IsResolved
  confirm_payout_transfer-IsSettledRight leg_id attempt_id now s v =
      let P = λ (o : Option TransferLeg × Store). IsSettledRight o.1 in
      After-if_found P _ _ _ (λ _. v)
        λ leg _.
          After-if_found P _ _ _ (λ _. v)
            λ entitlement_id _.
              After-if P (same_leg_state leg.state TransferLegState.confirmed) _ _ (λ _. v)
                λ _. After-require P _ _ _ λ _.
                  After-if_found P _ _ _ (λ _. tt)
                    λ attempt _. After-require P _ _ _ λ _.
                      After-if_found P _ _ _ (λ _. tt)
                        λ entitlement _. After-require P _ _ _ λ _.
                          let paid : IsResolved s.settlement_runs (
                              patch (λ (e : SettlementEntitlement). same_text e.id entitlement.id)
                                (λ e. record e { state = transfer_confirmed; updated_at = now })
                                s.settlement_entitlements) =
                            λ j h.
                              paid_resolves j _ _ s.settlement_entitlements (λ e. refl) (v j h) in
                          After-insert_entry P (payout_entry uuid leg entitlement now s)
                            (record s { next_id = suc s.next_id }) _
                            (λ _.
                              After-if_found P _ _ _ (λ _. tt)
                                λ final _.
                                  After-record_event uuid P leg.id attempt worker leg.state
                                    TransferLegState.confirmed (codes "chain_finalized") now _
                                    (λ s4. ok (
                                      some final,
                                      settle_if_resolved entitlement.settlement_run_id now s4,
                                    ))
                                    (settle_if_resolved-IsSettledRight entitlement.settlement_run_id
                                      now _ paid))
                            λ _.
                              After-if_found P _ _ _ (λ _. tt)
                                λ final _.
                                  After-record_event uuid P leg.id attempt worker leg.state
                                    TransferLegState.confirmed (codes "chain_finalized") now _
                                    (λ s4. ok (
                                      some final,
                                      settle_if_resolved entitlement.settlement_run_id now s4,
                                    ))
                                    (settle_if_resolved-IsSettledRight entitlement.settlement_run_id
                                      now _ paid)

  -- A payout that is found confirmed is returned, and the tables stay as they are.
  confirmed_again :
      (leg_id attempt_id : Text) (now : ℕ) (s : Store) {leg : TransferLeg} {right : Text}
      → find (payout_leg leg_id) s.transfer_legs ≡ some leg
      → leg.settlement_entitlement_id ≡ some right
      → same_leg_state leg.state TransferLegState.confirmed ≡ true
      → confirm_payout_transfer uuid leg_id attempt_id now s ≡ ok (some leg, s)
  unfolding confirm_payout_transfer if_found
  confirmed_again leg_id attempt_id now s {leg} {right} f e c = rw (f, e, c)

  Again : Text → Option TransferLeg × Store → Type 0
  Again leg_id (none, s) = Unit
  Again leg_id (some leg, s) =
      (attempt_id : Text) (now : ℕ)
      → confirm_payout_transfer uuid leg_id attempt_id now s ≡ ok (some leg, s)

  final_Again :
      (leg_id run_id : Text) (now : ℕ) (legs : List TransferLeg) (leg final : TransferLeg)
      (right : Text) (s : Store)
      → IsUnique (ids (λ (l : TransferLeg). l.id) legs)
      → find (payout_leg leg_id) legs ≡ some leg
      → leg.settlement_entitlement_id ≡ some right
      → returned (λ l. same_text l.id leg.id) (leg_final now) legs ≡ some final
      → s.transfer_legs ≡ patch (λ l. same_text l.id leg.id) (leg_final now) legs
      → Again leg_id (some final, settle_if_resolved run_id now s)
  unfolding Again same_leg_state
  final_Again leg_id run_id now legs leg final right s unique f e r same attempt_id later =
      let its = λ (l : TransferLeg). same_text l.id leg.id in
      let (row, g, row-eq) = returned-some its (leg_final now) legs r in
      let here : find its legs ≡ some leg =
        find_unique (λ (l : TransferLeg). l.id) (payout_leg leg_id) its legs unique f
          (same_text_refl leg.id) λ l h. by_id _ _ h in
      let p : leg_final now leg ≡ final =
        ap (leg_final now) (some-injective _ _ (sym here ∙ g)) ∙ row-eq in
      let seen = find-patch (payout_leg leg_id) its (leg_final now) legs λ l. refl in
      let now_found : find (payout_leg leg_id) (settle_if_resolved run_id now s).transfer_legs
          ≡ some final =
        ap (find (payout_leg leg_id)) (settled_legs run_id now s ∙ same)
        ∙ (rw f at seen)
        ∙ ap some (rw (same_text_refl leg.id) p) in
      confirmed_again leg_id attempt_id later (settle_if_resolved run_id now s) now_found
        (ap (λ (l : TransferLeg). l.settlement_entitlement_id) (sym p) ∙ e)
        (ap (λ (l : TransferLeg). same_leg_state l.state TransferLegState.confirmed) (sym p))

  confirm_payout_transfer-Again :
      (leg_id attempt_id : Text) (now : ℕ) (s : Store)
      → IsUnique (ids (λ (l : TransferLeg). l.id) s.transfer_legs)
      → After (Again leg_id) (confirm_payout_transfer uuid leg_id attempt_id now s)
  unfolding confirm_payout_transfer Again
  confirm_payout_transfer-Again leg_id attempt_id now s unique =
      let P = Again leg_id in
      After-if_found P _ _ _ (λ _. tt)
        λ leg f.
          After-if_found P _ _ _ (λ _. tt)
            λ right e.
              After-if P (same_leg_state leg.state TransferLegState.confirmed) _ _
                (λ c a later. confirmed_again leg_id a later s f e c)
                λ _. After-require P _ _ _ λ _.
                  After-if_found P _ _ _ (λ _. tt)
                    λ attempt _. After-require P _ _ _ λ _.
                      After-if_found P _ _ _ (λ _. tt)
                        λ entitlement _. After-require P _ _ _ λ _.
                          After-insert_entry P (payout_entry uuid leg entitlement now s)
                            (record s { next_id = suc s.next_id }) _
                            (λ _.
                              After-if_found P _ _ _ (λ _. tt)
                                λ final r.
                                  After-record_event uuid P leg.id attempt worker leg.state
                                    TransferLegState.confirmed (codes "chain_finalized") now _
                                    (λ s4. ok (
                                      some final,
                                      settle_if_resolved entitlement.settlement_run_id now s4,
                                    ))
                                    (final_Again leg_id entitlement.settlement_run_id now
                                      s.transfer_legs leg final right _ unique f e r refl))
                            λ _.
                              After-if_found P _ _ _ (λ _. tt)
                                λ final r.
                                  After-record_event uuid P leg.id attempt worker leg.state
                                    TransferLegState.confirmed (codes "chain_finalized") now _
                                    (λ s4. ok (
                                      some final,
                                      settle_if_resolved entitlement.settlement_run_id now s4,
                                    ))
                                    (final_Again leg_id entitlement.settlement_run_id now
                                      s.transfer_legs leg final right _ unique f e r refl)

  -- Where legs have different identities, a payout whose confirmation returned it is returned
  -- again by a second confirmation, with any attempt at any time, and the tables stay as they
  -- are.
  pub confirm_payout_transfer_idem :
      (leg_id attempt_id other_attempt : Text) (now later : ℕ) (s s' : Store) (leg : TransferLeg)
      → IsUnique (ids (λ (l : TransferLeg). l.id) s.transfer_legs)
      → confirm_payout_transfer uuid leg_id attempt_id now s ≡ ok (some leg, s')
      → confirm_payout_transfer uuid leg_id other_attempt later s' ≡ ok (some leg, s')
  unfolding Again
  confirm_payout_transfer_idem leg_id attempt_id other_attempt now later s s' leg unique h =
      After-eq-ok (Again leg_id) (confirm_payout_transfer uuid leg_id attempt_id now s)
        (confirm_payout_transfer-Again leg_id attempt_id now s unique) h other_attempt later

  -- When no settled run has an unresolved entitlement, then none has one after a confirmation of
  -- a payout that returns.
  pub confirm_payout_transfer_settled :
      (leg_id attempt_id : Text) (now : ℕ) (s s' : Store) (o : Option TransferLeg)
      → IsResolved s.settlement_runs s.settlement_entitlements
      → confirm_payout_transfer uuid leg_id attempt_id now s ≡ ok (o, s')
      → IsResolved s'.settlement_runs s'.settlement_entitlements
  confirm_payout_transfer_settled leg_id attempt_id now s s' o v h =
      After-eq-ok (λ (r : Option TransferLeg × Store). IsSettledRight r.1)
        (confirm_payout_transfer uuid leg_id attempt_id now s)
        (confirm_payout_transfer-IsSettledRight leg_id attempt_id now s v) h
