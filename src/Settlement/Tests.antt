-- ===== src/Settlement/Tests.antt =====
-- Settlements of two members, one of whom missed the first day.
use pods.Base.{
  ◌*◌, ◌/◌, ◌%◌, ◌≡◌, ◌≢◌, refl, Bool, true, false, [], ◌∷◌, ok, err, Text, same_text, codes, nat,
  length, sum_of, All, leb, arith,
}
use pods.Settlement.{calculate_settlement, distribution, assign_bonus, ids_where, is_forfeiting}
use pods.Settlement.Types.{
  SettlementInput, CalculatedSettlement, SettlementOutcomeState, approved, missed, closed,
  not_conserved,
}
use pods.Settlement.Bonus.{assign_bonus-total}
use pods.Settlement.Steps.{payout_of}
use pods.Settlement.Conservation.{calculate_settlement-pays}
use pods.Settlement.Guard.{calculate_settlement-ne-not_conserved}

-- By the first code unit.
abbrev first_le : Text → Text → Bool
first_le [] t = true
first_le (a ∷ s) [] = false
first_le (a ∷ s) (b ∷ t) = leb a b

abbrev ann : Text
ann = codes "ann"

abbrev bob : Text
bob = codes "bob"

abbrev two_members : SettlementInput
two_members = record {
  luna_per_occurrence = nat 5;
  members =
      record { membership_id = ann; deposit_luna = nat 10 }
      ∷ record { membership_id = bob; deposit_luna = nat 10 }
      ∷ [];
  occurrences =
      record {
        occurrence_id = codes "monday";
        outcomes =
            record { membership_id = ann; state = codes "approved" }
            ∷ record { membership_id = bob; state = codes "missed" }
            ∷ [];
      }
      ∷ record {
        occurrence_id = codes "tuesday";
        outcomes =
            record { membership_id = bob; state = codes "approved" }
            ∷ record { membership_id = ann; state = codes "approved" }
            ∷ [];
      }
      ∷ [];
}

abbrev settled : CalculatedSettlement
settled = record {
  luna_per_occurrence = 5;
  total_deposit_luna = 20;
  total_payout_luna = 20;
  occurrences =
      record {
        occurrence_id = codes "monday";
        state = closed;
        forfeiture_pool_luna = 5;
        bonus_recipient_count = 1;
        outcomes =
            record {
              membership_id = ann;
              state = approved;
              principal_luna = 5;
              provisional_forfeiture_luna = 0;
              restoration_luna = 0;
              bonus_luna = 5;
              payout_luna = 10;
            }
            ∷ record {
              membership_id = bob;
              state = missed;
              principal_luna = 0;
              provisional_forfeiture_luna = 5;
              restoration_luna = 0;
              bonus_luna = 0;
              payout_luna = 0;
            }
            ∷ [];
      }
      ∷ record {
        occurrence_id = codes "tuesday";
        state = closed;
        forfeiture_pool_luna = 0;
        bonus_recipient_count = 2;
        outcomes =
            record {
              membership_id = ann;
              state = approved;
              principal_luna = 5;
              provisional_forfeiture_luna = 0;
              restoration_luna = 0;
              bonus_luna = 0;
              payout_luna = 5;
            }
            ∷ record {
              membership_id = bob;
              state = approved;
              principal_luna = 5;
              provisional_forfeiture_luna = 0;
              restoration_luna = 0;
              bonus_luna = 0;
              payout_luna = 5;
            }
            ∷ [];
      }
      ∷ [];
  members =
      record {
        membership_id = ann;
        deposit_luna = 10;
        principal_luna = 10;
        provisional_forfeiture_luna = 0;
        restoration_luna = 0;
        bonus_luna = 5;
        payout_luna = 15;
      }
      ∷ record {
        membership_id = bob;
        deposit_luna = 10;
        principal_luna = 5;
        provisional_forfeiture_luna = 5;
        restoration_luna = 0;
        bonus_luna = 0;
        payout_luna = 5;
      }
      ∷ [];
}

two_members-settled : calculate_settlement first_le two_members ≡ ok settled
unfolding calculate_settlement same_text pods.Settlement.settle_occurrence
    pods.Settlement.Types.terminal_state pods.Settlement.settle_member pods.Settlement.add_outcome
two_members-settled = refl

calculate_settlement-pays_example :
    (20 ≡ 5 * 2 * 2)
    × (20 ≡ 5 * 2 * 2)
    × (sum_of payout_of settled.members ≡ settled.total_payout_luna)
    × (length settled.occurrences ≡ length two_members.occurrences)
    × All (λ c. sum_of (λ o. o.payout_luna) c.outcomes ≡ 10) settled.occurrences
calculate_settlement-pays_example =
    calculate_settlement-pays first_le two_members {s = settled} two_members-settled

calculate_settlement-ne-not_conserved_example :
    calculate_settlement first_le two_members ≢ err not_conserved
calculate_settlement-ne-not_conserved_example =
    calculate_settlement-ne-not_conserved first_le two_members

assign_bonus-total_example : sum_of (λ e. e.1) (assign_bonus (7 / 2) (7 % 2) 0 (ann ∷ bob ∷ [])) ≡ 7
assign_bonus-total_example = assign_bonus-total 7 (ann ∷ bob ∷ []) (omega arith)
